-- ===== src/Api.antt =====
-- internal/api/handler.go: the read-only JSON endpoints, without `handleConfig`, which only copies
-- the configuration. Query parameters are read by name; a missing one is empty.
pub mod Pages
pub mod Settings
pub mod Routes
use cache_proxyfy.Prelude.{
  ℕ, ◌+◌, ◌-◌, ◌*◌, ◌%◌, Bytes, codes, Bool, true, false, not, ◌||◌, Option, none, some, List, [],
  ◌∷◌, ltb, leb, if◌then◌else◌, ◌==◌, Result, ok, err,
}
use cache_proxyfy.Prelude.Integers.{mul64, signed_lt, sign_bit, positive_int}
use cache_proxyfy.Db.Schema.{
  PackageKey, Package, CveAlert, Database, DbError, not_found, query_failed, exec,
}
use cache_proxyfy.Db.Packages.{get_package}
use cache_proxyfy.Db.Listing.{
  list_versions, count_versions, list_packages, PackageSummary, count_package_summaries,
  list_package_summaries,
}
use cache_proxyfy.Db.Audit.{list_package_cve_alerts, list_cve_alerts, Stats, get_stats}

-- What the handlers read of a request; `is_get` tells whether its method is GET.
pub record Request : Type 0 where
  pub is_get : Bool
  pub ecosystem : Bytes
  pub name : Bytes
  pub version : Bytes
  pub page : Bytes
  pub page_size : Bytes
  pub since : Bytes

-- `http.Error`, or what `writeJSON` is given.
pub data Response (A : Type 0) : Type 0 where
  error : (status : ℕ) (message : Bytes) → Response A
  json : A → Response A

pub record Paginated (A : Type 0) : Type 0 where
  pub items : List A
  pub total : ℕ
  pub page : ℕ
  pub page_size : ℕ

abbrev pub method_not_allowed : {A : Type 0} → Response A
method_not_allowed = error 405 (codes "method not allowed")

abbrev pub internal_error : {A : Type 0} → Response A
internal_error = error 500 (codes "internal server error")

abbrev pub is_empty : Bytes → Bool
is_empty s = s == []

abbrev pub at_most_100 : ℕ → ℕ
at_most_100 n = if ltb 100 n then 100 else n

abbrev pub page_or_1 : Option ℕ → ℕ
page_or_1 none = 1
page_or_1 (some p) = p

abbrev pub size_or_25 : Option ℕ → ℕ
size_or_25 none = 25
size_or_25 (some n) = at_most_100 n

unfoldable pub parse_page : Request → ℕ × ℕ
parse_page r = (page_or_1 (positive_int r.page), size_or_25 (positive_int r.page_size))

-- (page - 1) * pageSize on int.
unfoldable pub offset_of : ℕ × ℕ → ℕ
offset_of (page, size) = mul64 (page - 1) size

-- `parseSince` at an instant; `ago` tells what time.ParseDuration makes of a text, as the instant
-- that lies the duration before another.
unfoldable pub parse_since : (Bytes → Option (ℕ → ℕ)) → ℕ → Bytes → ℕ
parse_since ago now s =
    if is_empty s
    then now - 86400000000000
    else elim (ago s) [ none ↦ now - 86400000000000 | some before ↦ before now ]

abbrev pub answer : {A : Type 0} → Result DbError A × Database → Response A × Database
answer (ok a, d) = (json a, d)
answer (err e, d) = (internal_error, d)

-- PostgreSQL refuses a negative OFFSET.
abbrev pub at_offset :
    {A : Type 0}
    → (ℕ → Database → Result DbError A × Database)
    → ℕ
    → Database
    → Result DbError A × Database
at_offset query offset d =
    if ltb offset sign_bit then query offset d else exec (λ d'. (err query_failed, d')) d

abbrev pub page_response : {A : Type 0} → ℕ × ℕ → ℕ → List A → Paginated A
page_response (page, size) total items = record {
  items = items;
  total = total;
  page = page;
  page_size = size;
}

abbrev pub answer_page :
    {A : Type 0}
    → ℕ × ℕ
    → ℕ
    → Result DbError (List A) × Database
    → Response (Paginated A) × Database
answer_page page total (ok items, d) = (json (page_response page total items), d)
answer_page page total (err e, d) = (internal_error, d)

-- The end of both paginated handlers: count, then list unless the page lies behind the last row.
unfoldable pub paginate :
    {A : Type 0}
    → (count : Database → Result DbError ℕ × Database)
    → (list : ℕ → ℕ → Database → Result DbError (List A) × Database) → ℕ × ℕ
    → Database
    → Response (Paginated A) × Database
paginate count list page d =
    let (total, d₁) = count d in
    elim total [
      | err e ↦ (internal_error, d₁)
      | ok n ↦
          if signed_lt (offset_of page) n
          then answer_page page n (at_offset (list page.1) (offset_of page) d₁)
          else (json (page_response page n []), d₁)
    ]

unfoldable pub handle_stats :
    (Bytes → Option (ℕ → ℕ)) → Request → Database → Response Stats × Database
handle_stats ago r d =
    if r.is_get
    then answer (get_stats (parse_since ago d.now r.since) d)
    else (method_not_allowed, d)

-- The two kinds of answer of `handlePackages`.
pub data PackagesAnswer : Type 0 where
  single : Response Package → PackagesAnswer
  versions : Response (Paginated Package) → PackagesAnswer

abbrev pub answer_single : Result DbError Package × Database → Response Package × Database
answer_single (ok r, d) = (json r, d)
answer_single (err not_found, d) = (error 404 (codes "not found"), d)
answer_single (err query_failed, d) = (internal_error, d)

unfoldable pub handle_packages : Request → Database → PackagesAnswer × Database
handle_packages r d =
    if not r.is_get
    then (single method_not_allowed, d)
    else if is_empty r.ecosystem || is_empty r.name
    then (single (error 400 (codes "ecosystem and name are required")), d)
    else if is_empty r.version
    then (let (answered, d') =
          paginate (count_versions r.ecosystem r.name) (list_versions r.ecosystem r.name)
            (parse_page r) d in
        (versions answered, d'))
    else (let (answered, d') = answer_single (
          get_package (record { ecosystem = r.ecosystem; name = r.name; version = r.version }) d) in
        (single answered, d'))

unfoldable pub handle_package_list : Request → Database → Response (List Package) × Database
handle_package_list r d =
    if r.is_get then answer (list_packages r.ecosystem d) else (method_not_allowed, d)

unfoldable pub handle_package_summaries :
    Request → Database → Response (Paginated PackageSummary) × Database
handle_package_summaries r d =
    if r.is_get
    then paginate (count_package_summaries r.ecosystem) (list_package_summaries r.ecosystem)
        (parse_page r) d
    else (method_not_allowed, d)

unfoldable pub handle_package_cve_alerts : Request → Database → Response (List CveAlert) × Database
handle_package_cve_alerts r d =
    if not r.is_get
    then (method_not_allowed, d)
    else if is_empty r.ecosystem || is_empty r.name || is_empty r.version
    then (error 400 (codes "ecosystem, name and version are required"), d)
    else answer (
        list_package_cve_alerts
          (record { ecosystem = r.ecosystem; name = r.name; version = r.version }) d)

unfoldable pub handle_cve_alerts :
    (Bytes → Option (ℕ → ℕ)) → Request → Database → Response (List CveAlert) × Database
handle_cve_alerts ago r d =
    if r.is_get
    then answer (list_cve_alerts (parse_since ago d.now r.since) r.ecosystem d)
    else (method_not_allowed, d)
