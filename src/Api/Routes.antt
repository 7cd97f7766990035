-- ===== src/Api/Routes.antt =====
-- internal/api/handler.go, `RegisterRoutes`: the endpoints by path, and what all of them leave alone.
use cache_proxyfy.Prelude.{
  ℕ, ◌≡◌, refl, Bytes, codes, Bool, not, ◌||◌, true, false, Option, none, some, List, [],
  if◌then◌else◌, ◌==◌, Result, ok, err, ltb, ap, ◌∙◌, Bool-cases, Result-cases, fails, inl, inr,
}
use cache_proxyfy.Prelude.Integers.{sign_bit, signed_lt}
use cache_proxyfy.Config.{Config}
use cache_proxyfy.Db.Schema.{
  PackageKey, Package, CveAlert, Database, DbError, not_found, query_failed, exec,
}
use cache_proxyfy.Db.Packages.{get_package}
use cache_proxyfy.Db.Listing.{
  PackageSummary, list_packages, list_versions, count_versions, count_package_summaries,
  list_package_summaries,
}
use cache_proxyfy.Db.Audit.{Stats, get_stats, list_cve_alerts, list_package_cve_alerts}
use cache_proxyfy.Api.{
  Request, Response, Paginated, PackagesAnswer, handle_stats, handle_packages, handle_package_list,
  answer, answer_page, answer_single, at_offset, handle_package_summaries,
  handle_package_cve_alerts, handle_cve_alerts, paginate, offset_of, parse_page, parse_since,
  is_empty,
}
use cache_proxyfy.Api.Settings.{ConfigResponse, handle_config}

pub data Endpoint : Type 0 where
  stats packages package_list package_summaries package_cve_alerts cve_alerts config : Endpoint

-- The patterns are whole paths.
unfoldable pub endpoint_of : Bytes → Option Endpoint
endpoint_of path =
    if path == codes "/api/stats"
    then some stats
    else if path == codes "/api/packages"
    then some packages
    else if path == codes "/api/packages/list"
    then some package_list
    else if path == codes "/api/packages/summaries"
    then some package_summaries
    else if path == codes "/api/packages/cve-alerts"
    then some package_cve_alerts
    else if path == codes "/api/cve-alerts"
    then some cve_alerts
    else if path == codes "/api/config"
    then some config
    else none

pub data ApiAnswer : Type 0 where
  stats_answer : Response Stats → ApiAnswer
  packages_answer : PackagesAnswer → ApiAnswer
  list_answer : Response (List Package) → ApiAnswer
  summaries_answer : Response (Paginated PackageSummary) → ApiAnswer
  alerts_answer : Response (List CveAlert) → ApiAnswer
  config_answer : Response ConfigResponse → ApiAnswer

abbrev with_answer : {A : Type 0} → (A → ApiAnswer) → A × Database → ApiAnswer × Database
with_answer f r = (f r.0, r.1)

module _ (Rate : Type 0) (ago : Bytes → Option (ℕ → ℕ)) (cfg : Option (Config Rate)) where
  unfoldable pub serve_endpoint : Endpoint → Request → Database → ApiAnswer × Database
  serve_endpoint stats r d = with_answer stats_answer (handle_stats ago r d)
  serve_endpoint packages r d = with_answer packages_answer (handle_packages r d)
  serve_endpoint package_list r d = with_answer list_answer (handle_package_list r d)
  serve_endpoint package_summaries r d = with_answer summaries_answer (handle_package_summaries r d)
  serve_endpoint package_cve_alerts r d = with_answer alerts_answer (handle_package_cve_alerts r d)
  serve_endpoint cve_alerts r d = with_answer alerts_answer (handle_cve_alerts ago r d)
  serve_endpoint config r d = (config_answer (handle_config Rate cfg r), d)

-- The database without what its coming statements meet.
unfoldable pub tables : Database → Database
tables d = record d { faults = [] }

-- A query that changes nothing.
Reads : {A : Type 0} → (Database → A × Database) → Type 0
Reads q = (d : Database) → tables (q d).1 ≡ tables d

exec-Reads : {A : Type 0} (q : Database → Result DbError A) → Reads (exec (λ d. (q d, d)))
unfolding Reads tables
exec-Reads q d = elim (Bool-cases (fails d.faults)) [ inl h ↦ rw h refl | inr h ↦ rw h refl ]

abbrev key_of : Request → PackageKey
key_of r = record { ecosystem = r.ecosystem; name = r.name; version = r.version }

answer-state : {A : Type 0} (p : Result DbError A × Database) → (answer p).1 ≡ p.1
answer-state (ok a, d) = refl
answer-state (err e, d) = refl

answer_single-state : (p : Result DbError Package × Database) → (answer_single p).1 ≡ p.1
answer_single-state (ok r, d) = refl
answer_single-state (err not_found, d) = refl
answer_single-state (err query_failed, d) = refl

answer_page-state :
    {A : Type 0} (page : ℕ × ℕ) (n : ℕ) (p : Result DbError (List A) × Database)
    → (answer_page page n p).1 ≡ p.1
answer_page-state page n (ok xs, d) = refl
answer_page-state page n (err e, d) = refl

at_offset-Reads :
    {A : Type 0} (query : ℕ → Database → Result DbError A × Database) (offset : ℕ)
    → ((n : ℕ) → Reads (query n))
    → Reads (at_offset query offset)
unfolding Reads
at_offset-Reads query offset h d = elim (Bool-cases (ltb offset sign_bit)) [
  | inl q ↦ rw q (h offset d)
  | inr q ↦ rw q (exec-Reads (λ e. err query_failed) d)
]

paginate-Reads :
    {A : Type 0} (count : Database → Result DbError ℕ × Database)
    (list : ℕ → ℕ → Database → Result DbError (List A) × Database) (page : ℕ × ℕ)
    → Reads count
    → ((n m : ℕ) → Reads (list n m))
    → Reads (paginate count list page)
unfolding Reads paginate
paginate-Reads count list page h g d = elim (Result-cases (count d).0) [
  | inl (n, q) ↦ elim (Bool-cases (signed_lt (offset_of page) n)) [
    | inl l ↦
        rw (q, l, paginate)
          (ap tables
              (answer_page-state page n (at_offset (list page.1) (offset_of page) (count d).1))
            ∙ at_offset-Reads (list page.1) (offset_of page) (g page.1) (count d).1
            ∙ h d)
    | inr l ↦ rw (q, l, paginate) (h d)
  ]
  | inr (e, q) ↦ rw (q, paginate) (h d)
]

if-tables :
    {A : Type 0} (b : Bool) (x y : A × Database) (d : Database)
    → tables x.1 ≡ tables d
    → tables y.1 ≡ tables d
    → tables (if b then x else y).1 ≡ tables d
if-tables true x y d h g = h
if-tables false x y d h g = g

answered-Reads :
    {A : Type 0} (q : Database → Result DbError A × Database) → Reads q → Reads (λ d. answer (q d))
unfolding Reads
answered-Reads q h d = ap tables (answer-state (q d)) ∙ h d

count_versions-Reads : (e n : Bytes) → Reads (count_versions e n)
unfolding count_versions
count_versions-Reads e n = search exec-Reads

list_versions-Reads : (e n : Bytes) (l o : ℕ) → Reads (list_versions e n l o)
unfolding list_versions
list_versions-Reads e n l o = search exec-Reads

get_package-Reads : (k : PackageKey) → Reads (get_package k)
unfolding get_package
get_package-Reads k = search exec-Reads

list_packages-Reads : (e : Bytes) → Reads (list_packages e)
unfolding list_packages
list_packages-Reads e = search exec-Reads

count_package_summaries-Reads : (e : Bytes) → Reads (count_package_summaries e)
unfolding count_package_summaries
count_package_summaries-Reads e = search exec-Reads

list_package_summaries-Reads : (e : Bytes) (l o : ℕ) → Reads (list_package_summaries e l o)
unfolding list_package_summaries
list_package_summaries-Reads e l o = search exec-Reads

list_package_cve_alerts-Reads : (k : PackageKey) → Reads (list_package_cve_alerts k)
unfolding list_package_cve_alerts
list_package_cve_alerts-Reads k = search exec-Reads

list_cve_alerts-Reads : (t : ℕ) (e : Bytes) → Reads (list_cve_alerts t e)
unfolding list_cve_alerts
list_cve_alerts-Reads t e = search exec-Reads

get_stats-Reads : (t : ℕ) → Reads (get_stats t)
unfolding get_stats
get_stats-Reads t = search exec-Reads

handle_packages-Reads : (r : Request) → Reads (handle_packages r)
unfolding Reads handle_packages
handle_packages-Reads r d = if-tables (not r.is_get) _ _ d refl (
    if-tables (is_empty r.ecosystem || is_empty r.name) _ _ d refl (
      if-tables (is_empty r.version) _ _ d
        (paginate-Reads (count_versions r.ecosystem r.name) (list_versions r.ecosystem r.name)
          (parse_page r) (count_versions-Reads r.ecosystem r.name)
          (list_versions-Reads r.ecosystem r.name) d)
        (ap tables (answer_single-state (get_package (key_of r) d))
          ∙ get_package-Reads (key_of r) d)))

module _ (Rate : Type 0) (ago : Bytes → Option (ℕ → ℕ)) (cfg : Option (Config Rate)) where
  -- Every endpoint only reads: whatever the request, whatever fails, the tables, their sequences and
  -- the clock are afterwards what they were.
  pub serve_endpoint-read_only :
      (e : Endpoint) (r : Request) (d : Database)
      → tables (serve_endpoint Rate ago cfg e r d).1 ≡ tables d
  unfolding serve_endpoint Reads handle_stats handle_package_list handle_package_summaries
      handle_package_cve_alerts handle_cve_alerts
  serve_endpoint-read_only stats r d =
      if-tables r.is_get _ _ d
        (answered-Reads (get_stats (parse_since ago d.now r.since))
          (get_stats-Reads (parse_since ago d.now r.since)) d)
        refl
  serve_endpoint-read_only packages r d = handle_packages-Reads r d
  serve_endpoint-read_only package_list r d =
      if-tables r.is_get _ _ d
        (answered-Reads (list_packages r.ecosystem) (list_packages-Reads r.ecosystem) d) refl
  serve_endpoint-read_only package_summaries r d =
      if-tables r.is_get _ _ d
        (paginate-Reads (count_package_summaries r.ecosystem) (list_package_summaries r.ecosystem)
          (parse_page r) (count_package_summaries-Reads r.ecosystem)
          (list_package_summaries-Reads r.ecosystem) d)
        refl
  serve_endpoint-read_only package_cve_alerts r d = if-tables (not r.is_get) _ _ d refl (
      if-tables (is_empty r.ecosystem || is_empty r.name || is_empty r.version) _ _ d refl (
        answered-Reads (list_package_cve_alerts (key_of r))
          (list_package_cve_alerts-Reads (key_of r)) d))
  serve_endpoint-read_only cve_alerts r d =
      if-tables r.is_get _ _ d
        (answered-Reads (list_cve_alerts (parse_since ago d.now r.since) r.ecosystem)
          (list_cve_alerts-Reads (parse_since ago d.now r.since) r.ecosystem) d)
        refl
  serve_endpoint-read_only config r d = refl
