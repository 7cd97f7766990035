-- ===== src/Db/Listing.antt =====
-- internal/db/package_store.go, the statements that list rows of `packages`.
use cache_proxyfy.Prelude.{
  ℕ, ◌+◌, Bytes, Bool, true, false, ◌&&◌, Option, none, some, List, [], ◌∷◌, ltb, leb,
  if◌then◌else◌, ◌==◌, length, take, drop, any, select, get_or, Result, ok,
}
use cache_proxyfy.Prelude.Sorting.{ascending, descending, order_by}
use cache_proxyfy.Db.Schema.{Status, cached, blocked, Package, Database, DbError, exec}

abbrev pub is_cached : Status → Bool
is_cached cached = true
is_cached blocked = false

abbrev pub is_blocked : Status → Bool
is_blocked cached = false
is_blocked blocked = true

-- WHERE ecosystem = $1, or no condition where the argument is empty.
abbrev pub in_ecosystem : Bytes → Package → Bool
in_ecosystem [] r = true
in_ecosystem (c ∷ e) r = r.ecosystem == (c ∷ e)

-- WHERE ecosystem = $1 AND name = $2
abbrev pub is_named : Bytes → Bytes → Package → Bool
is_named ecosystem name r = (r.ecosystem == ecosystem) && (r.name == name)

abbrev pub most_recent_first : List Package → List Package
most_recent_first = order_by (descending (λ (r : Package). r.cached_at))

unfoldable pub list_versions :
    Bytes → Bytes → ℕ → ℕ → Database → Result DbError (List Package) × Database
list_versions ecosystem name limit offset = exec λ d. (
  ok (take limit (drop offset (most_recent_first (select (is_named ecosystem name) d.packages)))),
  d,
)

unfoldable pub count_versions : Bytes → Bytes → Database → Result DbError ℕ × Database
count_versions ecosystem name =
    exec (λ d. (ok (length (select (is_named ecosystem name) d.packages)), d))

unfoldable pub list_packages : Bytes → Database → Result DbError (List Package) × Database
list_packages ecosystem =
    exec (λ d. (ok (most_recent_first (select (in_ecosystem ecosystem) d.packages)), d))

-- COALESCE(last_hit_at, cached_at)
abbrev pub last_access : Package → ℕ
last_access r = get_or r.last_hit_at r.cached_at

-- WHERE status = 'cached' AND COALESCE(last_hit_at, cached_at) < $1
abbrev pub is_expired : ℕ → Package → Bool
is_expired older_than r = is_cached r.status && ltb (last_access r) older_than

unfoldable pub list_expired_packages : ℕ → Database → Result DbError (List Package) × Database
list_expired_packages older_than =
    exec λ d. (ok (order_by (ascending last_access) (select (is_expired older_than) d.packages)), d)

-- One group of GROUP BY ecosystem, name.
abbrev pub same_name : Package → Package → Bool
same_name a b = is_named a.ecosystem a.name b

-- One row of each group: the last one in the table.
unfoldable pub groups : List Package → List Package
groups [] = []
groups (r ∷ rs) = let rest = groups rs in if any (same_name r) rs then rest else r ∷ rest

pub record PackageSummary : Type 0 where
  pub ecosystem : Bytes
  pub name : Bytes
  pub latest_version : Option Bytes
  pub version_count : ℕ
  pub total_size_bytes : ℕ
  pub last_cached_at : ℕ
  pub last_hit_at : Option ℕ
  pub has_blocked : Bool

abbrev pub sum_sizes : List Package → ℕ
sum_sizes [] = 0
sum_sizes (r ∷ rs) = r.size_bytes + sum_sizes rs

-- MAX over numbers, with 0 for no row.
abbrev pub max_cached_at : List Package → ℕ
max_cached_at [] = 0
max_cached_at (r ∷ rs) = let m = max_cached_at rs in if leb r.cached_at m then m else r.cached_at

-- MAX skips NULLs.
abbrev pub later_of : Option ℕ → Option ℕ → Option ℕ
later_of none b = b
later_of (some a) none = some a
later_of (some a) (some b) = if leb a b then some b else some a

abbrev pub max_last_hit_at : List Package → Option ℕ
max_last_hit_at [] = none
max_last_hit_at (r ∷ rs) = later_of r.last_hit_at (max_last_hit_at rs)

abbrev pub first_version : List Package → Option Bytes
first_version [] = none
first_version (r ∷ rs) = some r.version

-- The summary of the group of `r` among the selected rows; the subquery for the latest version
-- goes through the whole table.
unfoldable pub summarize : List Package → List Package → Package → PackageSummary
summarize table rows r =
    let group = select (same_name r) rows in
    record {
      ecosystem = r.ecosystem;
      name = r.name;
      latest_version = first_version (most_recent_first (select (same_name r) table));
      version_count = length group;
      total_size_bytes = sum_sizes group;
      last_cached_at = max_cached_at group;
      last_hit_at = max_last_hit_at group;
      has_blocked = any (λ q. is_blocked q.status) group;
    }

abbrev pub summaries : (Package → PackageSummary) → List Package → List PackageSummary
summaries f [] = []
summaries f (r ∷ rs) = f r ∷ summaries f rs

unfoldable pub count_package_summaries : Bytes → Database → Result DbError ℕ × Database
count_package_summaries ecosystem =
    exec (λ d. (ok (length (groups (select (in_ecosystem ecosystem) d.packages))), d))

-- All summaries, before LIMIT and OFFSET.
abbrev pub all_summaries : Bytes → List Package → List PackageSummary
all_summaries ecosystem table =
    let rows = select (in_ecosystem ecosystem) table in
    order_by (descending (λ (s : PackageSummary). s.last_cached_at))
      (summaries (summarize table rows) (groups rows))

unfoldable pub list_package_summaries :
    Bytes → ℕ → ℕ → Database → Result DbError (List PackageSummary) × Database
list_package_summaries ecosystem limit offset =
    exec (λ d. (ok (take limit (drop offset (all_summaries ecosystem d.packages))), d))
