-- ===== src/Db/Expiry.antt =====
-- Which rows the eviction worker is given, and the deletion of a row.
use mathlib.Core.List.{Perm}
use cache_proxyfy.Prelude.{
  ℕ, ◌≤◌, ◌≡◌, refl, Option, ltb, Bool, true, false, not, none, some, List, [], ◌∷◌, arith, select,
  ok, is_ok, subst, eqb, if◌then◌else◌,
}
use cache_proxyfy.Prelude.Sorting.{ascending, IsSorted, order_by, order_by-perm, ascending-IsSorted}
use cache_proxyfy.Db.Schema.{
  Status, cached, blocked, PackageKey, key_eq, key_eq_iff, Package, Database,
}
use cache_proxyfy.Db.Packages.{touch_package, touch_rows, delete_package, find_row}
use cache_proxyfy.Db.Listing.{last_access, is_expired, list_expired_packages}
use cache_proxyfy.Db.Lookup.{row_at}
use cache_proxyfy.Db.Consistency.{IsConsistent, IsTable, has_id}

-- Whether a row with this status, last hit and time of caching is due at a cutoff.
unfoldable pub is_due : ℕ → Status → Option ℕ → ℕ → Bool
is_due cutoff blocked hit_at at = false
is_due cutoff cached (some hit_at) at = ltb hit_at cutoff
is_due cutoff cached none at = ltb at cutoff

abbrev pub due : ℕ → Package → Bool
due cutoff r = is_due cutoff r.status r.last_hit_at r.cached_at

-- The instant by which the rows are listed.
abbrev pub accessed : Package → ℕ
accessed r = elim r.last_hit_at [ none ↦ r.cached_at | some t ↦ t ]

last_access-accessed : (r : Package) → last_access r ≡ accessed r
last_access-accessed r = ground arith

is_expired-due : (cutoff : ℕ) (r : Package) → is_expired cutoff r ≡ due cutoff r
unfolding is_due
is_expired-due cutoff r = ground arith

select-due :
    (cutoff : ℕ) (rs : List Package) → select (is_expired cutoff) rs ≡ select (due cutoff) rs
select-due cutoff [] = refl
select-due cutoff (r ∷ rs) = ground (arith, is_expired-due cutoff r, select-due cutoff rs)

listed :
    (cutoff : ℕ) (d d' : Database) (rs : List Package)
    → list_expired_packages cutoff d ≡ (ok rs, d')
    → order_by (ascending last_access) (select (is_expired cutoff) d.packages) ≡ rs
unfolding list_expired_packages
listed cutoff d d' rs h = ground arith

-- A successful query lists exactly the rows that are cached, not blocked, and whose last hit, or
-- else whose time of caching, lies before the cutoff, each as often as the table has it, from the
-- oldest such instant to the newest.
pub list_expired_packages-exact :
    (cutoff : ℕ) (d d' : Database) (rs : List Package)
    → list_expired_packages cutoff d ≡ (ok rs, d')
    → Perm rs (select (due cutoff) d.packages) × IsSorted (ascending accessed) rs
list_expired_packages-exact cutoff d d' rs h =
    subst (λ qs. Perm qs (select (due cutoff) d.packages) × IsSorted (ascending accessed) qs)
      (listed cutoff d d' rs h)
      (
        subst
            (λ qs.
              Perm (order_by (ascending last_access) (select (is_expired cutoff) d.packages)) qs)
            (select-due cutoff d.packages)
            (order_by-perm (ascending last_access) (select (is_expired cutoff) d.packages)),
        subst
            (λ f.
              IsSorted (ascending f)
                (order_by (ascending last_access) (select (is_expired cutoff) d.packages)))
            (λ i r. last_access-accessed r i)
            (ascending-IsSorted last_access (select (is_expired cutoff) d.packages)),
      )

not-expired-touch_rows :
    (k : PackageKey) (now cutoff : ℕ) (rs : List Package)
    → cutoff ≤ now
    → find_row k (select (is_expired cutoff) (touch_rows k now rs)) ≡ none
unfolding touch_rows find_row
not-expired-touch_rows k now cutoff [] h = refl
not-expired-touch_rows k now cutoff (r ∷ rs) h =
    ground (arith, not-expired-touch_rows k now cutoff rs h)

-- After a successful touch no row of that key is expired for a cutoff that is not in the future.
pub touch_package-not_expired :
    (k : PackageKey) (cutoff : ℕ) (d : Database)
    → cutoff ≤ d.now
    → is_ok (touch_package k d).0 ≡ true
    → find_row k (select (is_expired cutoff) (touch_package k d).1.packages) ≡ none
unfolding touch_package
touch_package-not_expired k cutoff d h good =
    ground (arith, not-expired-touch_rows k d.now cutoff d.packages h)

pub has_id-find_row :
    (k : PackageKey) (rs : List Package) (r : Package)
    → find_row k rs ≡ some r
    → has_id r.id rs ≡ true
unfolding find_row
has_id-find_row k [] r e = cc
has_id-find_row k (q ∷ rs) r e = ground (arith, has_id-find_row k rs r)

abbrev other_id : ℕ → Package → Bool
other_id i q = not (eqb q.id i)

select-no_id : (i : ℕ) (rs : List Package) → has_id i rs ≡ false → select (other_id i) rs ≡ rs
select-no_id i [] h = refl
select-no_id i (q ∷ rs) h = ground (arith, select-no_id i rs)

find_row-delete :
    (next : ℕ) (k j : PackageKey) (rs : List Package) (r : Package)
    → IsTable next rs
    → find_row k rs ≡ some r
    → find_row j (select (other_id r.id) rs) ≡ (if key_eq k j then none else find_row j rs)
unfolding find_row
find_row-delete next k j [] r h e = cc
find_row-delete next k j (q ∷ rs) r h e = ground (
  arith,
  key_eq_iff k j,
  key_eq_iff j q.key,
  key_eq_iff k q.key,
  select-no_id r.id rs,
  has_id-find_row k rs r,
  find_row-delete next k j rs r h.3,
)

-- In a consistent database, deleting a row by its id removes that row's key and no other key; a
-- failed delete removes none.
pub row_at-delete_package :
    (d : Database) (k j : PackageKey) (r : Package)
    → IsConsistent d
    → row_at k d ≡ some r
    → row_at j (delete_package r.id d).1 ≡ (
        if is_ok (delete_package r.id d).0
        then (if key_eq k j then none else row_at j d)
        else row_at j d)
unfolding delete_package
row_at-delete_package d k j r h e = ground (arith, find_row-delete d.next_id k j d.packages r h e)
