-- ===== src/Db/Rows.antt =====
-- Lookups of rows by key after each change of the table.
use cache_proxyfy.Prelude.{
  ℕ, ◌≡◌, refl, true, Option, none, some, List, [], ◌∷◌, arith, if◌then◌else◌,
}
use cache_proxyfy.Db.Schema.{PackageKey, key_eq, key_eq_iff, Package}
use cache_proxyfy.Db.Packages.{upsert, find_row, touch_rows}

pub key_eq_refl : (k : PackageKey) → key_eq k k ≡ true
key_eq_refl k = (key_eq_iff k k).1 refl

pub find_row-key :
    (k : PackageKey) (rs : List Package) (r : Package) → find_row k rs ≡ some r → r.key ≡ k
unfolding find_row
find_row-key k [] r h = cc
find_row-key k (q ∷ rs) r h = ground (arith, key_eq_iff k q.key, find_row-key k rs r)

-- The row that an upsert leaves at its key.
abbrev pub merged : Package → (Package → Package) → Option Package → Package
merged new change none = new
merged new change (some r) = change r

pub find_row-upsert :
    (k : PackageKey) (new : Package) (change : Package → Package) (rs : List Package)
    → ((r : Package) → (change r).key ≡ r.key)
    → find_row k (upsert new change rs)
      ≡ (if key_eq k new.key then some (merged new change (find_row k rs)) else find_row k rs)
unfolding find_row upsert
find_row-upsert k new change [] keeps = refl
find_row-upsert k new change (r ∷ rs) keeps = ground (
  arith,
  keeps r,
  key_eq_iff k new.key,
  key_eq_iff new.key r.key,
  key_eq_iff k r.key,
  key_eq_iff k (change r).key,
  find_row-upsert k new change rs keeps,
)

abbrev pub touched : ℕ → Package → Package
touched now r = record r { last_hit_at = some now }

abbrev pub map_row : (Package → Package) → Option Package → Option Package
map_row f none = none
map_row f (some r) = some (f r)

pub find_row-touch_rows :
    (k j : PackageKey) (now : ℕ) (rs : List Package)
    → find_row k (touch_rows j now rs)
      ≡ (if key_eq j k then map_row (touched now) (find_row k rs) else find_row k rs)
unfolding find_row touch_rows
find_row-touch_rows k j now [] = ground arith
find_row-touch_rows k j now (r ∷ rs) =
    ground (
      arith,
      key_eq_iff j k,
      key_eq_iff j r.key,
      key_eq_iff k r.key,
      find_row-touch_rows k j now rs,
    )
