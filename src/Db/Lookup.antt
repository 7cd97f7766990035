-- ===== src/Db/Lookup.antt =====
-- What a lookup finds after each statement on single rows.
use cache_proxyfy.Prelude.{◌≡◌, refl, Option, none, some, [], arith, if◌then◌else◌, is_ok, ok, err}
use cache_proxyfy.Db.Schema.{PackageKey, key_eq, cached, blocked, Package, Database, query_failed}
use cache_proxyfy.Db.Packages.{
  NewPackage, inserted, updated, upsert_package, upsert_blocked_package, find_row, touch_package,
}
use cache_proxyfy.Db.Rows.{find_row-upsert, find_row-touch_rows, merged, map_row, touched}

-- The row at a key, read off the table.
abbrev pub row_at : PackageKey → Database → Option Package
row_at k d = find_row k d.packages

-- The row of an artifact that was indexed, column by column: a new one has the next id and the
-- present as its time, an old one keeps its id, its time and its last hit.
abbrev pub indexed_row : NewPackage → Database → Option Package → Package
indexed_row pkg d none = record {
  id = d.next_id;
  key = pkg.key;
  status = cached;
  checksum = pkg.checksum;
  size_bytes = pkg.size_bytes;
  cached_at = d.now;
  last_hit_at = none;
}
indexed_row pkg d (some r) = record {
  id = r.id;
  key = r.key;
  status = cached;
  checksum = pkg.checksum;
  size_bytes = pkg.size_bytes;
  cached_at = r.cached_at;
  last_hit_at = r.last_hit_at;
}

indexed_row-merged :
    (pkg : NewPackage) (d : Database) (o : Option Package)
    → merged
        (inserted d pkg.key cached pkg.checksum pkg.size_bytes)
        (updated cached pkg.checksum pkg.size_bytes)
        o
      ≡ indexed_row pkg d o
indexed_row-merged pkg d none = refl
indexed_row-merged pkg d (some r) = refl

-- An upsert that succeeds returns the checksum that was passed, leaves at its key a cached row with
-- that checksum and size, which is new (the next id, cached now, never hit) or has the id, the time
-- and the last hit of the row that was there, and changes no other key; one that fails changes no
-- key.
pub row_at-upsert_package :
    (pkg : NewPackage) (d : Database) (k : PackageKey)
    → ((upsert_package pkg d).0
        ≡ (if is_ok (upsert_package pkg d).0 then ok pkg.checksum else err query_failed))
      × (row_at k (upsert_package pkg d).1 ≡ (
          if is_ok (upsert_package pkg d).0
          then (if key_eq k pkg.key then some (indexed_row pkg d (row_at k d)) else row_at k d)
          else row_at k d))
unfolding upsert_package
row_at-upsert_package pkg d k = ground (
  indexed_row-merged pkg d (row_at k d),
  arith,
  find_row-upsert k (inserted d pkg.key cached pkg.checksum pkg.size_bytes)
      (updated cached pkg.checksum pkg.size_bytes) d.packages (λ r. refl),
)

-- A successful blocking upsert leaves a blocked row without checksum and size at its key, and
-- changes no other key; a failed one changes no key.
pub row_at-upsert_blocked_package :
    (j : PackageKey) (d : Database) (k : PackageKey)
    → row_at k (upsert_blocked_package j d).1 ≡ (
        if is_ok (upsert_blocked_package j d).0
        then (if key_eq k j
            then some (merged (inserted d j blocked [] 0) (updated blocked [] 0) (row_at k d))
            else row_at k d)
        else row_at k d)
unfolding upsert_blocked_package
row_at-upsert_blocked_package j d k = ground (
  arith,
  find_row-upsert k (inserted d j blocked [] 0) (updated blocked [] 0) d.packages (λ r. refl),
)

-- A successful touch sets the last hit of the row at its key to the clock, and nothing else.
pub row_at-touch_package :
    (j : PackageKey) (d : Database) (k : PackageKey)
    → row_at k (touch_package j d).1 ≡ (
        if is_ok (touch_package j d).0
        then (if key_eq j k then map_row (touched d.now) (row_at k d) else row_at k d)
        else row_at k d)
unfolding touch_package
row_at-touch_package j d k = ground (arith, find_row-touch_rows k j d.now d.packages)
