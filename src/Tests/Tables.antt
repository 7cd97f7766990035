-- ===== src/Tests/Tables.antt =====
-- Statements on small tables, the eviction of their rows, and pages of them.
use mathlib.Core.List.{Perm}
use cache_proxyfy.Prelude.{
  ok, ◌≡◌, refl, codes, true, none, some, [], ◌∷◌, arith, ◌==◌, free_of, has_suffix, split,
}
use cache_proxyfy.Prelude.Sorting.{ascending, IsSorted, order_by}
use cache_proxyfy.Db.Schema.{Database, key_eq, cached}
use cache_proxyfy.Db.Packages.{NewPackage, upsert_package, delete_package, find_row}
use cache_proxyfy.Db.Lookup.{row_at, row_at-upsert_package}
use cache_proxyfy.Db.Consistency.{IsConsistent, start, next, upserts, migrated, Reach-IsConsistent}
use cache_proxyfy.Db.Expiry.{is_due, list_expired_packages-exact}
use cache_proxyfy.Db.Listing.{last_access, list_expired_packages}
use cache_proxyfy.Cache.Redis.{memory_redis, memory_write}
use cache_proxyfy.Cache.Client
use cache_proxyfy.Storage.Paths.{is_valid_name, path, enter, enter_all, parent}
use cache_proxyfy.Storage.Disk.{remove}
use cache_proxyfy.Storage.Local
use cache_proxyfy.Eviction.{Holdings, evict_one, evict_row, evict_key}
use cache_proxyfy.Eviction.Removal.{evict_one-forgotten}
use cache_proxyfy.Api.{Request}
use cache_proxyfy.Tests.Data.{lodash_key, local, full_disk, one_row, cached_row, blocked_row}

abbrev lodash_row : NewPackage
lodash_row = record { key = lodash_key; checksum = codes "ccdd"; size_bytes = 5 }

row_at-upsert_package_example :
    ((upsert_package lodash_row (one_row blocked_row)).0 ≡ ok (codes "ccdd"))
    × (row_at lodash_key (upsert_package lodash_row (one_row blocked_row)).1
        ≡ some (record blocked_row { status = cached; checksum = codes "ccdd"; size_bytes = 5 }))
unfolding upsert_package find_row key_eq ◌==◌
row_at-upsert_package_example = row_at-upsert_package lodash_row (one_row blocked_row) lodash_key

list_expired_packages-exact_example :
    Perm (cached_row ∷ []) (cached_row ∷ []) × IsSorted (ascending last_access) (cached_row ∷ [])
unfolding list_expired_packages order_by is_due
list_expired_packages-exact_example =
    list_expired_packages-exact 50 (one_row cached_row) (one_row cached_row) (cached_row ∷ []) refl

-- The database after a miss was indexed.
abbrev indexed_once : Database
indexed_once = (upsert_package lodash_row (migrated [])).1

Reach-IsConsistent_example : IsConsistent indexed_once
Reach-IsConsistent_example =
    Reach-IsConsistent {faults = []} {d = indexed_once} (next start (upserts lodash_row))

abbrev kept : Holdings memory_redis local
kept = record {
  db = one_row cached_row;
  cache = record { conn = record { slots = λ k. some (codes "aabb"); faults = [] }; ttl = 0 };
  store = full_disk;
}

-- The next call of the file system fails.
abbrev broken : Holdings memory_redis local
broken = record kept { store = record full_disk { faults = true ∷ [] } }

evict_one-forgotten_example :
    (local.holds (evict_one memory_redis local cached_row kept).1.store (codes "aabb") ≡ none)
    × (Client.cached memory_redis (evict_one memory_redis local cached_row kept).1.cache lodash_key
        ≡ none)
    × (row_at lodash_key (evict_one memory_redis local cached_row kept).1.db ≡ none)
unfolding evict_one evict_row evict_key Local.delete remove delete_package is_valid_name find_row
    key_eq ◌==◌ path enter enter_all parent free_of has_suffix split Client.delete memory_write
evict_one-forgotten_example =
    evict_one-forgotten memory_redis local cached_row kept refl refl refl
      (refl, refl, (omega arith, refl), tt) refl

abbrev first_page : Request
first_page = record {
  is_get = true;
  ecosystem = codes "npm";
  name = codes "lodash";
  version = [];
  page = codes "1";
  page_size = codes "500";
  since = [];
}
