-- ===== src/Eviction/Removal.antt =====
-- What the eviction of one package leaves behind.
use cache_proxyfy.Prelude.{
  ◌≡◌, inl, inr, true, none, some, arith, if◌then◌else◌, is_ok, Result-cases,
}
use cache_proxyfy.Db.Schema.{PackageKey, key_eq, Package}
use cache_proxyfy.Db.Lookup.{row_at}
use cache_proxyfy.Db.Consistency.{IsConsistent}
use cache_proxyfy.Db.Expiry.{row_at-delete_package}
use cache_proxyfy.Cache.Redis.{Redis}
use cache_proxyfy.Cache.Client
use cache_proxyfy.Cache.Contents.{cached-delete}
use cache_proxyfy.Db.Rows.{key_eq_refl}
use cache_proxyfy.Storage.Backend.{StorageBackend}
use cache_proxyfy.Eviction.{H, evict_row, evict_key, evict_one}

module _ (redis : Redis) (backend : StorageBackend) where
  -- Where the store deletes the artifact, it is gone; in a consistent database the row is gone too
  -- and no other key's row is touched when the eviction succeeds, and no row is touched when it
  -- fails.
  pub evict_one-deleted :
      (r : Package) (s : H redis backend) (j : PackageKey)
      → backend.valid r.checksum ≡ true
      → is_ok (backend.delete s.store r.checksum).0 ≡ true
      → IsConsistent s.db
      → row_at r.key s.db ≡ some r
      → (backend.holds (evict_one redis backend r s).1.store r.checksum ≡ none)
        × (row_at j (evict_one redis backend r s).1.db ≡ (
            if is_ok (evict_one redis backend r s).0
            then (if key_eq r.key j then none else row_at j s.db)
            else row_at j s.db))
  unfolding evict_one evict_row evict_key
  evict_one-deleted r s j v e c at = elim (Result-cases (backend.delete s.store r.checksum).0) [
    | inl (u, q) ↦
        rw (q, evict_one)
          (
            backend.delete_ok s.store r.checksum v e,
            ground (arith, row_at-delete_package s.db r.key j r c at),
          )
    | inr (x, q) ↦ absurd (ground arith)
  ]

  -- After an eviction that succeeded, and whose Redis call succeeded too, nothing leads to the
  -- artifact: the store holds nothing under its checksum, Redis has no key and the table no row for
  -- the package.
  pub evict_one-forgotten :
      (r : Package) (s : H redis backend)
      → backend.valid r.checksum ≡ true
      → is_ok (evict_one redis backend r s).0 ≡ true
      → is_ok (Client.delete redis s.cache r.key).0 ≡ true
      → IsConsistent s.db
      → row_at r.key s.db ≡ some r
      → (backend.holds (evict_one redis backend r s).1.store r.checksum ≡ none)
        × (Client.cached redis (evict_one redis backend r s).1.cache r.key ≡ none)
        × (row_at r.key (evict_one redis backend r s).1.db ≡ none)
  unfolding evict_one evict_row evict_key
  evict_one-forgotten r s v done e c at =
      elim (Result-cases (backend.delete s.store r.checksum).0) [
        | inl (u, q) ↦
            rw (q, evict_one)
              (
                backend.delete_ok s.store r.checksum v (ground arith),
                cached-delete redis s.cache r.key e,
                ground
                    (arith, key_eq_refl r.key, row_at-delete_package s.db r.key r.key r c at, done),
              )
        | inr (x, q) ↦ absurd (ground arith)
      ]
