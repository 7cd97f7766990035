-- ===== src/Proxy/Serve/Outcomes.antt =====
-- What a request is answered with, on every path of `serve`.
use cache_proxyfy.Prelude.{ℕ, ◌≡◌, refl, ◌⊎◌, inl, inr, Bytes, some, arith, take, ok, Result-cases}
use cache_proxyfy.Db.Schema.{PackageKey, Status, cached, blocked, Database, exec, DbError}
use cache_proxyfy.Db.Schema
use cache_proxyfy.Db.Packages.{get_package}
use cache_proxyfy.Db.Lookup.{row_at}
use cache_proxyfy.Cache.Redis.{Redis}
use cache_proxyfy.Cache.Client
use cache_proxyfy.Cache.Contents.{get-ok}
use cache_proxyfy.Storage.Backend.{StorageBackend}
use cache_proxyfy.RateLimit.{RateLibrary}
use cache_proxyfy.Proxy.Serve.{
  Artifact, located, W, open_artifact, lookup_cache, lookup_row, lookup_db,
}

module _ (redis : Redis) (backend : StorageBackend) (rate : RateLibrary) where
  -- The store holds the artifact that was opened, and the same artifacts as before.
  pub open_artifact-holds :
      (s : Bytes) (w : W redis backend rate) (b : Bytes)
      → (open_artifact redis backend rate s w).0 ≡ some b
      → backend.holds w.store s ≡ some b
  unfolding open_artifact
  open_artifact-holds s w b h = backend.get_ok w.store s b (ground arith)

  pub lookup_cache-found :
      (k : PackageKey) (w : W redis backend rate) (b : Bytes)
      → (lookup_cache redis backend rate k w).0 ≡ some b
      → (s : Bytes) × (Client.cached redis w.cache k ≡ some s) × (backend.holds w.store s ≡ some b)
  unfolding lookup_cache
  lookup_cache-found k w b h = elim (Result-cases (Client.get redis w.cache k).0) [
    | inl (s, e) ↦ (
      s,
      get-ok redis w.cache k s e,
      open_artifact-holds s (record w { cache = (Client.get redis w.cache k).1 }) b (ground arith),
    )
    | inr (e, q) ↦ absurd (ground arith)
  ]

  -- Lookups leave what the store holds as it is.
  abbrev pub SameStore : W redis backend rate → W redis backend rate → Type 0
  SameStore w w' = (j : Bytes) → backend.holds w'.store j ≡ backend.holds w.store j

  pub open_artifact-SameStore :
      (s : Bytes) (w : W redis backend rate) → SameStore w (open_artifact redis backend rate s w).1
  unfolding open_artifact
  open_artifact-SameStore s w j = backend.get_holds w.store s j

  pub lookup_cache-SameStore :
      (k : PackageKey) (w : W redis backend rate)
      → SameStore w (lookup_cache redis backend rate k w).1
  unfolding lookup_cache
  lookup_cache-SameStore k w j = elim (Result-cases (Client.get redis w.cache k).0) [
    | inl (s, e) ↦
        rw (e, lookup_cache)
          (open_artifact-SameStore s (record w { cache = (Client.get redis w.cache k).1 }) j)
    | inr (e, q) ↦ rw (q, lookup_cache) refl
  ]

  pub lookup_cache-db :
      (k : PackageKey) (w : W redis backend rate)
      → (lookup_cache redis backend rate k w).1.db ≡ w.db
  unfolding lookup_cache open_artifact
  lookup_cache-db k w = elim (Result-cases (Client.get redis w.cache k).0) [
    | inl (s, e) ↦ rw (e, lookup_cache) refl
    | inr (e, q) ↦ rw (q, lookup_cache) refl
  ]

  pub lookup_cache-tasks :
      (k : PackageKey) (w : W redis backend rate)
      → (lookup_cache redis backend rate k w).1.tasks ≡ w.tasks
  unfolding lookup_cache open_artifact
  lookup_cache-tasks k w = elim (Result-cases (Client.get redis w.cache k).0) [
    | inl (s, e) ↦ rw (e, lookup_cache) refl
    | inr (e, q) ↦ rw (q, lookup_cache) refl
  ]

  lookup_row-tasks :
      (r : Schema.Package) (w : W redis backend rate)
      → (lookup_row redis backend rate r w).1.tasks ≡ w.tasks
  unfolding lookup_row open_artifact
  lookup_row-tasks r w = ground arith

  pub lookup_db-tasks :
      (k : PackageKey) (w : W redis backend rate)
      → (lookup_db redis backend rate k w).1.tasks ≡ w.tasks
  unfolding lookup_db
  lookup_db-tasks k w = elim (Result-cases (get_package k w.db).0) [
    | inl (r, e) ↦ rw (e, lookup_db) (lookup_row-tasks r (record w { db = (get_package k w.db).1 }))
    | inr (e, q) ↦ rw (q, lookup_db) refl
  ]

  lookup_row-SameStore :
      (r : Schema.Package) (w : W redis backend rate)
      → SameStore w (lookup_row redis backend rate r w).1
  unfolding lookup_row
  lookup_row-SameStore r w j = ground (arith, open_artifact-SameStore r.checksum w j)

  pub lookup_db-SameStore :
      (k : PackageKey) (w : W redis backend rate) → SameStore w (lookup_db redis backend rate k w).1
  unfolding lookup_db
  lookup_db-SameStore k w j = elim (Result-cases (get_package k w.db).0) [
    | inl (r, e) ↦
        rw (e, lookup_db) (lookup_row-SameStore r (record w { db = (get_package k w.db).1 }) j)
    | inr (e, q) ↦ rw (q, lookup_db) refl
  ]

  -- A row that says that a checksum belongs to a package.
  pub record HasRow (k : PackageKey) (s : Bytes) (d : Database) : Type 0 where
    pub row : Schema.Package
    pub at_key : row_at k d ≡ some row
    pub is_cached : row.status ≡ cached
    pub has_checksum : row.checksum ≡ s

  pub get_package-row :
      (k : PackageKey) (d : Database) (r : Schema.Package)
      → (get_package k d).0 ≡ ok r
      → row_at k d ≡ some r
  unfolding get_package
  get_package-row k d r h = ground arith

  lookup_row-located :
      (k : PackageKey) (r : Schema.Package) (w : W redis backend rate) (s b : Bytes)
      → (lookup_row redis backend rate r w).0 ≡ located s b
      → (r.status ≡ cached) × (r.checksum ≡ s) × (backend.holds w.store s ≡ some b)
  unfolding lookup_row
  lookup_row-located k r w s b h =
      let parts : (r.status ≡ cached)
          × (r.checksum ≡ s)
          × ((open_artifact redis backend rate r.checksum w).0 ≡ some b) =
        ground arith in
      (parts.0, parts.1, rw (← parts.1) (open_artifact-holds r.checksum w b parts.2))

  pub lookup_db-located :
      (k : PackageKey) (w : W redis backend rate) (s b : Bytes)
      → (lookup_db redis backend rate k w).0 ≡ located s b
      → HasRow k s w.db × (backend.holds w.store s ≡ some b)
  unfolding lookup_db
  lookup_db-located k w s b h = elim (Result-cases (get_package k w.db).0) [
    | inl (r, e) ↦
        let w₁ : W redis backend rate = record w { db = (get_package k w.db).1 } in
        let (c, s', held) = lookup_row-located k r w₁ s b (ground arith) in
        (
          record { row = r; at_key = get_package-row k w.db r e; is_cached = c; has_checksum = s' },
          held,
        )
    | inr (e, q) ↦ absurd (ground arith)
  ]

  -- Redis or a cached row gives the checksum for the package.
  abbrev pub IsIndexed : PackageKey → Bytes → W redis backend rate → Type 0
  IsIndexed k s w = (Client.cached redis w.cache k ≡ some s) ⊎ HasRow k s w.db

  -- A hit: the artifact that the store held under a checksum that Redis or a cached row gives for
  -- the package, as far as the client took it.
  pub record IsHit (k : PackageKey) (w : W redis backend rate) (n : ℕ) (a : Artifact) : Type 0 where
    pub checksum : Bytes
    pub content : Bytes
    pub held : backend.holds w.store checksum ≡ some content
    pub indexed : IsIndexed k checksum w
    pub sent : a.body ≡ take n content
