-- ===== src/Migration/Switch.antt =====
-- The migration tool and the proxy that is switched to S3 with the same configuration.
use cache_proxyfy.Prelude.{
  ℕ, ◌≡◌, ◌≢◌, sym, ap, subst, ◌∙◌, Bytes, true, false, List, [], ◌∷◌, any, arith, ◌==◌, Bool-cases,
  Option-cases, Result-cases, inl, inr, Option, some, ok, err,
}
use cache_proxyfy.Config.{Config}
use cache_proxyfy.Db.Connection.{dsn}
use cache_proxyfy.Db.Schema.{Package, Database}
use cache_proxyfy.Db.Listing.{list_packages}
use cache_proxyfy.Storage.Backend.{StorageBackend}
use cache_proxyfy.Storage.Backend
use cache_proxyfy.Storage.ObjectStore.{ObjectStore}
use cache_proxyfy.Storage.S3.{S3, S3Config, new_s3, static_credentials, base_endpoint, get}
use cache_proxyfy.Storage.S3.Contents.{get_not_found}
use cache_proxyfy.Migration.{Entry, collect}
use cache_proxyfy.Migration.Work.{is_cached_as}
use cache_proxyfy.Migration.Pool.{Job, P, Run, start, HasEnded}
use cache_proxyfy.Migration.Start.{
  Surroundings, Ready, connect_s3, build_stores, list_work, prepare, summary,
}
use cache_proxyfy.Migration.Copies.{is_some, object}
use cache_proxyfy.Migration.Complete.{Run-migrated}

-- The backend that a configuration stands for.
abbrev target_of : S3Config → S3
target_of cfg = record { bucket = cfg.bucket; key_prefix = cfg.key_prefix }

new_s3-target :
    (store : ObjectStore)
    (connect : Bytes → Option (Bytes × Bytes) → Option Bytes → store.Client → Option store.Client)
    (cfg : S3Config) (c : store.Client) (s : S3)
    → (new_s3 store connect cfg c).0 ≡ ok s
    → s ≡ target_of cfg
unfolding new_s3
new_s3-target store connect cfg c s h =
    elim (Option-cases (connect cfg.region (static_credentials cfg) (base_endpoint cfg) c)) [
      | inl e ↦ absurd (ground arith)
      | inr (c', e) ↦ elim (Result-cases (store.head_bucket c' cfg.bucket).0) [
        | inl (u, q) ↦ ground arith
        | inr (x, q) ↦ absurd (ground arith)
      ]
    ]

module _ (Rate : Type 0) (store : ObjectStore) (source : StorageBackend)
    (around : Surroundings store source) (cfg : Config Rate) (workers : ℕ) where
  connect_s3-Ready :
      (es : List Entry) (d : source.State) (r : Ready store source)
      → connect_s3 Rate store source around cfg false workers es d ≡ ok (some r)
      → (r.job ≡ record { dry_run = false; workers = workers; target = target_of cfg.s3 })
        × (r.entries ≡ es)
  unfolding connect_s3
  connect_s3-Ready es d r h =
      elim (Result-cases (new_s3 store around.connect cfg.s3 around.service).0) [
        | inl (s, q) ↦ ground (arith, new_s3-target store around.connect cfg.s3 around.service s q)
        | inr (e, q) ↦ absurd (ground arith)
      ]

  build_stores-Ready :
      (es : List Entry) (r : Ready store source)
      → build_stores Rate store source around cfg false workers es ≡ ok (some r)
      → (r.job ≡ record { dry_run = false; workers = workers; target = target_of cfg.s3 })
        × (r.entries ≡ es)
  unfolding build_stores
  build_stores-Ready [] r h = absurd (ground arith)
  build_stores-Ready (e ∷ es) r h = elim (Option-cases (around.new_local cfg.cache.local_dir)) [
    | inl q ↦ absurd (ground arith)
    | inr (d, q) ↦ connect_s3-Ready (e ∷ es) d r (ground arith)
  ]

  list_work-Ready :
      (db : Database) (rs : List Package) (r : Ready store source)
      → (list_packages [] db).0 ≡ ok rs
      → list_work Rate store source around cfg false workers db ≡ ok (some r)
      → (r.job ≡ record { dry_run = false; workers = workers; target = target_of cfg.s3 })
        × (r.entries ≡ collect [] rs)
  unfolding list_work
  list_work-Ready db rs r q h = build_stores-Ready (collect [] rs) r (ground (arith, q, h))

  -- The work of a tool that gets as far as its worker pool: the entries of the listed packages, to be
  -- copied to the configured bucket and prefix.
  prepare-Ready :
      (db : Database) (rs : List Package) (r : Ready store source)
      → around.open_db (dsn cfg.database) ≡ some db
      → (list_packages [] db).0 ≡ ok rs
      → prepare Rate store source around cfg false workers ≡ ok (some r)
      → (r.job ≡ record { dry_run = false; workers = workers; target = target_of cfg.s3 })
        × (r.entries ≡ collect [] rs)
  unfolding prepare
  prepare-Ready db rs r o q h = elim (Bool-cases (cfg.s3.bucket == [])) [
    | inl e ↦ absurd (ground arith)
    | inr e ↦ list_work-Ready db rs r q (ground (arith, o, e, h))
  ]

  -- The switch loses nothing: when the tool, started with a configuration, has run to its end and
  -- reports success, an S3 backend of the same configuration never answers "not found" for an
  -- artifact of a cached package that the local store had.
  pub switch-found :
      (db : Database) (rs : List Package) (r : Ready store source)
      → around.open_db (dsn cfg.database) ≡ some db
      → (list_packages [] db).0 ≡ ok rs
      → prepare Rate store source around cfg false workers ≡ ok (some r)
      → {n : ℕ} {p : P store source r.job}
      → Run store source r.job n (start store source r.job r.entries r.client r.disk) p
      → HasEnded store source r.job p
      → summary store source r.job p ≡ ok tt
      → (k : Bytes) → any (is_cached_as k) rs ≡ true
      → is_some (source.holds r.disk k) ≡ true
      → (s : S3) (c : store.Client) → (new_s3 store around.connect cfg.s3 c).0 ≡ ok s
      → (get store s p.client k).0 ≢ err Backend.not_found
  switch-found db rs r o q h {n = n} {p = p} run ended won k wanted there s c made missing =
      absurd (
        ground (
          arith,
          in_bucket,
          get_not_found store r.job.target p.client k
              (subst (λ t. (get store t p.client k).0 ≡ err Backend.not_found) same missing),
        ))
    where
      ready :
          (r.job ≡ record { dry_run = false; workers = workers; target = target_of cfg.s3 })
          × (r.entries ≡ collect [] rs)
      ready = prepare-Ready db rs r o q h

      same : s ≡ r.job.target
      same =
          new_s3-target store around.connect cfg.s3 c s made
          ∙ sym (ap (λ (j : Job). j.target) ready.0)

      in_bucket : is_some (object store source r.job p k) ≡ true
      in_bucket =
          Run-migrated store source r.job rs r.client r.disk (ap (λ (j : Job). j.dry_run) ready.0)
            (subst (λ es. Run store source r.job n (start store source r.job es r.client r.disk) p)
              ready.1 run)
            ended won k wanted there
