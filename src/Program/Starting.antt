-- ===== src/Program/Starting.antt =====
-- The start of the program.
use cache_proxyfy.Prelude.{
  ◌≡◌, sym, ◌∙◌, refl, subst, codes, Option, none, some, Result, ok, err, arith, Bool-cases, inl,
  inr, ==_iff, ◌==◌,
}
use cache_proxyfy.Cache.Redis.{Redis}
use cache_proxyfy.Storage.ObjectStore.{ObjectStore}
use cache_proxyfy.RateLimit.{RateLibrary}
use cache_proxyfy.Config.{Config}
use cache_proxyfy.Storage.S3.{S3, S3Error, new_s3}
use cache_proxyfy.Storage.Disk.{Disk}
use cache_proxyfy.Storage.Paths.{Local}
use cache_proxyfy.Storage.Local.{new_local}
use cache_proxyfy.Program.{
  StartError, Outside, Chosen, backend_of, local_or, chosen_or, build_storage,
}

module _ (redis : Redis) (store : ObjectStore) (rate : RateLibrary)
    (out : Outside redis store rate) where
  open rate use {Rate}

  same_ok : {a b : Chosen store} → ◌≡◌ {A = Result StartError (Chosen store)} (ok a) (ok b) → a ≡ b
  same_ok h = cc h

  local_or-name :
      (p : Option Local × Disk) (b : Chosen store)
      → local_or redis store rate out p ≡ ok b
      → (backend_of store b).name ≡ codes "local"
  local_or-name (some l, d) b h =
      subst (λ b. (backend_of store b).name ≡ codes "local") (same_ok h) refl
  local_or-name (none, d) b h = absurd (ground arith)

  chosen_or-name :
      (p : Result S3Error S3 × store.Client) (b : Chosen store)
      → chosen_or redis store rate out p ≡ ok b
      → (backend_of store b).name ≡ codes "s3"
  chosen_or-name (ok s, c) b h =
      subst (λ b. (backend_of store b).name ≡ codes "s3") (same_ok h) refl
  chosen_or-name (err e, c) b h = absurd (ground arith)

  -- The backend that is built is the one that the configuration names.
  pub build_storage-name :
      (cfg : Config Rate) (b : Chosen store)
      → build_storage redis store rate out cfg ≡ ok b
      → (backend_of store b).name ≡ cfg.cache.backend
  unfolding build_storage
  build_storage-name cfg b h = elim (Bool-cases (cfg.cache.backend == codes "local")) [
    | inl e ↦
        local_or-name (new_local out.disk cfg.cache.local_dir) b (ground (arith, e, h))
        ∙ sym ((==_iff cfg.cache.backend (codes "local")).0 e)
    | inr n ↦ elim (Bool-cases (cfg.cache.backend == codes "s3")) [
      | inl e ↦
          chosen_or-name (new_s3 store out.connect cfg.s3 out.service) b (ground (arith, n, e, h))
          ∙ sym ((==_iff cfg.cache.backend (codes "s3")).0 e)
      | inr m ↦ absurd (ground arith)
    ]
  ]
