-- ===== src/Cache/Contents.antt =====
-- What the client's calls tell of, and do to, the cached checksums.
use cache_proxyfy.Prelude.{
  ◌≡◌, ◌∙◌, ◌⊎◌, inl, inr, sym, subst, ◌==◌, ==_iff, Bool-cases, ==_refl, Bytes, true, none, some,
  arith, ok, err, is_ok,
}
use cache_proxyfy.Db.Schema.{PackageKey}
use cache_proxyfy.Cache.Redis.{Redis}
use cache_proxyfy.Cache.Client.{Client, cache_miss, key, get, set, delete, cached}

module _ (redis : Redis) where
  pub get-ok :
      (c : Client redis) (k : PackageKey) (v : Bytes)
      → (get redis c k).0 ≡ ok v
      → cached redis c k ≡ some v
  unfolding get
  get-ok c k v h = redis.get_value c.conn (key k) v (ground arith)

  pub get-miss :
      (c : Client redis) (k : PackageKey)
      → (get redis c k).0 ≡ err cache_miss
      → cached redis c k ≡ none
  unfolding get
  get-miss c k h = redis.get_nil c.conn (key k) (ground arith)

  pub cached-get :
      (c : Client redis) (k j : PackageKey) → cached redis (get redis c k).1 j ≡ cached redis c j
  unfolding get
  cached-get c k j = redis.get_stored c.conn (key k) (key j)

  pub cached-set :
      (c : Client redis) (k : PackageKey) (v : Bytes)
      → is_ok (set redis c k v).0 ≡ true
      → cached redis (set redis c k v).1 k ≡ some v
  unfolding set
  cached-set c k v h =
      redis.set_stored c.conn (key k) v c.ttl (key k) (ground arith) ∙ rw (==_refl (key k))

  pub cached-delete :
      (c : Client redis) (k : PackageKey)
      → is_ok (delete redis c k).0 ≡ true
      → cached redis (delete redis c k).1 k ≡ none
  unfolding delete
  cached-delete c k h =
      redis.del_stored c.conn (key k) (key k) (ground arith) ∙ rw (==_refl (key k))

  -- A SET adds nothing but its value under its key, whether or not it succeeds.
  pub cached-set_either :
      (c : Client redis) (k j : PackageKey) (v x : Bytes)
      → cached redis (set redis c k v).1 j ≡ some x
      → ((key k ≡ key j) × (x ≡ v)) ⊎ (cached redis c j ≡ some x)
  unfolding set
  cached-set_either c k j v x h = elim (Bool-cases (key k == key j)) [
    | inl same ↦
        let q : key k ≡ key j = (==_iff (key k) (key j)).0 same in
        elim (redis.set_same c.conn (key k) v c.ttl x
          (subst (λ y. redis.stored (redis.set c.conn (key k) v c.ttl).1 y ≡ some x) (sym q) h)) [
            | inl e ↦ inl (q, e)
            | inr e ↦ inr (subst (λ y. redis.stored c.conn y ≡ some x) q e)
          ]
    | inr other ↦ inr (sym (redis.set_other c.conn (key k) v c.ttl (key j) other) ∙ h)
  ]
