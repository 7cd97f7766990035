-- ===== src/Config/Load/Values.antt =====
-- internal/config/config.go: which values the loaded configuration has.
use cache_proxyfy.Prelude.{
  ◌≡◌, inl, inr, refl, ◌∙◌, Bytes, codes, none, some, [], arith, ◌==◌, ok, Option-cases,
}
use cache_proxyfy.Config.{RedisConfig, Config}
use cache_proxyfy.Storage.S3.{S3Config}
use cache_proxyfy.Config.Viper.{default_of, variable_of, Viper}
use cache_proxyfy.Config.Load.{calls, text_at, s3_at, redis_at, unmarshal, load}

module _ (Rate : Type 0) (viper : Viper Rate) where
  -- A key without a default that the file does not have has no value, whatever the environment is.
  pub value-unknown :
      (k : Bytes)
      → default_of (calls Rate viper) k ≡ none
      → viper.file (calls Rate viper) k ≡ none
      → viper.value (calls Rate viper) k ≡ none
  value-unknown k d f = elim (Option-cases (viper.env (variable_of (calls Rate viper) k))) [
    | inl e ↦ viper.value_lem (calls Rate viper) k ∙ rw (e, f, d) refl
    | inr (x, e) ↦ viper.value_lem (calls Rate viper) k ∙ rw (e, f, d) refl
  ]

  pub text_at-unknown :
      (k : Bytes)
      → default_of (calls Rate viper) k ≡ none
      → viper.file (calls Rate viper) k ≡ none
      → text_at Rate viper k ≡ some []
  unfolding text_at
  text_at-unknown k d f = rw (value-unknown k d f)

  s3_at-unknown :
      (c : S3Config)
      → text_at Rate viper (codes "s3.bucket") ≡ some []
      → text_at Rate viper (codes "s3.access_key_id") ≡ some []
      → text_at Rate viper (codes "s3.secret_access_key") ≡ some []
      → s3_at Rate viper ≡ some c
      → (c.bucket ≡ []) × (c.access_key_id ≡ []) × (c.secret_access_key ≡ [])
  unfolding s3_at
  s3_at-unknown c b a s h = ground arith

  redis_at-unknown :
      (c : RedisConfig)
      → text_at Rate viper (codes "redis.password") ≡ some []
      → redis_at Rate viper ≡ some c
      → c.password ≡ []
  unfolding redis_at
  redis_at-unknown c b h = ground arith

  unmarshal-parts :
      (c : Config Rate)
      → unmarshal Rate viper ≡ some c
      → (s3_at Rate viper ≡ some c.s3) × (redis_at Rate viper ≡ some c.redis)
  unfolding unmarshal
  unmarshal-parts c h = ground arith

  load-unmarshal : (c : Config Rate) → load Rate viper ≡ ok c → unmarshal Rate viper ≡ some c
  unfolding load
  load-unmarshal c h = ground arith

  -- Where the file has none of these keys, a configuration that loads has no S3 bucket, no S3
  -- credentials and no Redis password, whatever the environment holds: variables do not set them.
  pub load-unlisted :
      (c : Config Rate)
      → load Rate viper ≡ ok c
      → viper.file (calls Rate viper) (codes "s3.bucket") ≡ none
      → viper.file (calls Rate viper) (codes "s3.access_key_id") ≡ none
      → viper.file (calls Rate viper) (codes "s3.secret_access_key") ≡ none
      → viper.file (calls Rate viper) (codes "redis.password") ≡ none
      → (c.s3.bucket ≡ [])
        × (c.s3.access_key_id ≡ [])
        × (c.s3.secret_access_key ≡ [])
        × (c.redis.password ≡ [])
  unfolding calls ◌==◌
  load-unlisted c h b a s q =
      let (s3, redis) = unmarshal-parts c (load-unmarshal c h) in
      let (no_bucket, no_id, no_secret) =
        s3_at-unknown c.s3 (text_at-unknown (codes "s3.bucket") refl b)
          (text_at-unknown (codes "s3.access_key_id") refl a)
          (text_at-unknown (codes "s3.secret_access_key") refl s) s3 in
      (
        no_bucket,
        no_id,
        no_secret,
        redis_at-unknown c.redis (text_at-unknown (codes "redis.password") refl q) redis,
      )
