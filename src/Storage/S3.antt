-- ===== src/Storage/S3.antt =====
-- internal/storage/s3.go, the operations over the service that they are given.
pub mod Keys
pub mod Contents
use cache_proxyfy.Prelude.{
  ℕ, Bytes, Bool, true, false, ◌&&◌, not, ltb, Option, none, some, ◌∷◌, ◌++◌, length, take,
  if◌then◌else◌, ◌==◌, Result, ok, err, is_ok, trim_right, [],
}
use cache_proxyfy.Prelude.Integers.{ℤ, pos, negsuc}
use cache_proxyfy.Storage.Backend.{StorageError, storage_failed}
use cache_proxyfy.Storage.Backend
use cache_proxyfy.Storage.ObjectStore.{ObjectStore, ApiError, is_not_found}

pub record S3Config : Type 0 where
  pub bucket : Bytes
  pub region : Bytes
  pub endpoint : Bytes
  pub key_prefix : Bytes
  pub access_key_id : Bytes
  pub secret_access_key : Bytes

-- The fields of `S3` that never change; its client is the state of the operations.
pub record S3 : Type 0 where
  pub bucket : Bytes
  pub key_prefix : Bytes

-- First two bytes as a directory, then the checksum.
unfoldable pub suffix : Bytes → Bytes
suffix checksum = if ltb (length checksum) 2 then checksum else take 2 checksum ++ b'/' ∷ checksum

unfoldable pub key : S3 → Bytes → Bytes
key s checksum =
    if s.key_prefix == []
    then suffix checksum
    else trim_right b'/' s.key_prefix ++ b'/' ∷ suffix checksum

-- The Content-Length of an upload: none for a negative size.
abbrev pub content_length : ℤ → Option ℕ
content_length (pos n) = some n
content_length (negsuc n) = none

-- The access key and the secret, if both are given.
abbrev pub static_credentials : S3Config → Option (Bytes × Bytes)
static_credentials cfg =
    if not (cfg.access_key_id == []) && not (cfg.secret_access_key == [])
    then some (cfg.access_key_id, cfg.secret_access_key)
    else none

abbrev pub base_endpoint : S3Config → Option Bytes
base_endpoint cfg = if cfg.endpoint == [] then none else some cfg.endpoint

-- Whose error keeps the backend from being created.
pub data S3Error : Type 0 where
  config_failed : S3Error
  bucket_refused : ApiError → S3Error

module _ (store : ObjectStore) where
  -- `connect` is config.LoadDefaultConfig with s3.NewFromConfig: it takes the region, the
  -- credentials and the endpoint.
  unfoldable pub new_s3 :
      (Bytes → Option (Bytes × Bytes) → Option Bytes → store.Client → Option store.Client)
      → S3Config
      → store.Client
      → Result S3Error S3 × store.Client
  new_s3 connect cfg c = elim (connect cfg.region (static_credentials cfg) (base_endpoint cfg) c) [
    | none ↦ (err config_failed, c)
    | some c' ↦
        let (answer, c'') = store.head_bucket c' cfg.bucket in
        (
          elim answer [
            | ok u ↦ ok (record { bucket = cfg.bucket; key_prefix = cfg.key_prefix })
            | err e ↦ err (bucket_refused e)
          ],
          c'',
        )
  ]

module _ (store : ObjectStore) (s : S3) where
  abbrev C : Type 0
  C = store.Client

  abbrev get_error : ApiError → StorageError
  get_error e = if is_not_found e then Backend.not_found else storage_failed

  unfoldable pub get : C → Bytes → Result StorageError Bytes × C
  get c checksum =
      let (out, c') = store.get_object c s.bucket (key s checksum) in
      (elim out [ ok b ↦ ok b | err e ↦ err (get_error e) ], c')

  abbrev exists_error : ApiError → Result StorageError Bool
  exists_error e = if is_not_found e then ok false else err storage_failed

  unfoldable pub exists : C → Bytes → Result StorageError Bool × C
  exists c checksum =
      let (out, c') = store.head_object c s.bucket (key s checksum) in
      (elim out [ ok u ↦ ok true | err e ↦ exists_error e ], c')

  unfoldable pub upload : C → Bytes → Bytes → ℤ → Result StorageError Unit × C
  upload c checksum content size =
      let (out, c') = store.put_object c s.bucket (key s checksum) content (content_length size) in
      (elim out [ ok u ↦ ok tt | err e ↦ err storage_failed ], c')

  unfoldable pub put : C → Bytes → Bytes → ℤ → Result StorageError Unit × C
  put c checksum content size =
      let (there, c') = exists c checksum in
      elim there [
        | ok found ↦ if found then (ok tt, c') else upload c' checksum content size
        | err e ↦ (err e, c')
      ]

  abbrev delete_error : ApiError → Result StorageError Unit
  delete_error e = if is_not_found e then ok tt else err storage_failed

  unfoldable pub delete : C → Bytes → Result StorageError Unit × C
  delete c checksum =
      let (out, c') = store.delete_object c s.bucket (key s checksum) in
      (elim out [ ok u ↦ ok tt | err e ↦ delete_error e ], c')
