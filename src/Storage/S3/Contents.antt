-- ===== src/Storage/S3/Contents.antt =====
-- internal/storage/s3.go as a storage backend, for all artifact names.
use cache_proxyfy.Prelude.{
  ℕ, ◌≡◌, ◌⊎◌, ap, refl, Bytes, codes, true, false, none, some, arith, if◌then◌else◌, ◌==◌, ==_iff,
  ok, err, is_ok, length, inl, inr, Result-cases, get_or, ◌&&◌,
}
use cache_proxyfy.Prelude.Integers.{ℤ, pos}
use cache_proxyfy.Storage.Backend.{StorageBackend, StorageError, storage_failed}
use cache_proxyfy.Storage.Backend
use cache_proxyfy.Storage.ObjectStore.{ObjectStore}
use cache_proxyfy.Storage.S3.{S3, key, content_length, get, exists, put, upload, delete}
use cache_proxyfy.Storage.S3.Keys.{object_key_injective}

module _ (store : ObjectStore) (s : S3) where
  same_key : (k j : Bytes) → (key s k == key s j) ≡ (k == j)
  same_key k j = ground (
    arith,
    ==_iff (key s k) (key s j),
    ==_iff k j,
    object_key_injective s k j,
    ap (key s) {x = k} {y = j},
  )

  pub get_ok :
      (c : store.Client) (k b : Bytes)
      → (get store s c k).0 ≡ ok b
      → store.object c s.bucket (key s k) ≡ some b
  unfolding get
  get_ok c k b h = elim (Result-cases (store.get_object c s.bucket (key s k)).0) [
    | inl (v, q) ↦ ground (arith, store.get_found c s.bucket (key s k) v q)
    | inr (e, q) ↦ absurd (ground arith)
  ]

  pub get_not_found :
      (c : store.Client) (k : Bytes)
      → (get store s c k).0 ≡ err Backend.not_found
      → store.object c s.bucket (key s k) ≡ none
  unfolding get
  get_not_found c k h = elim (Result-cases (store.get_object c s.bucket (key s k)).0) [
    | inl (v, q) ↦ absurd (ground arith)
    | inr (e, q) ↦ store.get_missing c s.bucket (key s k) e q (ground arith)
  ]

  pub get_holds :
      (c : store.Client) (k j : Bytes)
      → store.object (get store s c k).1 s.bucket (key s j) ≡ store.object c s.bucket (key s j)
  unfolding get
  get_holds c k j = store.get_same c s.bucket (key s k) (key s j)

  pub upload_effect :
      (c : store.Client) (k b : Bytes) (n : ℤ) (j : Bytes)
      → store.object (upload store s c k b n).1 s.bucket (key s j) ≡ (
          if is_ok (upload store s c k b n).0
          then (if k == j then some b else store.object c s.bucket (key s j))
          else store.object c s.bucket (key s j))
  unfolding upload
  upload_effect c k b n j =
      elim (Result-cases (store.put_object c s.bucket (key s k) b (content_length n)).0) [
        | inl (u, q) ↦ ground (
          arith,
          same_key k j,
          store.put_effect c s.bucket (key s k) b (content_length n) (key s j),
        )
        | inr (e, q) ↦ ground (
          arith,
          same_key k j,
          store.put_effect c s.bucket (key s k) b (content_length n) (key s j),
        )
      ]

  pub exists_same :
      (c : store.Client) (k j : Bytes)
      → store.object (exists store s c k).1 s.bucket (key s j) ≡ store.object c s.bucket (key s j)
  unfolding exists
  exists_same c k j = store.head_same c s.bucket (key s k) (key s j)

  pub exists_yes :
      (c : store.Client) (k : Bytes)
      → (exists store s c k).0 ≡ ok true
      → (v : Bytes) × (store.object c s.bucket (key s k) ≡ some v)
  unfolding exists
  exists_yes c k h = elim (Result-cases (store.head_object c s.bucket (key s k)).0) [
    | inl (u, q) ↦ store.head_found c s.bucket (key s k) (rw q refl)
    | inr (e, q) ↦ absurd (ground arith)
  ]

  pub exists_no :
      (c : store.Client) (k : Bytes)
      → (exists store s c k).0 ≡ ok false
      → store.object c s.bucket (key s k) ≡ none
  unfolding exists
  exists_no c k h = elim (Result-cases (store.head_object c s.bucket (key s k)).0) [
    | inl (u, q) ↦ absurd (ground arith)
    | inr (e, q) ↦ store.head_missing c s.bucket (key s k) e q (ground arith)
  ]

  -- What a `put` does to the objects: nothing where it fails or finds the artifact, and otherwise it
  -- stores the content and nothing else.
  pub s3_put_effect :
      (c : store.Client) (k b : Bytes) (n : ℤ) (j : Bytes)
      → store.object (put store s c k b n).1 s.bucket (key s j) ≡ (
          if is_ok (put store s c k b n).0 && (k == j)
          then some (get_or (store.object c s.bucket (key s k)) b)
          else store.object c s.bucket (key s j))
  unfolding put
  s3_put_effect c k b n j = elim (Result-cases (exists store s c k).0) [
    | inl (true, q) ↦
        let (v, at) = exists_yes c k q in ground (arith, exists_same c k j, ==_iff k j)
    | inl (false, q) ↦
        ground
          (arith, exists_no c k q, exists_same c k j, upload_effect (exists store s c k).1 k b n j)
    | inr (e, q) ↦ ground (arith, exists_same c k j)
  ]

  delete_effect :
      (c : store.Client) (k j : Bytes)
      → store.object (delete store s c k).1 s.bucket (key s j) ≡ (
          if is_ok (delete store s c k).0 && (k == j)
          then none
          else store.object c s.bucket (key s j))
  unfolding delete
  delete_effect c k j = elim (Result-cases (store.delete_object c s.bucket (key s k)).0) [
    | inl (u, q) ↦ ground (arith, same_key k j, store.delete_effect c s.bucket (key s k) (key s j))
    | inr (e, q) ↦ ground (
      arith,
      same_key k j,
      ==_iff k j,
      store.delete_missing c s.bucket (key s k) e q,
      store.delete_effect c s.bucket (key s k) (key s j),
    )
  ]

  -- A `put` of a new artifact succeeds only with the size of its content.
  pub put-announced :
      (c : store.Client) (k b : Bytes) (n : ℕ)
      → is_ok (put store s c k b (pos n)).0 ≡ true
      → store.object c s.bucket (key s k) ≡ none
      → n ≡ length b
  unfolding put upload
  put-announced c k b n h absent = elim (Result-cases (exists store s c k).0) [
    | inl (true, q) ↦ let (v, at) = exists_yes c k q in absurd (ground arith)
    | inl (false, q) ↦
        elim (Result-cases
          (store.put_object (exists store s c k).1 s.bucket (key s k) b (some n)).0) [
            | inl (u, q') ↦
                store.put_announced (exists store s c k).1 s.bucket (key s k) b n (rw q' refl)
            | inr (e, q') ↦ absurd (ground arith)
          ]
    | inr (e, q) ↦ absurd (ground arith)
  ]

  pub put_new :
      (c : store.Client) (k b : Bytes)
      → is_ok (put store s c k b (pos (length b))).0 ≡ true
      → store.object c s.bucket (key s k) ≡ none
      → store.object (put store s c k b (pos (length b))).1 s.bucket (key s k) ≡ some b
  put_new c k b h e = ground (arith, ==_iff k k, s3_put_effect c k b (pos (length b)) k)

  pub put_old :
      (c : store.Client) (k b v : Bytes)
      → is_ok (put store s c k b (pos (length b))).0 ≡ true
      → store.object c s.bucket (key s k) ≡ some v
      → (store.object (put store s c k b (pos (length b))).1 s.bucket (key s k) ≡ some v)
        ⊎ (store.object (put store s c k b (pos (length b))).1 s.bucket (key s k) ≡ some b)
  put_old c k b v h e = inl (ground (arith, ==_iff k k, s3_put_effect c k b (pos (length b)) k))

  pub put_failed :
      (c : store.Client) (k b : Bytes)
      → is_ok (put store s c k b (pos (length b))).0 ≡ false
      → store.object (put store s c k b (pos (length b))).1 s.bucket (key s k)
        ≡ store.object c s.bucket (key s k)
  put_failed c k b h = ground (arith, s3_put_effect c k b (pos (length b)) k)

  pub put_other :
      (c : store.Client) (k b j : Bytes)
      → (k == j) ≡ false
      → store.object (put store s c k b (pos (length b))).1 s.bucket (key s j)
        ≡ store.object c s.bucket (key s j)
  put_other c k b j h = ground (arith, s3_put_effect c k b (pos (length b)) j)

  pub delete_ok :
      (c : store.Client) (k : Bytes)
      → is_ok (delete store s c k).0 ≡ true
      → store.object (delete store s c k).1 s.bucket (key s k) ≡ none
  delete_ok c k h = ground (arith, ==_iff k k, delete_effect c k k)

  pub delete_failed :
      (c : store.Client) (k : Bytes)
      → is_ok (delete store s c k).0 ≡ false
      → store.object (delete store s c k).1 s.bucket (key s k) ≡ store.object c s.bucket (key s k)
  delete_failed c k h = ground (arith, delete_effect c k k)

  pub delete_other :
      (c : store.Client) (k j : Bytes)
      → (k == j) ≡ false
      → store.object (delete store s c k).1 s.bucket (key s j) ≡ store.object c s.bucket (key s j)
  delete_other c k j h = ground (arith, delete_effect c k j)

  -- The S3 backend: every name is a valid one, and a `put` announces the length of its content.
  abbrev pub s3_backend : StorageBackend
  s3_backend = record {
    State = store.Client;
    name = codes "s3";
    get = get store s;
    put = λ c k b. put store s c k b (pos (length b));
    exists = exists store s;
    delete = delete store s;
    valid = λ k. true;
    holds = λ c k. store.object c s.bucket (key s k);
    get_ok = get_ok;
    get_not_found = get_not_found;
    get_holds = get_holds;
    put_new = λ c k b v. put_new c k b;
    put_old = λ c k b v w. put_old c k b v;
    put_failed = λ c k b v. put_failed c k b;
    put_other = λ c k b j v w. put_other c k b j;
    delete_ok = λ c k v. delete_ok c k;
    delete_failed = λ c k v. delete_failed c k;
    delete_other = λ c k j v w. delete_other c k j;
  }
