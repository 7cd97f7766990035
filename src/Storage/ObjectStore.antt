-- ===== src/Storage/ObjectStore.antt =====
-- The S3 service and its SDK, which internal/storage/s3.go only calls: the requests with their
-- documented effect, and a bucket in memory that shows that it can be met. A response that is lost
-- after the service has acted is left out.
use cache_proxyfy.Prelude.{
  ℕ, ◌≡◌, refl, inl, inr, Bytes, Bool, true, false, Option, none, some, arith, if◌then◌else◌, eqb,
  length, ◌==◌, Script, fails, later, Result, ok, err, is_ok, Option-cases,
}

-- The errors that the code tells apart: types.NoSuchKey, types.NotFound, and any other.
pub data ApiError : Type 0 where
  no_such_key not_found request_failed : ApiError

unfoldable pub is_not_found : ApiError → Bool
is_not_found no_such_key = true
is_not_found not_found = true
is_not_found request_failed = false

-- `object` is what a bucket holds under a key. The last argument of `put_object` is the
-- Content-Length, if one is given: a body of another length is not accepted.
pub record ObjectStore : Type 1 where
  pub Client : Type 0
  pub head_bucket : Client → Bytes → Result ApiError Unit × Client
  pub get_object : Client → Bytes → Bytes → Result ApiError Bytes × Client
  pub head_object : Client → Bytes → Bytes → Result ApiError Unit × Client
  pub put_object : Client → Bytes → Bytes → Bytes → Option ℕ → Result ApiError Unit × Client
  pub delete_object : Client → Bytes → Bytes → Result ApiError Unit × Client
  pub object : Client → Bytes → Bytes → Option Bytes
  pub get_found : (c : Client) (u k b : Bytes) → (get_object c u k).0 ≡ ok b → object c u k ≡ some b
  pub get_missing :
      (c : Client) (u k : Bytes) (e : ApiError)
      → (get_object c u k).0 ≡ err e
      → is_not_found e ≡ true
      → object c u k ≡ none
  pub get_same : (c : Client) (u k j : Bytes) → object (get_object c u k).1 u j ≡ object c u j
  pub head_found :
      (c : Client) (u k : Bytes)
      → is_ok (head_object c u k).0 ≡ true
      → (b : Bytes) × (object c u k ≡ some b)
  pub head_missing :
      (c : Client) (u k : Bytes) (e : ApiError)
      → (head_object c u k).0 ≡ err e
      → is_not_found e ≡ true
      → object c u k ≡ none
  pub head_same : (c : Client) (u k j : Bytes) → object (head_object c u k).1 u j ≡ object c u j
  pub put_announced :
      (c : Client) (u k b : Bytes) (n : ℕ)
      → is_ok (put_object c u k b (some n)).0 ≡ true
      → n ≡ length b
  pub put_effect :
      (c : Client) (u k b : Bytes) (size : Option ℕ) (j : Bytes)
      → object (put_object c u k b size).1 u j ≡ (
          if is_ok (put_object c u k b size).0
          then (if k == j then some b else object c u j)
          else object c u j)
  pub delete_missing :
      (c : Client) (u k : Bytes) (e : ApiError)
      → (delete_object c u k).0 ≡ err e
      → is_not_found e ≡ true
      → object c u k ≡ none
  pub delete_effect :
      (c : Client) (u k j : Bytes)
      → object (delete_object c u k).1 u j ≡ (
          if is_ok (delete_object c u k).0
          then (if k == j then none else object c u j)
          else object c u j)

-- One bucket in memory, with a script of the requests that fail.
pub record MemoryBucket : Type 0 where
  pub objects : Bytes → Option Bytes
  pub faults : Script

abbrev pub after_request : MemoryBucket → MemoryBucket
after_request m = record m { faults = later m.faults }

abbrev pub answer : {A : Type 0} → (Bytes → A) → Option Bytes → Result ApiError A
answer f none = err not_found
answer f (some b) = ok (f b)

abbrev pub memory_read :
    {A : Type 0} → (Bytes → A) → MemoryBucket → Bytes → Result ApiError A × MemoryBucket
memory_read f m k =
    (if fails m.faults then err request_failed else answer f (m.objects k), after_request m)

abbrev pub fits : Option ℕ → Bytes → Bool
fits none b = true
fits (some n) b = eqb n (length b)

abbrev pub set_object : Bytes → Option Bytes → MemoryBucket → MemoryBucket
set_object k v m = record (after_request m) { objects = λ j. if k == j then v else m.objects j }

abbrev pub memory_put :
    MemoryBucket → Bytes → Bytes → Option ℕ → Result ApiError Unit × MemoryBucket
memory_put m k b size =
    if fails m.faults
    then (err request_failed, after_request m)
    else if fits size b
    then (ok tt, set_object k (some b) m)
    else (err request_failed, after_request m)

abbrev pub memory_delete : MemoryBucket → Bytes → Result ApiError Unit × MemoryBucket
memory_delete m k =
    if fails m.faults then (err request_failed, after_request m) else (ok tt, set_object k none m)

pub read_missing :
    {A : Type 0} (f : Bytes → A) (m : MemoryBucket) (k : Bytes) (e : ApiError)
    → (memory_read f m k).0 ≡ err e
    → is_not_found e ≡ true
    → m.objects k ≡ none
unfolding is_not_found
read_missing f m k e h i = ground (arith, Option-cases (m.objects k))

pub read_found :
    {A : Type 0} (f : Bytes → A) (m : MemoryBucket) (k : Bytes)
    → is_ok (memory_read f m k).0 ≡ true
    → (b : Bytes) × (m.objects k ≡ some b)
read_found f m k h = elim (Option-cases (m.objects k)) [
  | inl q ↦ absurd (ground arith)
  | inr (b, q) ↦ (b, q)
]

pub delete_missing :
    (m : MemoryBucket) (k : Bytes) (e : ApiError)
    → (memory_delete m k).0 ≡ err e
    → is_not_found e ≡ true
    → m.objects k ≡ none
unfolding is_not_found
delete_missing m k e h i = ground arith

pub read_same :
    (m : MemoryBucket) (k b : Bytes) → (memory_read (λ v. v) m k).0 ≡ ok b → m.objects k ≡ some b
read_same m k b h = ground (arith, Option-cases (m.objects k))

pub fits_length :
    (m : MemoryBucket) (k b : Bytes) (n : ℕ)
    → is_ok (memory_put m k b (some n)).0 ≡ true
    → n ≡ length b
fits_length m k b n h = ground arith

pub put_objects :
    (m : MemoryBucket) (k b : Bytes) (size : Option ℕ) (j : Bytes)
    → (memory_put m k b size).1.objects j ≡ (
        if is_ok (memory_put m k b size).0
        then (if k == j then some b else m.objects j)
        else m.objects j)
put_objects m k b size j = ground arith

pub delete_objects :
    (m : MemoryBucket) (k j : Bytes)
    → (memory_delete m k).1.objects j ≡ (
        if is_ok (memory_delete m k).0 then (if k == j then none else m.objects j) else m.objects j)
delete_objects m k j = ground arith

abbrev pub memory_store : ObjectStore
memory_store = record {
  Client = MemoryBucket;
  head_bucket = λ m u. (if fails m.faults then err not_found else ok tt, after_request m);
  get_object = λ m u k. memory_read (λ b. b) m k;
  head_object = λ m u k. memory_read (λ b. tt) m k;
  put_object = λ m u. memory_put m;
  delete_object = λ m u. memory_delete m;
  object = λ m u. m.objects;
  get_found = λ m u. read_same m;
  get_missing = λ m u. read_missing (λ b. b) m;
  get_same = λ m u k j. refl;
  head_found = λ m u. read_found (λ b. tt) m;
  head_missing = λ m u. read_missing (λ b. tt) m;
  head_same = λ m u k j. refl;
  put_announced = λ m u. fits_length m;
  put_effect = λ m u. put_objects m;
  delete_missing = λ m u. delete_missing m;
  delete_effect = λ m u. delete_objects m;
}
