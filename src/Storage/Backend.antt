-- ===== src/Storage/Backend.antt =====
-- internal/storage/interface.go: what the proxy and the workers ask of an artifact store, with the
-- laws that they rely on.
use cache_proxyfy.Prelude.{
  ◌≡◌, Bytes, Bool, true, false, Option, none, some, ◌==◌, Result, ok, err, is_ok, ◌⊎◌,
}

pub data StorageError : Type 0 where
  not_found storage_failed : StorageError

-- `valid` tells the artifact names for which the laws hold, and `holds` what is stored under a
-- name. A `put` leaves an artifact that it sees; where it
-- cannot tell whether there is one it may write it again.
pub record StorageBackend : Type 1 where
  pub State : Type 0
  pub name : Bytes
  pub get : State → Bytes → Result StorageError Bytes × State
  pub put : State → Bytes → Bytes → Result StorageError Unit × State
  pub exists : State → Bytes → Result StorageError Bool × State
  pub delete : State → Bytes → Result StorageError Unit × State
  pub valid : Bytes → Bool
  pub holds : State → Bytes → Option Bytes
  pub get_ok : (s : State) (k b : Bytes) → (get s k).0 ≡ ok b → holds s k ≡ some b
  pub get_not_found : (s : State) (k : Bytes) → (get s k).0 ≡ err not_found → holds s k ≡ none
  pub get_holds : (s : State) (k j : Bytes) → holds (get s k).1 j ≡ holds s j
  pub put_new :
      (s : State) (k b : Bytes)
      → valid k ≡ true
      → is_ok (put s k b).0 ≡ true
      → holds s k ≡ none
      → holds (put s k b).1 k ≡ some b
  pub put_old :
      (s : State) (k b v : Bytes)
      → valid k ≡ true
      → is_ok (put s k b).0 ≡ true
      → holds s k ≡ some v
      → (holds (put s k b).1 k ≡ some v) ⊎ (holds (put s k b).1 k ≡ some b)
  pub put_failed :
      (s : State) (k b : Bytes)
      → valid k ≡ true
      → is_ok (put s k b).0 ≡ false
      → holds (put s k b).1 k ≡ holds s k
  pub put_other :
      (s : State) (k b j : Bytes)
      → valid k ≡ true
      → valid j ≡ true
      → (k == j) ≡ false
      → holds (put s k b).1 j ≡ holds s j
  pub delete_ok :
      (s : State) (k : Bytes)
      → valid k ≡ true
      → is_ok (delete s k).0 ≡ true
      → holds (delete s k).1 k ≡ none
  pub delete_failed :
      (s : State) (k : Bytes)
      → valid k ≡ true
      → is_ok (delete s k).0 ≡ false
      → holds (delete s k).1 k ≡ holds s k
  pub delete_other :
      (s : State) (k j : Bytes)
      → valid k ≡ true
      → valid j ≡ true
      → (k == j) ≡ false
      → holds (delete s k).1 j ≡ holds s j
