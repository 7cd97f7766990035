-- ===== src/Storage/Local/Contents.antt =====
-- internal/storage/local.go as a storage backend.
use cache_proxyfy.Prelude.{
  ◌≡◌, ◌⊎◌, ap, Bytes, codes, true, false, none, some, arith, if◌then◌else◌, ◌==◌, ==_iff, Result,
  ok, err, is_ok, later,
}
use cache_proxyfy.Storage.Backend.{StorageBackend, StorageError, not_found}
use cache_proxyfy.Storage.Disk.{FilePath, Disk, same_path, same_path_iff, stat, remove, rename}
use cache_proxyfy.Storage.Paths.{
  Local, path, tmp_path, is_valid_name, path_injective, path-ne-tmp_path,
}
use cache_proxyfy.Storage.Local.{get, put, write, fill, finalise, exists, delete}

abbrev pub Wrote :
    Disk → FilePath → FilePath → Bytes → Result StorageError Unit × Disk → FilePath → Type 0
Wrote d tmp target content r q =
    (if is_ok r.0
      then r.1.files q ≡ (if same_path target q then some content else d.files q)
      else (r.1.files q ≡ d.files q))

-- Away from the temporary file, a write that succeeds puts the content at the target and changes
-- nothing else, and one that fails changes nothing.
write-Wrote :
    (l : Local) (d : Disk) (tmp target : FilePath) (content : Bytes) (q : FilePath)
    → same_path tmp q ≡ false
    → same_path tmp target ≡ false
    → Wrote d tmp target content (write l d tmp target content) q
unfolding write fill finalise stat remove rename
write-Wrote l d tmp target content q h k =
    ground (arith, same_path_iff tmp tmp, same_path_iff target q, same_path_iff tmp q)

module _ (l : Local) where
  same_path-path :
      (k j : Bytes)
      → is_valid_name k ≡ true
      → is_valid_name j ≡ true
      → same_path (path l k) (path l j) ≡ (k == j)
  same_path-path k j vk vj = ground (
    arith,
    same_path_iff (path l k) (path l j),
    ==_iff k j,
    path_injective l k j vk vj,
    ap (path l) {x = k} {y = j},
  )

  not_tmp :
      (k : Bytes) (p : FilePath)
      → is_valid_name k ≡ true
      → same_path (tmp_path l.rooted p) (path l k) ≡ false
  not_tmp k p v = ground (
    arith,
    same_path_iff (tmp_path l.rooted p) (path l k),
    λ (e : path l k ≡ tmp_path l.rooted p). path-ne-tmp_path l k p v e,
  )

  pub get_ok : (d : Disk) (k b : Bytes) → (get l d k).0 ≡ ok b → d.files (path l k) ≡ some b
  unfolding get stat
  get_ok d k b h = ground arith

  pub get_not_found :
      (d : Disk) (k : Bytes) → (get l d k).0 ≡ err not_found → d.files (path l k) ≡ none
  unfolding get stat
  get_not_found d k h = ground arith

  pub get_holds : (d : Disk) (k j : Bytes) → (get l d k).1.files (path l j) ≡ d.files (path l j)
  unfolding get stat
  get_holds d k j = ground arith

  pub put_new :
      (d : Disk) (k b : Bytes)
      → is_valid_name k ≡ true
      → is_ok (put l d k b).0 ≡ true
      → d.files (path l k) ≡ none
      → (put l d k b).1.files (path l k) ≡ some b
  unfolding put stat
  put_new d k b vk h e = ground (
    arith,
    same_path_iff (path l k) (path l k),
    write-Wrote l (record d { faults = later d.faults }) (tmp_path l.rooted (path l k)) (path l k) b
        (path l k) (not_tmp k (path l k) vk) (not_tmp k (path l k) vk),
  )

  pub put_old :
      (d : Disk) (k b v : Bytes)
      → is_valid_name k ≡ true
      → is_ok (put l d k b).0 ≡ true
      → d.files (path l k) ≡ some v
      → ((put l d k b).1.files (path l k) ≡ some v) ⊎ ((put l d k b).1.files (path l k) ≡ some b)
  unfolding put stat
  put_old d k b v vk h e = ground (
    arith,
    same_path_iff (path l k) (path l k),
    write-Wrote l (record d { faults = later d.faults }) (tmp_path l.rooted (path l k)) (path l k) b
        (path l k) (not_tmp k (path l k) vk) (not_tmp k (path l k) vk),
  )

  pub put_failed :
      (d : Disk) (k b : Bytes)
      → is_valid_name k ≡ true
      → is_ok (put l d k b).0 ≡ false
      → (put l d k b).1.files (path l k) ≡ d.files (path l k)
  unfolding put stat
  put_failed d k b vk h = ground (
    arith,
    write-Wrote l (record d { faults = later d.faults }) (tmp_path l.rooted (path l k)) (path l k) b
        (path l k) (not_tmp k (path l k) vk) (not_tmp k (path l k) vk),
  )

  pub put_other :
      (d : Disk) (k b j : Bytes)
      → is_valid_name k ≡ true
      → is_valid_name j ≡ true
      → (k == j) ≡ false
      → (put l d k b).1.files (path l j) ≡ d.files (path l j)
  unfolding put stat
  put_other d k b j vk vj h = ground (
    arith,
    same_path-path k j vk vj,
    write-Wrote l (record d { faults = later d.faults }) (tmp_path l.rooted (path l k)) (path l k) b
        (path l j) (not_tmp j (path l k) vj) (not_tmp k (path l k) vk),
  )

  pub delete_ok :
      (d : Disk) (k : Bytes)
      → is_ok (delete l d k).0 ≡ true
      → (delete l d k).1.files (path l k) ≡ none
  unfolding delete remove
  delete_ok d k h = ground (arith, same_path_iff (path l k) (path l k))

  pub delete_failed :
      (d : Disk) (k : Bytes)
      → is_ok (delete l d k).0 ≡ false
      → (delete l d k).1.files (path l k) ≡ d.files (path l k)
  unfolding delete remove
  delete_failed d k h = ground arith

  pub delete_other :
      (d : Disk) (k j : Bytes)
      → is_valid_name k ≡ true
      → is_valid_name j ≡ true
      → (k == j) ≡ false
      → (delete l d k).1.files (path l j) ≡ d.files (path l j)
  unfolding delete remove
  delete_other d k j vk vj h = ground (arith, same_path-path k j vk vj)

-- The local backend: a store of artifacts by name, for the names that are valid.
abbrev pub local_backend : Local → StorageBackend
local_backend l = record {
  State = Disk;
  name = codes "local";
  get = get l;
  put = put l;
  exists = exists l;
  delete = delete l;
  valid = is_valid_name;
  holds = λ d k. d.files (path l k);
  get_ok = get_ok l;
  get_not_found = get_not_found l;
  get_holds = get_holds l;
  put_new = put_new l;
  put_old = put_old l;
  put_failed = put_failed l;
  put_other = put_other l;
  delete_ok = λ d k v. delete_ok l d k;
  delete_failed = λ d k v. delete_failed l d k;
  delete_other = delete_other l;
}
