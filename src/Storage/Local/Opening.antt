-- ===== src/Storage/Local/Opening.antt =====
-- internal/storage/local.go, `NewLocal`: what opening the store does to the artifacts.
use mathlib.Core.List.{reverse_aux}
use cache_proxyfy.Prelude.{
  ℕ, ◌+◌, ◌≡◌, ◌≤◌, ap, Bytes, true, false, List, [], ◌∷◌, length, take, split, arith, Bool-cases,
  inl, inr, ◌==◌,
}
use cache_proxyfy.Storage.Disk.{FilePath, Disk, same_path, same_path_iff, remove}
use cache_proxyfy.Storage.Paths.{
  Local, path, base_path, enter, enter_all, is_valid_name, path-valid,
}
use cache_proxyfy.Storage.Local.{local_at, probe_path, probe, new_local}

length-reverse_aux :
    (cs : List Bytes) (p : FilePath) → length (reverse_aux cs p) ≡ length cs + length p
length-reverse_aux [] p = omega arith
length-reverse_aux (c ∷ cs) p = omega (arith, length-reverse_aux cs (c ∷ p))

length-probe_path : (l : Local) → length (probe_path l) ≡ length (base_path l) + 1
unfolding enter_all enter ◌==◌
length-probe_path l = ground arith

length-split : (c : ℕ) (s : Bytes) → 1 ≤ length (split c s)
unfolding split
length-split c [] = omega arith
length-split c (x ∷ s) = ground (arith, length-split c s)

-- The file that `NewLocal` tries to write is no artifact's.
path-ne-probe_path :
    (l : Local) (k : Bytes) → is_valid_name k ≡ true → same_path (probe_path l) (path l k) ≡ false
path-ne-probe_path l k v = elim (Bool-cases (same_path (probe_path l) (path l k))) [
  | inl e ↦ absurd (
      omega (
        arith,
        ap length ((same_path_iff (probe_path l) (path l k)).0 e),
        ap length (path-valid l k v),
        length-reverse_aux (split b'/' k) (take 2 k ∷ base_path l),
        length-probe_path l,
        length-split b'/' k,
      ))
  | inr e ↦ e
]

-- Opening a local store, whether it succeeds or fails on the way, changes no artifact.
pub new_local-files :
    (d : Disk) (dir k : Bytes)
    → is_valid_name k ≡ true
    → (new_local d dir).1.files (path (local_at dir) k) ≡ d.files (path (local_at dir) k)
unfolding new_local probe remove
new_local-files d dir k v = ground (arith, path-ne-probe_path (local_at dir) k v)
