-- ===== src/Storage/Disk.antt =====
-- The file system behind internal/storage/local.go: files by cleaned path, and a script of the calls
-- of package `os` that fail. Directories hold no content and are left out.
use cache_proxyfy.Prelude.{
  ◌≡◌, ◌↔◌, Bytes, Bool, true, false, not, ◌&&◌, Option, none, some, List, [], ◌∷◌, arith,
  if◌then◌else◌, ◌==◌, ==_iff, Result, ok, err, Script, fails, later,
}
use cache_proxyfy.Storage.Backend.{StorageError, not_found, storage_failed}

-- A cleaned path: its components, last one first. Whether it starts at the root is that of the base
-- directory for all paths of a store.
abbrev pub FilePath : Type 0
FilePath = List Bytes

unfoldable pub same_path : FilePath → FilePath → Bool
same_path [] [] = true
same_path [] (_ ∷ _) = false
same_path (_ ∷ _) [] = false
same_path (c ∷ p) (d ∷ q) = (c == d) && same_path p q

pub record Disk : Type 0 where
  pub files : FilePath → Option Bytes
  pub faults : Script

pub same_path_iff : (p q : FilePath) → (same_path p q ≡ true) ↔ (p ≡ q)
unfolding same_path
same_path_iff [] [] = ground arith
same_path_iff [] (d ∷ q) = ground arith
same_path_iff (c ∷ p) [] = ground arith
same_path_iff (c ∷ p) (d ∷ q) = ground (arith, ==_iff c d, same_path_iff p q)

abbrev pub write_file :
    (FilePath → Option Bytes) → FilePath → Option Bytes → FilePath → Option Bytes
write_file files p content q = if same_path p q then content else files q

abbrev used : Disk → Disk
used d = record d { faults = later d.faults }

-- os.Stat, and os.Open for the content: a missing file, another error, or the file.
unfoldable pub stat : Disk → FilePath → Result StorageError Bytes × Disk
stat d p =
    if fails d.faults
    then (err storage_failed, used d)
    else (elim (d.files p) [ none ↦ err not_found | some b ↦ ok b ], used d)

-- A call of which only success matters: os.MkdirAll, Close.
abbrev pub call : Disk → Bool × Disk
call d = (not (fails d.faults), used d)

-- os.Create: an empty file.
abbrev pub create : Disk → FilePath → Bool × Disk
create d p =
    if fails d.faults
    then (false, used d)
    else (true, record (used d) { files = write_file d.files p (some []) })

-- io.Copy into the file: all of the content, or a part of it and an error.
abbrev pub copy : Disk → FilePath → Bytes → Bool × Disk
copy d p content =
    if fails d.faults
    then (false, record (used d) { files = write_file d.files p (some []) })
    else (true, record (used d) { files = write_file d.files p (some content) })

-- os.Remove: a missing file, another error, or success.
unfoldable pub remove : Disk → FilePath → Result StorageError Unit × Disk
remove d p = if fails d.faults then (err storage_failed, used d) else elim (d.files p) [
  | none ↦ (err not_found, used d)
  | some b ↦ (ok tt, record (used d) { files = write_file d.files p none })
]

-- os.Rename
unfoldable pub rename : Disk → FilePath → FilePath → Bool × Disk
rename d from to = if fails d.faults then (false, used d) else (
  true,
  record (used d) { files = write_file (write_file d.files from none) to (d.files from) },
)
