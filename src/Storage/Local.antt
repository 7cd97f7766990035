-- ===== src/Storage/Local.antt =====
-- internal/storage/local.go, the operations, each over the file system that it is given.
pub mod Contents
pub mod Opening
use cache_proxyfy.Prelude.{
  Bytes, codes, Bool, true, false, Option, none, some, List, [], ◌∷◌, split, has_prefix,
  if◌then◌else◌, Result, ok, err, is_ok,
}
use cache_proxyfy.Storage.Backend.{StorageError, not_found, storage_failed}
use cache_proxyfy.Storage.Disk.{FilePath, Disk, stat, call, create, copy, remove, rename}
use cache_proxyfy.Storage.Paths.{Local, path, tmp_path, base_path, enter_all}

-- The base directory of a path.
unfoldable pub local_at : Bytes → Local
local_at dir = record { rooted = has_prefix dir (codes "/"); base = split b'/' dir }

abbrev pub probe_path : Local → FilePath
probe_path l = enter_all l.rooted (base_path l) (codes ".write-probe" ∷ [])

-- The removal of the probe may fail.
unfoldable pub probe : Local → Disk → Option Local × Disk
probe l d =
    let (written, d') = create d (probe_path l) in
    if written then (some l, (remove d' (probe_path l)).1) else (none, d')

-- `NewLocal`; none where the directory cannot be made or written.
unfoldable pub new_local : Disk → Bytes → Option Local × Disk
new_local d dir = let (made, d') = call d in if made then probe (local_at dir) d' else (none, d')

module _ (l : Local) where
  -- An open file, of which the caller reads the content.
  unfoldable pub get : Disk → Bytes → Result StorageError Bytes × Disk
  get d checksum = stat d (path l checksum)

  -- os.Remove(tmp), whose result is dropped, and the error.
  abbrev fail : Disk → FilePath → Result StorageError Unit × Disk
  fail d tmp = (err storage_failed, (remove d tmp).1)

  -- From os.Rename on.
  unfoldable pub finalise : Disk → FilePath → FilePath → Result StorageError Unit × Disk
  finalise d tmp target =
      let (renamed, d') = rename d tmp target in if renamed then (ok tt, d') else fail d' tmp

  -- From io.Copy on: write, close, rename.
  unfoldable pub fill : Disk → FilePath → FilePath → Bytes → Result StorageError Unit × Disk
  fill d tmp target content =
      let (copied, d₁) = copy d tmp content in
      if copied
      then (let (closed, d₂) = call d₁ in if closed then finalise d₂ tmp target else fail d₂ tmp)
      else fail d₁ tmp

  -- From os.MkdirAll on.
  unfoldable pub write : Disk → FilePath → FilePath → Bytes → Result StorageError Unit × Disk
  write d tmp target content =
      let (made, d₁) = call d in
      if made
      then (let (created, d₂) = create d₁ tmp in
          if created then fill d₂ tmp target content else (err storage_failed, d₂))
      else (err storage_failed, d₁)

  -- An artifact that is there is not written again.
  unfoldable pub put : Disk → Bytes → Bytes → Result StorageError Unit × Disk
  put d checksum content =
      let target = path l checksum in
      let (found, d₁) = stat d target in
      if is_ok found then (ok tt, d₁) else write d₁ (tmp_path l.rooted target) target content

  unfoldable pub exists : Disk → Bytes → Result StorageError Bool × Disk
  exists d checksum =
      let (found, d₁) = stat d (path l checksum) in
      (
        elim found [
          | ok b ↦ ok true
          | err e ↦ elim e [ not_found ↦ ok false | storage_failed ↦ err storage_failed ]
        ],
        d₁,
      )

  -- A missing file is not an error.
  unfoldable pub delete : Disk → Bytes → Result StorageError Unit × Disk
  delete d checksum =
      let (removed, d₁) = remove d (path l checksum) in
      (
        elim removed [
          | ok u ↦ ok u
          | err e ↦ elim e [ not_found ↦ ok tt | storage_failed ↦ err storage_failed ]
        ],
        d₁,
      )
