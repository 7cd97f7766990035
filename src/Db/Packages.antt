-- ===== src/Db/Packages.antt =====
-- internal/db/package_store.go, the statements on single rows of `packages`.
use cache_proxyfy.Prelude.{
  ℕ, ◌+◌, Bytes, Bool, not, Option, none, some, List, [], ◌∷◌, eqb, if◌then◌else◌, select, Result,
  ok, err,
}
use cache_proxyfy.Db.Schema.{
  PackageKey, key_eq, Status, cached, blocked, Package, Database, DbError, not_found, exec,
}

-- What `UpsertPackage` reads of its argument.
pub record NewPackage : Type 0 where
  pub key : PackageKey
  pub checksum : Bytes
  pub size_bytes : ℕ

-- WHERE ecosystem = $1 AND name = $2 AND version = $3
abbrev pub has_key : PackageKey → Package → Bool
has_key k r = key_eq k r.key

-- INSERT … ON CONFLICT (ecosystem, name, version) DO UPDATE
unfoldable pub upsert : Package → (Package → Package) → List Package → List Package
upsert new change [] = new ∷ []
upsert new change (r ∷ rs) = if has_key new.key r then change r ∷ rs else r ∷ upsert new change rs

-- A fresh row: the columns that the statement leaves to their defaults.
abbrev pub inserted : Database → PackageKey → Status → Bytes → ℕ → Package
inserted d k status checksum size = record {
  id = d.next_id;
  key = k;
  status = status;
  checksum = checksum;
  size_bytes = size;
  cached_at = d.now;
  last_hit_at = none;
}

-- DO UPDATE SET checksum, size_bytes, status; the other columns stay.
abbrev pub updated : Status → Bytes → ℕ → Package → Package
updated status checksum size r = record r {
  status = status;
  checksum = checksum;
  size_bytes = size;
}

-- The statement of both upserts. The sequence of the ids advances on a conflict too.
abbrev pub upsert_row : PackageKey → Status → Bytes → ℕ → Database → Database
upsert_row k status checksum size d = record d {
  packages = upsert (inserted d k status checksum size) (updated status checksum size) d.packages;
  next_id = d.next_id + 1;
}

unfoldable pub upsert_package : NewPackage → Database → Result DbError Bytes × Database
upsert_package pkg =
    exec (λ d. (ok pkg.checksum, upsert_row pkg.key cached pkg.checksum pkg.size_bytes d))

unfoldable pub upsert_blocked_package : PackageKey → Database → Result DbError Unit × Database
upsert_blocked_package k = exec (λ d. (ok tt, upsert_row k blocked [] 0 d))

unfoldable pub find_row : PackageKey → List Package → Option Package
find_row k [] = none
find_row k (r ∷ rs) = if has_key k r then some r else find_row k rs

-- `Scan` of a single row; no row is `ErrNotFound`.
abbrev pub scan_row : Option Package → Result DbError Package
scan_row none = err not_found
scan_row (some r) = ok r

unfoldable pub get_package : PackageKey → Database → Result DbError Package × Database
get_package k = exec (λ d. (scan_row (find_row k d.packages), d))

-- UPDATE packages SET last_hit_at = NOW() WHERE …
unfoldable pub touch_rows : PackageKey → ℕ → List Package → List Package
touch_rows k now [] = []
touch_rows k now (r ∷ rs) =
    (if has_key k r then record r { last_hit_at = some now } else r) ∷ touch_rows k now rs

unfoldable pub touch_package : PackageKey → Database → Result DbError Unit × Database
touch_package k = exec (λ d. (ok tt, record d { packages = touch_rows k d.now d.packages }))

-- DELETE FROM packages WHERE id = $1
unfoldable pub delete_package : ℕ → Database → Result DbError Unit × Database
delete_package id =
    exec (λ d. (ok tt, record d { packages = select (λ r. not (eqb r.id id)) d.packages }))
