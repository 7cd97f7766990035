-- ===== src/Ecosystem/Pypi.antt =====
-- internal/ecosystem/pypi.go
pub mod Names
use cache_proxyfy.Prelude.{
  ℕ, Bytes, codes, Bool, true, false, ◌&&◌, ◌||◌, Option, none, some, List, [], ◌∷◌, ◌++◌, eqb, ltb,
  if◌then◌else◌, ◌==◌, split, contains, replace_byte, to_lower, is_digit, has_prefix, has_suffix,
  trim_prefix, trim_suffix, length,
}
use cache_proxyfy.Ecosystem.Package.{Package}

abbrev pub upstream_base : Bytes
upstream_base = codes "https://files.pythonhosted.org"

unfoldable pub normalise : Bytes → Bytes
normalise name = replace_byte b'.' b'-' (replace_byte b'_' b'-' (to_lower name))

abbrev is_separator : ℕ → Bool
is_separator c = eqb c b'-' || eqb c b'_'

abbrev starts_with_digit : Bytes → Bool
starts_with_digit [] = false
starts_with_digit (d ∷ s) = is_digit d

abbrev cons_name : ℕ → Option (Bytes × Bytes) → Option (Bytes × Bytes)
cons_name x none = none
cons_name x (some (name, version)) = some (x ∷ name, version)

-- The rest of the name up to the first separator before a digit, and the version behind it.
unfoldable pub find_version : Bytes → Option (Bytes × Bytes)
find_version [] = none
find_version (x ∷ s) =
    let rest = find_version s in
    if is_separator x && starts_with_digit s then some ([], s) else cons_name x rest

-- ([^/]+?)[-_](\d[^/]*?): the name has at least one byte.
unfoldable pub split_stem : Bytes → Option (Bytes × Bytes)
split_stem [] = none
split_stem (x ∷ s) = cons_name x (find_version s)

-- (?:\.tar\.gz|\.whl|\.zip) at the end of the file's name.
unfoldable pub split_filename : Bytes → Option (Bytes × Bytes)
split_filename file =
    if has_suffix file (codes ".tar.gz")
    then split_stem (trim_suffix file (codes ".tar.gz"))
    else if has_suffix file (codes ".whl")
    then split_stem (trim_suffix file (codes ".whl"))
    else if has_suffix file (codes ".zip")
    then split_stem (trim_suffix file (codes ".zip"))
    else none

-- The groups 2 to 4 of `pypiArtifact`: the file's name, the package and the version.
pub record Match : Type 0 where
  pub filename : Bytes
  pub name : Bytes
  pub version : Bytes

abbrev match_file : Bytes → Option Match
match_file file = elim (split_filename file) [
  | none ↦ none
  | some (name, version) ↦ some (record { filename = file; name = name; version = version })
]

-- `pypiArtifact` is anchored at the end only: the last six segments behind some first segment.
unfoldable pub match_artifact : List Bytes → Option Match
match_artifact [] = none
match_artifact (_ ∷ pypi ∷ packages ∷ a ∷ b ∷ dist ∷ file ∷ []) =
    if (pypi == codes "pypi")
      && (packages == codes "packages")
      && ltb 0 (length a)
      && ltb 0 (length b)
      && ltb 0 (length dist)
    then match_file file
    else none
match_artifact (_ ∷ segments) = match_artifact segments

abbrev package_of : Bytes → Option Match → Option Package
package_of path none = none
package_of path (some m) = some (record {
  key = record { ecosystem = codes "pypi"; name = normalise m.name; version = m.version };
  filename = m.filename;
  upstream_path = trim_prefix path (codes "/pypi/packages/");
})

-- `none` is `ErrNotPackageRequest`.
unfoldable pub parse : Bytes → Option Package
parse path =
    if contains path (codes "/simple/")
    then none
    else package_of path (match_artifact (split b'/' path))

unfoldable pub upstream_url : Package → Bytes
upstream_url pkg = upstream_base ++ (codes "/packages/" ++ pkg.upstream_path)

unfoldable pub is_metadata_request : Bytes → Bool
is_metadata_request path =
    has_prefix path (codes "/pypi/simple/") || has_suffix path (codes ".whl.metadata")

unfoldable pub metadata_upstream_url : Bytes → Bytes
metadata_upstream_url path =
    let rest = trim_prefix path (codes "/pypi") in
    if has_suffix path (codes ".whl.metadata")
    then codes "https://files.pythonhosted.org" ++ rest
    else codes "https://pypi.org" ++ rest
