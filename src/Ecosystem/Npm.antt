-- ===== src/Ecosystem/Npm.antt =====
-- internal/ecosystem/npm.go. The segments of a path, which `split` gives, hold no slash, so the
-- regular expressions become patterns of segments.
pub mod Laws
use mathlib.Core.Bool.{not}
use cache_proxyfy.Prelude.{
  ℕ, Bytes, codes, Bool, true, false, ◌&&◌, ◌||◌, Option, none, some, List, [], ◌∷◌, ◌++◌, eqb,
  if◌then◌else◌, ◌==◌, split, has_suffix, trim_prefix, trim_suffix, after_last, length, ltb, Result,
  ok,
}
use cache_proxyfy.Ecosystem.Package.{Package}

abbrev pub upstream_base : Bytes
upstream_base = codes "https://registry.npmjs.org"

-- @[^/]+
abbrev pub is_scope : Bytes → Bool
is_scope [] = false
is_scope (x ∷ s) = eqb x b'@' && ltb 0 (length s)

-- [^@/][^/]*
abbrev pub is_plain : Bytes → Bool
is_plain [] = false
is_plain (x ∷ s) = not (eqb x b'@')

-- [^/]+\.tgz
abbrev pub is_tarball : Bytes → Bool
is_tarball f = has_suffix f (codes ".tgz") && ltb 4 (length f)

-- The two groups of `npmTarball`.
unfoldable pub match_tarball : List Bytes → Option (Bytes × Bytes)
match_tarball (root ∷ npm ∷ name ∷ dash ∷ file ∷ []) =
    if (root == [])
      && (npm == codes "npm")
      && is_plain name
      && (dash == codes "-")
      && is_tarball file
    then some (name, file)
    else none
match_tarball (root ∷ npm ∷ scope ∷ name ∷ dash ∷ file ∷ []) =
    if (root == [])
      && (npm == codes "npm")
      && is_scope scope
      && ltb 0 (length name)
      && (dash == codes "-")
      && is_tarball file
    then some (scope ++ b'/' ∷ name, file)
    else none
match_tarball _ = none

-- `npmManifest`
unfoldable pub match_manifest : List Bytes → Bool
match_manifest (root ∷ npm ∷ name ∷ []) = (root == []) && (npm == codes "npm") && is_plain name
match_manifest (root ∷ npm ∷ scope ∷ name ∷ []) =
    (root == []) && (npm == codes "npm") && is_scope scope && ltb 0 (length name)
match_manifest _ = false

unfoldable pub extract_npm_version : Bytes → Bytes → Bytes
extract_npm_version name filename =
    trim_suffix (trim_prefix filename (after_last b'/' name ++ b'-' ∷ [])) (codes ".tgz")

abbrev package_of : Bytes × Bytes → Package
package_of (name, filename) = record {
  key = record {
    ecosystem = codes "npm";
    name = name;
    version = extract_npm_version name filename;
  };
  filename = filename;
  upstream_path = [];
}

abbrev pub map_some : {A B : Type 0} → (A → B) → Option A → Option B
map_some f none = none
map_some f (some a) = some (f a)

-- `none` is `ErrNotPackageRequest`.
unfoldable pub parse : Bytes → Option Package
parse path = map_some package_of (match_tarball (split b'/' path))

unfoldable pub upstream_url : Package → Bytes
upstream_url pkg = upstream_base ++ b'/' ∷ (pkg.name ++ (codes "/-/" ++ pkg.filename))

unfoldable pub is_metadata_request : Bytes → Bool
is_metadata_request path = match_manifest (split b'/' path)

unfoldable pub metadata_upstream_url : Bytes → Bytes
metadata_upstream_url path = upstream_base ++ b'/' ∷ trim_prefix path (codes "/npm/")
