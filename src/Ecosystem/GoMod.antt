-- ===== src/Ecosystem/GoMod.antt =====
-- internal/ecosystem/gomod.go
pub mod CaseEncoding
use mathlib.Core.List.{reverse}
use cache_proxyfy.Prelude.{
  ℕ, ◌+◌, ◌-◌, ◌%◌, Bytes, codes, Bool, true, false, ◌&&◌, ◌||◌, Option, none, some, List, [], ◌∷◌,
  ◌++◌, eqb, ltb, if◌then◌else◌, ◌==◌, split, join, free_of, has_prefix, has_suffix, trim_prefix,
  trim_suffix, length,
}
use cache_proxyfy.Ecosystem.Package.{Package}

abbrev pub upstream_base : Bytes
upstream_base = codes "https://proxy.golang.org"

-- The loop of `decodeCaseEncoding`; `after_bang` is its state behind a '!'. The subtraction is on
-- bytes.
unfoldable mutual
  pub decode : Bytes → Bytes
  decode [] = []
  decode (x ∷ s) = elim (eqb x b'!') [ true ↦ after_bang s | false ↦ x ∷ decode s ]

  pub after_bang : Bytes → Bytes
  after_bang [] = b'!' ∷ []
  after_bang (y ∷ s) = ((y + 256 - 32) % 256) ∷ decode s

unfoldable pub decode_case_encoding : Bytes → Bytes
decode_case_encoding m = if free_of b'!' m then m else decode m

-- (.+): not empty, and no line feed.
abbrev pub is_line : Bytes → Bool
is_line [] = false
is_line (x ∷ s) = free_of 10 (x ∷ s)

-- The groups of `goArtifact` in the segments behind "/go/", last segment first.
unfoldable pub match_artifact : List Bytes → Option (Bytes × Bytes)
match_artifact (file ∷ at_v ∷ module_segments) =
    let path = join b'/' (reverse module_segments) in
    if (at_v == codes "@v") && has_suffix file (codes ".zip") && ltb 4 (length file) && is_line path
    then some (path, trim_suffix file (codes ".zip"))
    else none
match_artifact _ = none

-- The segments behind the first two, if those are empty and `eco`.
unfoldable pub below_prefix : Bytes → List Bytes → List Bytes
below_prefix eco (root ∷ prefix ∷ more) = if (root == []) && (prefix == eco) then more else []
below_prefix eco _ = []

abbrev package_of : Option (Bytes × Bytes) → Option Package
package_of none = none
package_of (some (encoded, version)) = some (record {
  key = record { ecosystem = codes "go"; name = decode_case_encoding encoded; version = version };
  filename = version ++ codes ".zip";
  upstream_path = encoded ++ (codes "/@v/" ++ (version ++ codes ".zip"));
})

-- `none` is `ErrNotPackageRequest`.
unfoldable pub parse : Bytes → Option Package
parse path = package_of (match_artifact (reverse (below_prefix (codes "go") (split b'/' path))))

unfoldable pub upstream_url : Package → Bytes
upstream_url pkg = upstream_base ++ b'/' ∷ pkg.upstream_path

-- [^/]+\.info or [^/]+\.mod or list
abbrev is_listing : Bytes → Bool
is_listing file =
    (file == codes "list")
    || (has_suffix file (codes ".info") && ltb 5 (length file))
    || (has_suffix file (codes ".mod") && ltb 4 (length file))

-- `goMetadataPath`, on the segments behind "/go/", last segment first.
unfoldable pub match_metadata : List Bytes → Bool
match_metadata [] = false
match_metadata (file ∷ []) = false
match_metadata (file ∷ at_v ∷ module_segments) =
    ((at_v == codes "@v") && is_listing file && is_line (join b'/' (reverse module_segments)))
    || ((file == codes "@latest") && is_line (join b'/' (reverse (at_v ∷ module_segments))))

unfoldable pub is_metadata_request : Bytes → Bool
is_metadata_request path = match_metadata (reverse (below_prefix (codes "go") (split b'/' path)))

unfoldable pub metadata_upstream_url : Bytes → Bytes
metadata_upstream_url path = upstream_base ++ trim_prefix path (codes "/go")
