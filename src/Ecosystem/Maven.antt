-- ===== src/Ecosystem/Maven.antt =====
-- internal/ecosystem/maven.go
pub mod Coordinates
use mathlib.Core.List.{reverse}
use cache_proxyfy.Prelude.{
  ℕ, Bytes, codes, Bool, true, false, ◌&&◌, ◌||◌, Option, none, some, List, [], ◌∷◌, ◌++◌, eqb, ltb,
  if◌then◌else◌, ◌==◌, split, join, cut, replace_byte, has_prefix, has_suffix, trim_prefix, length,
}
use cache_proxyfy.Ecosystem.Package.{Package}
use cache_proxyfy.Ecosystem.GoMod.{is_line, below_prefix}

abbrev pub upstream_base : Bytes
upstream_base = codes "https://repo1.maven.org/maven2"

-- The groups of `mavenArtifact`.
pub record Match : Type 0 where
  pub group : Bytes
  pub artifact : Bytes
  pub version : Bytes
  pub filename : Bytes

-- `mavenArtifact` on the segments behind "/maven/", last segment first.
unfoldable pub match_artifact : List Bytes → Option Match
match_artifact (file ∷ version ∷ artifact ∷ group_segments) =
    let group = join b'/' (reverse group_segments) in
    if ltb 0 (length artifact)
      && ltb 0 (length version)
      && has_suffix file (codes ".jar")
      && ltb 4 (length file)
      && is_line group
    then some (record { group = group; artifact = artifact; version = version; filename = file })
    else none
match_artifact _ = none

-- .+ in front of one of the suffixes of `mavenMetadataPath`
abbrev ends_line : Bytes → Bytes → Bool
ends_line rest suffix = has_suffix rest suffix && ltb (length suffix) (length rest) && is_line rest

unfoldable pub is_metadata_request : Bytes → Bool
is_metadata_request path =
    let rest = trim_prefix path (codes "/maven/") in
    has_prefix path (codes "/maven/")
    && (ends_line rest (codes "/maven-metadata.xml")
        || ends_line rest (codes ".pom")
        || ends_line rest (codes ".md5")
        || ends_line rest (codes ".sha1")
        || ends_line rest (codes ".sha256"))

-- The rest of `Parse`, on the groups.
unfoldable pub package_of : Option Match → Option Package
package_of none = none
package_of (some m) =
    if has_prefix m.filename (m.artifact ++ b'-' ∷ m.version)
    then some (record {
      key = record {
        ecosystem = codes "maven";
        name = replace_byte b'/' b'.' m.group ++ b':' ∷ m.artifact;
        version = m.version;
      };
      filename = m.filename;
      upstream_path = [];
    })
    else none

-- `none` is `ErrNotPackageRequest`.
unfoldable pub parse : Bytes → Option Package
parse path =
    if is_metadata_request path
    then none
    else package_of (match_artifact (reverse (below_prefix (codes "maven") (split b'/' path))))

-- `none` is the panic of `parts[1]` on a name without a colon.
unfoldable pub upstream_url : Package → Option Bytes
upstream_url pkg = elim (cut b':' pkg.name) [
  | none ↦ none
  | some (group, artifact) ↦ some (
      upstream_base
      ++ b'/'
        ∷ (replace_byte b'.' b'/' group
            ++ b'/' ∷ (artifact ++ b'/' ∷ (pkg.version ++ b'/' ∷ pkg.filename))))
]

unfoldable pub metadata_upstream_url : Bytes → Bytes
metadata_upstream_url path = upstream_base ++ trim_prefix path (codes "/maven")
