-- ===== src/Ecosystem/Maven/Coordinates.antt =====
-- Maven coordinates and back: the name that `Parse` builds, and the URL made of it.
use mathlib.Core.List.{reverse, reverse-append, reverse-reverse}
use cache_proxyfy.Prelude.{
  ◌≡◌, ◌∙◌, ap, sym, refl, Bytes, List, [], codes, split, join, split-append, split-free_of,
  join-split, ◌==◌, true, Option, none, some, ◌∷◌, ◌++◌, arith, free_of, replace_byte, cut-append,
  replace_byte-replace_byte, free_of-replace_byte_other,
}
use cache_proxyfy.Ecosystem.Package.{Package}
use cache_proxyfy.Ecosystem.GoMod.{below_prefix}
use cache_proxyfy.Ecosystem.Maven.{
  upstream_base, Match, match_artifact, package_of, parse, upstream_url,
}

upstream_url-package_of :
    (m : Match) (pkg : Package)
    → free_of b'.' m.group ≡ true
    → free_of b':' m.group ≡ true
    → package_of (some m) ≡ some pkg
    → upstream_url pkg
      ≡ some (
          upstream_base
          ++ b'/' ∷ (m.group ++ b'/' ∷ (m.artifact ++ b'/' ∷ (m.version ++ b'/' ∷ m.filename))))
unfolding package_of upstream_url
upstream_url-package_of m pkg dots colons h = ground (
  arith,
  cut-append b':' (replace_byte b'/' b'.' m.group) m.artifact
      (free_of-replace_byte_other b'/' b'.' b':' m.group (omega arith) colons),
  replace_byte-replace_byte b'/' b'.' m.group dots,
)

-- The path of a file of a group's artifact, as a request names it.
abbrev pub artifact_path : Bytes → Bytes → Bytes → Bytes → Bytes
artifact_path group artifact version file =
    group ++ b'/' ∷ (artifact ++ b'/' ∷ (version ++ b'/' ∷ file))

split-artifact_path :
    (group artifact version file : Bytes)
    → free_of b'/' artifact ≡ true
    → free_of b'/' version ≡ true
    → free_of b'/' file ≡ true
    → split b'/' (artifact_path group artifact version file)
      ≡ split b'/' group ++ artifact ∷ version ∷ file ∷ []
split-artifact_path group artifact version file a v f =
    rw
      (
        split-append b'/' group (artifact ++ b'/' ∷ (version ++ b'/' ∷ file)),
        split-append b'/' artifact (version ++ b'/' ∷ file),
        split-append b'/' version file,
        split-free_of b'/' artifact a,
        split-free_of b'/' version v,
        split-free_of b'/' file f,
      )
      refl

below_maven :
    (rest : Bytes)
    → below_prefix (codes "maven") (split b'/' (codes "/maven/" ++ rest)) ≡ split b'/' rest
unfolding below_prefix split ◌==◌
below_maven rest = refl

reversed :
    (segs : List Bytes) (artifact version file : Bytes)
    → reverse (segs ++ artifact ∷ version ∷ file ∷ []) ≡ file ∷ version ∷ artifact ∷ reverse segs
reversed segs artifact version file = reverse-append segs (artifact ∷ version ∷ file ∷ [])

abbrev groups : Bytes → Bytes → Bytes → Bytes → Match
groups group artifact version file = record {
  group = group;
  artifact = artifact;
  version = version;
  filename = file;
}

match_artifact-groups :
    (segs : List Bytes) (artifact version file : Bytes) (m : Match)
    → match_artifact (file ∷ version ∷ artifact ∷ segs) ≡ some m
    → m ≡ groups (join b'/' (reverse segs)) artifact version file
unfolding match_artifact
match_artifact-groups segs artifact version file m h = ground arith

package_of-some :
    (o : Option Match) (pkg : Package)
    → package_of o ≡ some pkg
    → (m : Match) × (o ≡ some m) × (package_of (some m) ≡ some pkg)
unfolding package_of
package_of-some none pkg h = absurd (cc)
package_of-some (some m) pkg h = (m, refl, h)

parse-Match :
    (path : Bytes) (pkg : Package)
    → parse path ≡ some pkg
    → (m : Match) × (match_artifact (reverse (below_prefix (codes "maven") (split b'/' path)))
        ≡ some m)
      × (package_of (some m) ≡ some pkg)
unfolding parse
parse-Match path pkg h = package_of-some _ pkg (ground arith)

groups_of :
    (group artifact version file : Bytes)
    → free_of b'/' artifact ≡ true
    → free_of b'/' version ≡ true
    → free_of b'/' file ≡ true
    → reverse (
        below_prefix
          (codes "maven")
          (split b'/' (codes "/maven/" ++ artifact_path group artifact version file)))
      ≡ file ∷ version ∷ artifact ∷ reverse (split b'/' group)
groups_of group artifact version file a v f =
    ap reverse (
      below_maven (artifact_path group artifact version file)
      ∙ split-artifact_path group artifact version file a v f)
    ∙ reversed (split b'/' group) artifact version file

-- A request for a file of a group's artifact, whose group has no dots and colons and whose other
-- segments have no slash, and that `Parse` takes for a package, is fetched from the same path on the
-- registry: the name's dots become the group's slashes again, and its first colon is the one that
-- `Parse` put there. In particular the URL is always built.
pub upstream_url-parse_maven :
    (group artifact version file : Bytes) (pkg : Package)
    → free_of b'.' group ≡ true
    → free_of b':' group ≡ true
    → free_of b'/' artifact ≡ true
    → free_of b'/' version ≡ true
    → free_of b'/' file ≡ true
    → parse (codes "/maven/" ++ artifact_path group artifact version file) ≡ some pkg
    → upstream_url pkg ≡ some (upstream_base ++ b'/' ∷ artifact_path group artifact version file)
upstream_url-parse_maven group artifact version file pkg dots colons a v f h =
    let (m, e, made) =
      parse-Match (codes "/maven/" ++ artifact_path group artifact version file) pkg h in
    let same : m ≡ groups group artifact version file =
      match_artifact-groups (reverse (split b'/' group)) artifact version file m
        (sym (ap match_artifact (groups_of group artifact version file a v f)) ∙ e)
      ∙ ap (λ g. groups g artifact version file)
          (ap (join b'/') (reverse-reverse (split b'/' group)) ∙ join-split b'/' group) in
    upstream_url-package_of m pkg (ap (λ (n : Match). free_of b'.' n.group) same ∙ dots)
      (ap (λ (n : Match). free_of b':' n.group) same ∙ colons) made
    ∙ ap
        (λ (n : Match).
          some (upstream_base ++ b'/' ∷ artifact_path n.group n.artifact n.version n.filename))
        same
