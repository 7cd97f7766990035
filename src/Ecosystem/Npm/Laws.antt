-- ===== src/Ecosystem/Npm/Laws.antt =====
-- The version and the upstream URL that npm requests lead to.
use cache_proxyfy.Prelude.{
  ◌≡◌, ◌∙◌, ap, Bytes, codes, true, some, List, [], ◌∷◌, ◌++◌, arith, ==_iff, split, join,
  join-split, sym, trim_prefix, trim_suffix, trim_prefix-append, trim_suffix-append,
  after_last-free_of, after_last-append, free_of, append_assoc, Option-cases, inl, inr,
}
use cache_proxyfy.Ecosystem.Package.{Package}
use cache_proxyfy.Ecosystem.Npm.{
  upstream_base, match_tarball, extract_npm_version, parse, upstream_url,
}

-- What remains of `base-version.tgz` without `base-` and `.tgz`.
tarball_version :
    (base version : Bytes)
    → trim_suffix
        (trim_prefix (base ++ b'-' ∷ (version ++ codes ".tgz")) (base ++ b'-' ∷ []))
        (codes ".tgz")
      ≡ version
tarball_version base version =
    rw (← append_assoc base (b'-' ∷ []) (version ++ codes ".tgz"), trim_prefix-append)
      (trim_suffix-append version (codes ".tgz"))

-- The version that is cut out of a tarball's name is the one between the base name and ".tgz", for
-- a name without a slash and for a scoped name alike.
pub extract_npm_version-tarball :
    (scope base version : Bytes)
    → free_of b'/' base ≡ true
    → (extract_npm_version base (base ++ b'-' ∷ (version ++ codes ".tgz")) ≡ version)
      × (extract_npm_version (scope ++ b'/' ∷ base) (base ++ b'-' ∷ (version ++ codes ".tgz"))
          ≡ version)
unfolding extract_npm_version
extract_npm_version-tarball scope base version h = (
  rw (after_last-free_of b'/' base h) (tarball_version base version),
  rw (after_last-append b'/' scope base h) (tarball_version base version),
)

-- The path that the groups of `npmTarball` came from.
match_tarball-join :
    (segs : List Bytes) (name file : Bytes)
    → match_tarball segs ≡ some (name, file)
    → join b'/' segs ≡ codes "/npm" ++ b'/' ∷ (name ++ (codes "/-/" ++ file))
unfolding match_tarball join
match_tarball-join (r ∷ p ∷ n ∷ d ∷ f ∷ []) name file h =
    ground (arith, ==_iff r [], ==_iff p (codes "npm"), ==_iff d (codes "-"))
match_tarball-join (r ∷ p ∷ s ∷ n ∷ d ∷ f ∷ []) name file h = ground (
  arith,
  ==_iff r [],
  ==_iff p (codes "npm"),
  ==_iff d (codes "-"),
  append_assoc s (b'/' ∷ n) (codes "/-/" ++ file),
)
match_tarball-join segs name file h = cc

-- The tarball is fetched from the registry at the path of the request without "/npm".
pub upstream_url-parse :
    (path : Bytes) (pkg : Package)
    → parse path ≡ some pkg
    → upstream_url pkg ≡ upstream_base ++ trim_prefix path (codes "/npm")
unfolding parse upstream_url
upstream_url-parse path pkg h = elim (Option-cases (match_tarball (split b'/' path))) [
  | inl e ↦ ground arith
  | inr ((name, file), e) ↦ ground (
    arith,
    ap (λ (p : Bytes). trim_prefix p (codes "/npm"))
        (sym (join-split b'/' path) ∙ match_tarball-join (split b'/' path) name file e),
    trim_prefix-append (codes "/npm") (b'/' ∷ (name ++ (codes "/-/" ++ file))),
  )
]
