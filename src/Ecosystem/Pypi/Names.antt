-- ===== src/Ecosystem/Pypi/Names.antt =====
-- The names and versions of PyPI packages.
use cache_proxyfy.Prelude.{
  ◌≡◌, refl, Bytes, codes, true, some, [], ◌∷◌, ◌++◌, arith, to_lower, lower, replace_byte, free_of,
  free_of-replace_byte, free_of-replace_byte_other, trim_prefix-append,
}
use cache_proxyfy.Ecosystem.Package.{Package}
use cache_proxyfy.Ecosystem.Pypi.{upstream_base, normalise, parse, upstream_url}

normalise-normalise : (s : Bytes) → normalise (normalise s) ≡ normalise s
unfolding normalise replace_byte to_lower lower
normalise-normalise [] = refl
normalise-normalise (x ∷ s) = ground (arith, normalise-normalise s)

-- A normalised name has neither underscores nor dots, and normalising it again changes nothing.
pub normalise-canonical :
    (name : Bytes)
    → (free_of b'_' (normalise name) ≡ true)
      × (free_of b'.' (normalise name) ≡ true)
      × (normalise (normalise name) ≡ normalise name)
normalise-canonical name = (
  unfold normalise in
      free_of-replace_byte_other b'.' b'-' b'_' (replace_byte b'_' b'-' (to_lower name))
        (omega arith) (free_of-replace_byte b'_' b'-' (to_lower name) (omega arith)),
  (unfold normalise in
      free_of-replace_byte b'.' b'-' (replace_byte b'_' b'-' (to_lower name)) (omega arith)),
  normalise-normalise name,
)

-- An artifact below "/pypi/packages/" is fetched from the path of the request without "/pypi".
pub upstream_url-below_packages :
    (rest : Bytes) (pkg : Package)
    → parse (codes "/pypi/packages/" ++ rest) ≡ some pkg
    → upstream_url pkg ≡ upstream_base ++ (codes "/packages/" ++ rest)
unfolding parse upstream_url
upstream_url-below_packages rest pkg h =
    ground (arith, trim_prefix-append (codes "/pypi/packages/") rest)
