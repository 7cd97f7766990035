-- ===== src/Ecosystem/Metadata.antt =====
-- `RewriteMetadata` of internal/ecosystem: the registries' URLs in an index are replaced by the
-- proxy's.
use cache_proxyfy.Prelude.{
  ℕ, zero, suc, ◌-◌, Bytes, codes, [], ◌∷◌, ◌++◌, if◌then◌else◌, has_prefix, length,
}
use cache_proxyfy.Ecosystem.Npm

-- strings.ReplaceAll for a string that is not empty; `skip` bytes of an occurrence are still to be
-- dropped.
unfoldable pub replace_from : ℕ → Bytes → Bytes → Bytes → Bytes
replace_from skip old new [] = []
replace_from zero old new (c ∷ s) =
    if has_prefix (c ∷ s) old
    then new ++ replace_from (length old - 1) old new s
    else c ∷ replace_from zero old new s
replace_from (suc skip) old new (c ∷ s) = replace_from skip old new s

unfoldable pub replace_all : Bytes → Bytes → Bytes → Bytes
replace_all old new s = replace_from zero old new s

unfoldable pub rewrite_npm : Bytes → Bytes → Bytes
rewrite_npm body proxy_base = replace_all Npm.upstream_base (proxy_base ++ codes "/npm") body

unfoldable pub rewrite_pypi : Bytes → Bytes → Bytes
rewrite_pypi body proxy_base =
    replace_all (codes "https://files.pythonhosted.org") (proxy_base ++ codes "/pypi") body
