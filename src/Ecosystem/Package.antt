-- ===== src/Ecosystem/Package.antt =====
-- internal/ecosystem/interface.go: the package that a request names, and its storage key.
use cache_proxyfy.Prelude.{Bytes, ◌∷◌, ◌++◌}
use cache_proxyfy.Db.Schema.{PackageKey}

-- `ecosystem`, `name` and `version` together are the key of caches and tables.
pub record Package : Type 0 where
  pub key : PackageKey
  pub open key use *
  pub filename : Bytes
  pub upstream_path : Bytes

unfoldable pub cache_key : Package → Bytes
cache_key p = p.ecosystem ++ b':' ∷ (p.name ++ b':' ∷ (p.version ++ b':' ∷ p.filename))
