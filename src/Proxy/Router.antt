-- ===== src/Proxy/Router.antt =====
-- internal/proxy/router.go, and the dispatch to the handlers of internal/ecosystem.
use cache_proxyfy.Prelude.{
  Bytes, codes, Bool, Option, none, some, List, [], ◌∷◌, if◌then◌else◌, ◌==◌, to_lower, trim_prefix,
  cut, any,
}
use cache_proxyfy.Ecosystem.Package.{Package}
use cache_proxyfy.Ecosystem.Npm
use cache_proxyfy.Ecosystem.Pypi
use cache_proxyfy.Ecosystem.Maven
use cache_proxyfy.Ecosystem.GoMod

-- The four handlers.
pub data Handler : Type 0 where
  npm pypi maven go : Handler

-- The map `all` of `NewRouter`.
unfoldable pub handler_named : Bytes → Option Handler
handler_named name =
    if name == codes "npm"
    then some npm
    else if name == codes "pypi"
    then some pypi
    else if name == codes "maven"
    then some maven
    else if name == codes "go"
    then some go
    else none

-- The lowercased names of the ecosystems that are switched on.
pub record Router : Type 0 where
  pub enabled : List Bytes

abbrev pub lower_all : List Bytes → List Bytes
lower_all [] = []
lower_all (e ∷ es) = to_lower e ∷ lower_all es

unfoldable pub new_router : List Bytes → Router
new_router enabled_ecosystems = record { enabled = lower_all enabled_ecosystems }

-- The first segment of the path and its handler; none if there is no second slash or no handler.
unfoldable pub match : Router → Bytes → Option (Bytes × Handler)
match r path = elim (cut b'/' (trim_prefix path (codes "/"))) [
  | none ↦ none
  | some (prefix, rest) ↦ elim (handler_named prefix) [
    | none ↦ none
    | some h ↦ if any (λ e. e == prefix) r.enabled then some (prefix, h) else none
  ]
]

abbrev listed : Router → List Bytes → List Bytes
listed r [] = []
listed r (name ∷ names) =
    let rest = listed r names in if any (λ e. e == name) r.enabled then name ∷ rest else rest

-- The order of a Go map is not fixed; here it is that of `all` in the source.
unfoldable pub ecosystems : Router → List Bytes
ecosystems r = listed r (codes "npm" ∷ codes "pypi" ∷ codes "maven" ∷ codes "go" ∷ [])

-- `handler.Parse`; none is `ErrNotPackageRequest`, the only error of the four.
unfoldable pub parse : Handler → Bytes → Option Package
parse npm path = Npm.parse path
parse pypi path = Pypi.parse path
parse maven path = Maven.parse path
parse go path = GoMod.parse path

-- `handler.UpstreamURL`; none is the panic of the Maven handler.
unfoldable pub upstream_url : Handler → Package → Option Bytes
upstream_url npm pkg = some (Npm.upstream_url pkg)
upstream_url pypi pkg = some (Pypi.upstream_url pkg)
upstream_url maven pkg = Maven.upstream_url pkg
upstream_url go pkg = some (GoMod.upstream_url pkg)

-- `handler.RewriteResponse`: all four return the body.
unfoldable pub rewrite_response : Handler → Bytes → Bytes
rewrite_response h body = body

-- `IsMetadataRequest`: all four implement `MetadataHandler`.
unfoldable pub is_metadata_request : Handler → Bytes → Bool
is_metadata_request npm path = Npm.is_metadata_request path
is_metadata_request pypi path = Pypi.is_metadata_request path
is_metadata_request maven path = Maven.is_metadata_request path
is_metadata_request go path = GoMod.is_metadata_request path
