-- ===== src/Proxy/Http/Routing.antt =====
-- ServeHTTP reaches `serve` only for packages of the ecosystems that are switched on.
use cache_proxyfy.Prelude.{
  ◌≡◌, refl, sym, inl, inr, ◌⊎◌, Bytes, codes, true, Option, none, some, List, [], ◌∷◌, ◌++◌, arith,
  Option-cases, Bool-cases, any, ◌==◌, ==_iff, if◌then◌else◌, ◌∙◌, cut, trim_prefix,
}
use cache_proxyfy.Ecosystem.Package.{Package}
use cache_proxyfy.Ecosystem.Npm
use cache_proxyfy.Ecosystem.Pypi
use cache_proxyfy.Ecosystem.Maven
use cache_proxyfy.Ecosystem.GoMod
use cache_proxyfy.Proxy.Router.{
  Handler, npm, pypi, maven, go, handler_named, Router, match, parse, is_metadata_request,
}
use cache_proxyfy.Proxy.Http.{
  Route, to_health, to_nothing, to_metadata, to_package, route, route_handled,
}

-- One of the list.
abbrev pub Among : {A : Type 0} → A → List A → Type 0
Among a [] = ⊥
Among a (x ∷ xs) = (a ≡ x) ⊎ Among a xs

pub Among-left : {A : Type 0} (a : A) (xs ys : List A) → Among a xs → Among a (xs ++ ys)
Among-left {A = A} a [] ys h = elim h [ ]
Among-left a (x ∷ xs) ys (inl e) = inl e
Among-left a (x ∷ xs) ys (inr h) = inr (Among-left a xs ys h)

pub Among-right : {A : Type 0} (a : A) (xs ys : List A) → Among a ys → Among a (xs ++ ys)
Among-right a [] ys h = h
Among-right a (x ∷ xs) ys h = inr (Among-right a xs ys h)

pub any-Among : (e : Bytes) (names : List Bytes) → any (λ x. x == e) names ≡ true → Among e names
any-Among e [] h = ground arith
any-Among e (x ∷ names) h = elim (Bool-cases (x == e)) [
  | inl k ↦ inl (sym ((==_iff x e).0 k))
  | inr k ↦ inr (any-Among e names (ground arith))
]

-- The package of a handler, if there is one, is of this ecosystem.
abbrev Of : Bytes → Option Package → Type 0
Of e none = Unit
Of e (some pkg) = pkg.ecosystem ≡ e

abbrev name_of : Handler → Bytes
name_of npm = codes "npm"
name_of pypi = codes "pypi"
name_of maven = codes "maven"
name_of go = codes "go"

handler_named-name_of : (e : Bytes) (h : Handler) → handler_named e ≡ some h → e ≡ name_of h
unfolding handler_named
handler_named-name_of e h k = elim (Bool-cases (e == codes "npm")) [
  | inl a ↦ ground (arith, (==_iff e (codes "npm")).0 a)
  | inr a ↦ elim (Bool-cases (e == codes "pypi")) [
    | inl b ↦ ground (arith, (==_iff e (codes "pypi")).0 b)
    | inr b ↦ elim (Bool-cases (e == codes "maven")) [
      | inl c ↦ ground (arith, (==_iff e (codes "maven")).0 c)
      | inr c ↦ elim (Bool-cases (e == codes "go")) [
        | inl d ↦ ground (arith, (==_iff e (codes "go")).0 d)
        | inr d ↦ ground arith
      ]
    ]
  ]
]

parse-Of : (h : Handler) (path : Bytes) → Of (name_of h) (parse h path)
unfolding parse Npm.parse Pypi.parse Maven.parse Maven.package_of GoMod.parse
parse-Of npm path = ground arith
parse-Of pypi path = ground arith
parse-Of maven path = ground arith
parse-Of go path = ground arith

-- A match: its prefix is among the names, and names the handler.
abbrev MatchOn : List Bytes → Option (Bytes × Handler) → Type 0
MatchOn names none = Unit
MatchOn names (some (e, h)) = Among e names × (e ≡ name_of h)

-- What Match does with the first segment.
match_prefix-MatchOn :
    (r : Router) (e : Bytes) (o : Option Handler)
    → handler_named e ≡ o
    → MatchOn r.enabled (elim o [
      | none ↦ none
      | some h ↦ if any (λ x. x == e) r.enabled then some (e, h) else none
    ])
match_prefix-MatchOn r e none k = tt
match_prefix-MatchOn r e (some h) k = elim (Bool-cases (any (λ x. x == e) r.enabled)) [
  | inl a ↦ rw a (any-Among e r.enabled a, handler_named-name_of e h k)
  | inr a ↦ rw a tt
]

match-MatchOn : (r : Router) (path : Bytes) → MatchOn r.enabled (match r path)
unfolding match cut trim_prefix
match-MatchOn r path = elim (Option-cases (cut b'/' (trim_prefix path (codes "/")))) [
  | inl a ↦ rw a tt
  | inr ((e, rest), a) ↦ rw a (match_prefix-MatchOn r e (handler_named e) refl)
]

-- A route to a package: its ecosystem is among the names, and is that of the package.
abbrev pub RouteOn : List Bytes → Route → Type 0
RouteOn names to_health = Unit
RouteOn names to_nothing = Unit
RouteOn names (to_metadata h) = Unit
RouteOn names (to_package e h pkg) = Among e names × (pkg.ecosystem ≡ e)

route_parsed-RouteOn :
    (names : List Bytes) (e : Bytes) (h : Handler) (o : Option Package)
    → Among e names
    → e ≡ name_of h
    → Of (name_of h) o
    → RouteOn names (elim o [ none ↦ to_nothing | some pkg ↦ to_package e h pkg ])
route_parsed-RouteOn names e h none a b c = tt
route_parsed-RouteOn names e h (some pkg) a b c = (a, c ∙ sym b)

route_handled-RouteOn :
    (names : List Bytes) (path : Bytes) (o : Option (Bytes × Handler))
    → MatchOn names o
    → RouteOn names (route_handled path o)
unfolding route_handled
route_handled-RouteOn names path none m = tt
route_handled-RouteOn names path (some (e, h)) (a, b) =
    elim (Bool-cases (is_metadata_request h path)) [
      | inl k ↦ rw k tt
      | inr k ↦ rw k (route_parsed-RouteOn names e h (parse h path) a b (parse-Of h path))
    ]

-- A path leads only to packages of an ecosystem that is switched on.
pub route-RouteOn : (r : Router) (path : Bytes) → RouteOn r.enabled (route r path)
unfolding route
route-RouteOn r path = elim (Bool-cases (path == codes "/healthz")) [
  | inl k ↦ rw k tt
  | inr k ↦ rw k (route_handled-RouteOn r.enabled path (match r path) (match-MatchOn r path))
]
