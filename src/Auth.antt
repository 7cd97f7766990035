-- ===== src/Auth.antt =====
-- internal/auth/middleware.go: Basic authentication in front of a handler. bcrypt and the parsing of
-- the Authorization header are parameters.
pub mod Access
use cache_proxyfy.Prelude.{
  Bytes, codes, Bool, true, false, not, ◌||◌, Option, none, some, List, [], ◌∷◌, if◌then◌else◌,
  ◌==◌, Result, ok, err,
}

-- bcrypt: `generate` may fail, `matches` is CompareHashAndPassword.
pub record Bcrypt : Type 0 where
  pub generate : Bytes → Option Bytes
  pub matches : (hash password : Bytes) → Bool

pub record User : Type 0 where
  pub username : Bytes
  pub password_hash : Bytes

pub record Config : Type 0 where
  pub enabled : Bool
  pub users : List User

pub record Middleware : Type 0 where
  pub enabled : Bool
  pub users : List User
  pub dummy_hash : Bytes

-- What the middleware reads of a request: its path, and the credentials if there are any.
pub record Request : Type 0 where
  pub path : Bytes
  pub basic_auth : Option (Bytes × Bytes)

abbrev with_dummy : Config → Option Bytes → Option Middleware
with_dummy c none = none
with_dummy c (some hash) = some (record { enabled = c.enabled; users = c.users; dummy_hash = hash })

-- None is the panic of `New`.
unfoldable pub new : Bcrypt → Config → Option Middleware
new b c =
    if c.enabled
    then with_dummy c (b.generate (codes "cacheproxyfy-dummy"))
    else with_dummy c (some [])

-- The first user of that name. ConstantTimeCompare answers 1 for equal texts only.
unfoldable pub find_user : Bytes → List User → Option User
find_user name [] = none
find_user name (u ∷ us) = if u.username == name then some u else find_user name us

-- The answer, and the hashes that bcrypt was run on.
unfoldable pub validate : Bcrypt → Middleware → Bytes → Bytes → Bool × List Bytes
validate b m username password = elim (find_user username m.users) [
  | none ↦ (false, m.dummy_hash ∷ [])
  | some u ↦ (b.matches u.password_hash password, u.password_hash ∷ [])
]

unfoldable pub admits : Bcrypt → Middleware → Option (Bytes × Bytes) → Bool
admits b m none = false
admits b m (some (username, password)) = (validate b m username password).0

-- What `Wrap` answers, over the answers of `next`; none is 401 with the header WWW-Authenticate.
unfoldable pub wrap {ℓ} : {A : Type ℓ} → Bcrypt → Middleware → (Request → A) → Request → Option A
wrap b m next r =
    if m.enabled
    then (if r.path == codes "/healthz"
        then some (next r)
        else if admits b m r.basic_auth
        then some (next r)
        else none)
    else some (next r)
