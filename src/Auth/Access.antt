-- ===== src/Auth/Access.antt =====
-- Who gets past the middleware.
use cache_proxyfy.Prelude.{
  ◌≡◌, ◌≢◌, ◌↔◌, ◌⊎◌, refl, inl, inr, ==_iff, Bytes, codes, true, false, none, some, List, [], ◌∷◌,
  arith, ◌==◌, length, Option-cases,
}
use cache_proxyfy.Auth.{Bcrypt, User, Middleware, Request, find_user, validate, admits, wrap}

-- The list has the user, and nobody of the same name before.
unfoldable pub IsFirst : User → List User → Type 0
IsFirst u [] = ⊥
IsFirst u (v ∷ us) = (u ≡ v) ⊎ ((v.username ≢ u.username) × IsFirst u us)

find_user-IsFirst :
    (name : Bytes) (us : List User) (u : User)
    → find_user name us ≡ some u
    → (u.username ≡ name) × IsFirst u us
unfolding find_user IsFirst
find_user-IsFirst name [] u e = absurd (cc)
find_user-IsFirst name (v ∷ us) u e =
    ground (arith, ==_iff v.username name, find_user-IsFirst name us u)

IsFirst-find_user : (us : List User) (u : User) → IsFirst u us → find_user u.username us ≡ some u
unfolding find_user IsFirst
IsFirst-find_user [] u h = absurd h
IsFirst-find_user (v ∷ us) u h =
    ground (arith, ==_iff v.username u.username, IsFirst-find_user us u)

-- A password of a user.
pub record IsValidLogin (b : Bcrypt) (m : Middleware) (username password : Bytes) : Type 0 where
  pub user : User
  pub is_first : IsFirst user m.users
  pub has_name : user.username ≡ username
  pub matching : b.matches user.password_hash password ≡ true

no_user :
    (b : Bcrypt) (m : Middleware) (username password : Bytes)
    → IsValidLogin b m username password
    → find_user username m.users ≡ none
    → ⊥
no_user b m username password v e =
    ground (arith, v.has_name, IsFirst-find_user m.users v.user v.is_first)

same_user :
    (b : Bcrypt) (m : Middleware) (username password : Bytes) (u : User)
    → IsValidLogin b m username password
    → find_user username m.users ≡ some u
    → b.matches u.password_hash password ≡ true
same_user b m username password u v e =
    let same : v.user ≡ u =
      ground (arith, v.has_name, IsFirst-find_user m.users v.user v.is_first) in
    rw (← same) v.matching

-- Credentials are valid exactly where the first user of that name has a hash that bcrypt matches
-- with the password; and bcrypt is run once, whether or not there is such a user.
pub validate-exact :
    (b : Bcrypt) (m : Middleware) (username password : Bytes)
    → (((validate b m username password).0 ≡ true) ↔ IsValidLogin b m username password)
      × (length (validate b m username password).1 ≡ 1)
unfolding validate
validate-exact b m username password = elim (Option-cases (find_user username m.users)) [
  | inl e ↦
      rw (e, validate)
        (((λ h. absurd (cc)), (λ v. absurd (no_user b m username password v e))), refl)
  | inr (u, e) ↦
      let (named, first) = find_user-IsFirst username m.users u e in
      rw (e, validate)
        (
          (
            (λ h. record { user = u; is_first = first; has_name = named; matching = h }),
            (λ v. same_user b m username password u v e),
          ),
          refl,
        )
]

-- With authentication on, a request for another path than /healthz that reaches the next handler
-- has valid credentials, and gets that handler's answer.
pub wrap-valid {ℓ} :
    {A : Type ℓ} (b : Bcrypt) (m : Middleware) (next : Request → A) (r : Request) (a : A)
    → m.enabled ≡ true
    → (r.path == codes "/healthz") ≡ false
    → wrap b m next r ≡ some a
    → (username : Bytes) × (password : Bytes) × (r.basic_auth ≡ some (username, password))
      × IsValidLogin b m username password
      × (a ≡ next r)
unfolding wrap admits
wrap-valid b m next r a on other q = elim (Option-cases r.basic_auth) [
  | inl e ↦ absurd (ground arith)
  | inr ((username, password), e) ↦ (
    username,
    password,
    e,
    (validate-exact b m username password).0.0 (ground arith),
    ground arith,
  )
]
