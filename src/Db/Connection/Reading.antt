-- ===== src/Db/Connection/Reading.antt =====
-- What the documented syntax of connection strings reads in the one of internal/db/db.go.
use cache_proxyfy.Prelude.{
  ℕ, zero, suc, ◌+◌, ◌-◌, ◌/◌, ◌%◌, ◌^◌, ◌≡◌, ◌≢◌, refl, ap, ◌∙◌, Bytes, codes, Bool, true, false,
  not, ◌&&◌, ◌||◌, Option, none, some, List, [], ◌∷◌, ◌++◌, append-nil, append_assoc, arith, ltb,
  eqb, if◌then◌else◌, Bool-cases, inl, inr,
}
use cache_proxyfy.Config.{DatabaseConfig}
use cache_proxyfy.Db.Connection.{decimal, format_int, dsn}

-- Where a reader of a connection string stands, with what it has read of a keyword or a value.
pub data Mode : Type 0 where
  in_keyword : Bytes → Mode
  before_value : (keyword : Bytes) → Mode
  in_value : (keyword value : Bytes) → Mode

abbrev Settings : Type 0
Settings = List (Bytes × Bytes)

-- Quotes and escapes are not read.
abbrev is_special : ℕ → Bool
is_special c = eqb c 39 || eqb c 92

abbrev is_nil : Bytes → Bool
is_nil [] = true
is_nil (c ∷ s) = false

next : Mode → Settings → ℕ → Option (Mode × Settings)
next (in_keyword k) done c =
    if eqb c b'='
    then some (before_value k, done)
    else if eqb c b' '
    then (if is_nil k then some (in_keyword [], done) else none)
    else some (in_keyword (k ++ c ∷ []), done)
next (before_value k) done c =
    if eqb c b' '
    then some (before_value k, done)
    else if is_special c
    then none
    else some (in_value k (c ∷ []), done)
next (in_value k v) done c =
    if eqb c b' '
    then some (in_keyword [], done ++ (k, v) ∷ [])
    else if is_special c
    then none
    else some (in_value k (v ++ c ∷ []), done)

finish : Mode → Settings → Option Settings
finish (in_keyword k) done = if is_nil k then some done else none
finish (before_value k) done = some (done ++ (k, []) ∷ [])
finish (in_value k v) done = some (done ++ (k, v) ∷ [])

read_from : Mode → Settings → Bytes → Option Settings
read_from m done [] = finish m done
read_from m done (c ∷ s) = elim (next m done c) [
  | none ↦ none
  | some (m', done') ↦ read_from m' done' s
]

-- The documented syntax: settings `keyword = value` between blanks, where blanks around the equal
-- sign are optional, so that an empty value wants quotes.
unfoldable pub read_settings : Bytes → Option Settings
unfolding next finish read_from
read_settings s = read_from (in_keyword []) [] s

-- A text without blanks, quotes and escapes.
unfoldable pub is_plain : Bytes → Bool
is_plain [] = true
is_plain (c ∷ s) = not (eqb c b' ' || is_special c) && is_plain s

read_from-value :
    (k a : Bytes) (done : Settings) (v rest : Bytes)
    → is_plain v ≡ true
    → read_from (in_value k a) done (v ++ rest) ≡ read_from (in_value k (a ++ v)) done rest
unfolding read_from next is_plain
read_from-value k a done [] rest h = rw append-nil refl
read_from-value k a done (c ∷ v) rest h =
    ground (arith, read_from-value k (a ++ c ∷ []) done v rest, append_assoc a (c ∷ []) v)

-- A plain value that is not empty ends at the blank behind it.
read_from-setting :
    (k : Bytes) (done : Settings) (v rest : Bytes)
    → is_plain v ≡ true
    → v ≢ []
    → read_from (before_value k) done (v ++ b' ' ∷ rest)
      ≡ read_from (in_keyword []) (done ++ (k, v) ∷ []) rest
unfolding read_from next is_plain
read_from-setting k done [] rest h n = absurd (n refl)
read_from-setting k done (c ∷ v) rest h n =
    ground (arith, read_from-value k (c ∷ []) done v (b' ' ∷ rest))

read_from-last :
    (k : Bytes) (done : Settings) (v : Bytes)
    → is_plain v ≡ true
    → read_from (before_value k) done v ≡ some (done ++ (k, v) ∷ [])
unfolding read_from next is_plain finish
read_from-last k done [] h = refl
read_from-last k done (c ∷ v) h = ground (
  arith,
  read_from-value k (c ∷ []) done v [],
  ap (read_from (in_value k (c ∷ [])) done) (append-nil v),
)

-- An empty value takes the next setting for itself.
read_from-empty :
    (k : Bytes) (done : Settings) (rest : Bytes)
    → read_from (before_value k) done (b' ' ∷ rest) ≡ read_from (before_value k) done rest
unfolding read_from next
read_from-empty k done rest = refl

is_plain-append : (s t : Bytes) → is_plain s ≡ true → is_plain t ≡ true → is_plain (s ++ t) ≡ true
unfolding is_plain
is_plain-append [] t h k = k
is_plain-append (c ∷ s) t h k = ground (arith, is_plain-append s t)

decimal-plain : (rounds n : ℕ) → is_plain (decimal rounds n) ≡ true
unfolding decimal is_plain
decimal-plain zero n = ground arith
decimal-plain (suc rounds) n = elim (Bool-cases (ltb n 10)) [
  | inl small ↦ rw small (ground arith)
  | inr large ↦ rw large (
      is_plain-append (decimal rounds (n / 10)) ((b'0' + n % 10) ∷ [])
        (decimal-plain rounds (n / 10)) (ground arith))
]

append-ne-nil : (s : Bytes) (c : ℕ) → s ++ c ∷ [] ≢ []
append-ne-nil [] c h = cc
append-ne-nil (x ∷ s) c h = cc

decimal-ne-nil : (rounds n : ℕ) → decimal rounds n ≢ []
unfolding decimal
decimal-ne-nil zero n h = cc
decimal-ne-nil (suc rounds) n h =
    ground (arith, append-ne-nil (decimal rounds (n / 10)) (b'0' + n % 10))

format_int-plain : (n : ℕ) → is_plain (format_int n) ≡ true
unfolding format_int is_plain
format_int-plain n = ground (arith, decimal-plain 19 n, decimal-plain 19 (2 ^ 64 - n))

format_int-ne-nil : (n : ℕ) → format_int n ≢ []
unfolding format_int
format_int-ne-nil n h = ground (arith, decimal-ne-nil 19 n)

-- The settings that the fields stand for.
abbrev pub settings_of : DatabaseConfig → Settings
settings_of c =
    (codes "host", c.host)
    ∷ (codes "port", format_int c.port)
    ∷ (codes "user", c.user)
    ∷ (codes "password", c.password)
    ∷ (codes "dbname", c.dbname)
    ∷ (codes "sslmode", c.sslmode)
    ∷ []

-- No field has blanks, quotes or escapes.
pub record IsPlain (c : DatabaseConfig) : Type 0 where
  pub host : is_plain c.host ≡ true
  pub user : is_plain c.user ≡ true
  pub password : is_plain c.password ≡ true
  pub dbname : is_plain c.dbname ≡ true
  pub sslmode : is_plain c.sslmode ≡ true

-- The settings before the password.
abbrev pub first_three : DatabaseConfig → Settings
first_three c =
    (codes "host", c.host) ∷ (codes "port", format_int c.port) ∷ (codes "user", c.user) ∷ []

module _ (c : DatabaseConfig) (plain : IsPlain c) (host : c.host ≢ []) (user : c.user ≢ []) where
  -- What follows the user.
  abbrev rest : Bytes
  rest =
      codes "password="
      ++ (c.password ++ (codes " dbname=" ++ (c.dbname ++ (codes " sslmode=" ++ c.sslmode))))

  read_from-first_three :
      read_settings (dsn c)
      ≡ read_from
          (before_value (codes "password"))
          (first_three c)
          (c.password ++ (codes " dbname=" ++ (c.dbname ++ (codes " sslmode=" ++ c.sslmode))))
  unfolding dsn read_settings
  read_from-first_three =
      read_from-setting (codes "host") [] c.host
        (codes "port=" ++ (format_int c.port ++ (codes " user=" ++ (c.user ++ b' ' ∷ rest))))
        plain.host host
      ∙ (read_from-setting (codes "port") ((codes "host", c.host) ∷ []) (format_int c.port)
            (codes "user=" ++ (c.user ++ b' ' ∷ rest)) (format_int-plain c.port)
            (format_int-ne-nil c.port)
          ∙ read_from-setting (codes "user")
              ((codes "host", c.host) ∷ (codes "port", format_int c.port) ∷ []) c.user rest
              plain.user user)

  -- Where no field has blanks, quotes or escapes and none but the mode of SSL is empty, the documented
  -- syntax reads the six fields back from the connection string.
  pub read_settings-dsn :
      c.password ≢ [] → c.dbname ≢ [] → read_settings (dsn c) ≡ some (settings_of c)
  unfolding read_settings
  read_settings-dsn password dbname =
      read_from-first_three
      ∙ (read_from-setting (codes "password") (first_three c) c.password
            (codes "dbname=" ++ (c.dbname ++ (codes " sslmode=" ++ c.sslmode))) plain.password
            password
          ∙ (read_from-setting (codes "dbname")
                (first_three c ++ (codes "password", c.password) ∷ []) c.dbname
                (codes "sslmode=" ++ c.sslmode) plain.dbname dbname
              ∙ read_from-last (codes "sslmode")
                  (first_three c
                    ++ (codes "password", c.password) ∷ (codes "dbname", c.dbname) ∷ [])
                  c.sslmode plain.sslmode))

  -- With an empty password, and a host and a user that are not empty, where no text field has blanks,
  -- quotes or backslashes: the name of the database is read as the password, the other fields are
  -- read back, and no database is named.
  pub read_settings-dsn_without_password :
      c.password ≡ []
      → read_settings (dsn c)
        ≡ some (
            (first_three c)
            ++ (codes "password", codes "dbname=" ++ c.dbname) ∷ (codes "sslmode", c.sslmode) ∷ [])
  unfolding read_settings is_plain
  read_settings-dsn_without_password e =
      read_from-first_three
      ∙ (rw e (
            read_from-setting (codes "password") (first_three c) (codes "dbname=" ++ c.dbname)
              (codes "sslmode=" ++ c.sslmode) plain.dbname (λ h. cc))
          ∙ read_from-last (codes "sslmode")
              (first_three c ++ (codes "password", codes "dbname=" ++ c.dbname) ∷ []) c.sslmode
              plain.sslmode)
