-- ===== src/Db/Connection.antt =====
-- internal/db/db.go, `DSN`: the connection string.
pub mod Reading
use cache_proxyfy.Prelude.{
  ℕ, zero, suc, ◌+◌, ◌-◌, ◌/◌, ◌%◌, ◌^◌, ◌≤◌, ◌<◌, ◌≡◌, ◌≢◌, refl, sym, ap, ◌∙◌, Bytes, codes, Bool,
  true, false, not, ◌&&◌, ◌||◌, Option, none, some, List, [], ◌∷◌, ◌++◌, append-nil, append_assoc,
  arith, ltb, eqb, if◌then◌else◌, Bool-cases, inl, inr,
}
use cache_proxyfy.Prelude.Integers.{sign_bit}
use cache_proxyfy.Config.{DatabaseConfig}

-- The decimal digits, in at most as many rounds as are given and one more.
unfoldable pub decimal : ℕ → ℕ → Bytes
decimal zero n = (b'0' + n % 10) ∷ []
decimal (suc rounds) n =
    let front = decimal rounds (n / 10) in
    if ltb n 10 then (b'0' + n) ∷ [] else front ++ (b'0' + n % 10) ∷ []

-- `%d` of an int: 20 digits are enough for 64 bits.
unfoldable pub format_int : ℕ → Bytes
format_int n = if ltb n sign_bit then decimal 19 n else b'-' ∷ decimal 19 (2 ^ 64 - n)

unfoldable pub dsn : DatabaseConfig → Bytes
dsn c =
    codes "host="
    ++ (c.host
        ++ (codes " port="
            ++ (format_int c.port
                ++ (codes " user="
                    ++ (c.user
                        ++ (codes " password="
                            ++ (c.password
                                ++ (codes " dbname="
                                    ++ (c.dbname ++ (codes " sslmode=" ++ c.sslmode))))))))))
