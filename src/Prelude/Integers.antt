-- ===== src/Prelude/Integers.antt =====
-- Signed 64-bit integers as bit patterns below 2 ^ 64, and what strconv.Atoi makes of a text.
use Prim.Native.Nat.{ℕ, ◌+◌, ◌-◌, ◌*◌, ◌%◌, ◌^◌, ◌<◌}
use mathlib.Core.Path.{◌≡◌}
use mathlib.Core.Bool.{Bool, ◌&&◌}
use mathlib.Core.Option.{Option, none, some}
use mathlib.Core.List.{[], ◌∷◌}
use native.Mathlib.Omega.{arith}
use cache_proxyfy.Prelude.Tests.{ltb, eqb, if◌then◌else◌}
use cache_proxyfy.Prelude.Text.{Bytes, is_digit}

abbrev pub int_mod : ℕ
int_mod = 2 ^ 64

abbrev pub sign_bit : ℕ
sign_bit = 2 ^ 63

-- int64 products and powers of two wrap around.
abbrev pub mul64 : ℕ → ℕ → ℕ
mul64 a b = a * b % int_mod

-- a < b on signed values: flipping the sign bit makes the order that of the patterns.
abbrev pub signed_lt : ℕ → ℕ → Bool
signed_lt a b = ltb ((a + sign_bit) % int_mod) ((b + sign_bit) % int_mod)

-- The value of a text of digits, with the digits read so far.
unfoldable pub digits_from : ℕ → Bytes → Option ℕ
digits_from n [] = some n
digits_from n (c ∷ s) =
    let rest = digits_from (n * 10 + (c - 48)) s in if is_digit c then rest else none

abbrev unsigned : Bytes → Option ℕ
unsigned [] = none
unsigned (c ∷ s) = digits_from 0 (c ∷ s)

-- Out of range is an error of Atoi.
abbrev in_range : Option ℕ → Option ℕ
in_range none = none
in_range (some n) = if ltb 0 n && ltb n sign_bit then some n else none

-- `n, err := strconv.Atoi(s)` where `err == nil && n > 0`; a text with a minus sign is never that.
unfoldable pub positive_int : Bytes → Option ℕ
positive_int [] = none
positive_int (c ∷ s) = if eqb c b'+' then in_range (unsigned s) else in_range (unsigned (c ∷ s))

pub positive_int-range : (s : Bytes) (n : ℕ) → positive_int s ≡ some n → (0 < n) × (n < sign_bit)
unfolding positive_int
positive_int-range [] n h = absurd (ground arith)
positive_int-range (c ∷ s) n h = ground arith

-- Signed values where nothing wraps around: `negsuc n` is -(n + 1).
pub data ℤ : Type 0 where
  pos : ℕ → ℤ
  negsuc : ℕ → ℤ
