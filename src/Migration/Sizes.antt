-- ===== src/Migration/Sizes.antt =====
-- cmd/migrate/main.go, `formatBytes`: the scale of a size. The sizes are those of rows, which are not
-- negative.
use cache_proxyfy.Prelude.{
  ℕ, zero, suc, ◌+◌, ◌*◌, ◌/◌, ◌%◌, ◌^◌, ◌<◌, ◌≤◌, ◌≡◌, Bytes, codes, Option, none, some, [], ◌∷◌,
  arith, ltb, leb, if◌then◌else◌, inl, inr, Bool-cases, refl, ap, sym, subst, ◌∙◌,
}
use native.Mathlib.Nat.{pow-succ'}
use cache_proxyfy.Prelude.Integers.{mul64, sign_bit}

-- What is printed: the size itself, or the quotient by `div` with the letter of the unit.
pub data Size : Type 0 where
  whole : ℕ → Size
  scaled : (div letter : ℕ) → Size

-- The loop, for so many rounds; none where it would go on.
unfoldable pub scale : ℕ → ℕ → ℕ → ℕ → Option (ℕ × ℕ)
scale zero n div exp = none
scale (suc fuel) n div exp =
    let rest = scale fuel (n / 1024) (mul64 div 1024) (suc exp) in
    if leb 1024 n then rest else some (div, exp)

-- "KMGTPE"[exp], which panics behind the end.
unfoldable pub unit_letter : Bytes → ℕ → Option ℕ
unit_letter [] exp = none
unit_letter (c ∷ s) zero = some c
unit_letter (c ∷ s) (suc exp) = unit_letter s exp

-- None where the loop goes on for more than 64 rounds, or the letter is missing.
unfoldable pub format_bytes : ℕ → Option Size
format_bytes b = if ltb b 1024 then some (whole b) else elim (scale 64 (b / 1024) 1024 0) [
  | none ↦ none
  | some (div, exp) ↦ elim (unit_letter (codes "KMGTPE") exp) [
    | none ↦ none
    | some c ↦ some (scaled div c)
  ]
]

scale_stop : (fuel n div exp : ℕ) → n < 1024 → scale (suc fuel) n div exp ≡ some (div, exp)
unfolding scale
scale_stop fuel n div exp h = ground arith

scale_next :
    (fuel n div exp : ℕ)
    → 1024 ≤ n
    → scale (suc fuel) n div exp ≡ scale fuel (n / 1024) (mul64 div 1024) (suc exp)
unfolding scale
scale_next fuel n div exp h = ground arith

-- A scale of the size: a power of 1024 that is at most the size, and whose next one is not.
abbrev pub IsScale : ℕ → ℕ → ℕ → Type 0
IsScale b div exp = (exp < 6) × (div ≡ 1024 ^ suc exp) × (div ≤ b) × (b < 1024 * div)

split_1024 : (n : ℕ) → n ≡ 1024 * (n / 1024) + n % 1024
split_1024 n = omega arith

distribute : (d q r : ℕ) → d * (1024 * q + r) ≡ 1024 * d * q + d * r
distribute d q r = grind arith

div_mod_product : (d n : ℕ) → d * n ≡ 1024 * d * (n / 1024) + d * (n % 1024)
div_mod_product d n = ap (λ (x : ℕ). d * x) (split_1024 n) ∙ distribute d (n / 1024) (n % 1024)

le_product : (d n : ℕ) → 1024 ≤ n → 1024 * d ≤ d * n
le_product d n h = grind arith

mod_product : (d n : ℕ) → d * (n % 1024) + d ≤ 1024 * d
mod_product d n = grind arith

pow_next : (r : ℕ) → 1024 ^ suc r ≡ 1024 * 1024 ^ r
pow_next r = pow-succ' 1024 r

regroup : (p d : ℕ) → 1024 * p * (8 * d) ≡ p * (8 * (1024 * d))
regroup p d = grind arith

pow_shift : (r d : ℕ) → 1024 ^ suc r * (8 * d) ≡ 1024 ^ r * (8 * (1024 * d))
pow_shift r d = ap (λ (x : ℕ). x * (8 * d)) (pow_next r) ∙ regroup (1024 ^ r) d

product_low : (d n : ℕ) → 1 ≤ n → d ≤ d * n
product_low d n h = grind arith

product_high : (d n : ℕ) → n < 1024 → d * n + d ≤ 1024 * d
product_high d n h = grind arith

-- The loop stands at `n` units of `div`, with `r` greater units to come.
abbrev IsAt : ℕ → ℕ → ℕ → ℕ → ℕ → Type 0
IsAt r b n div exp =
    (exp + r ≡ 5)
    × (div ≡ 1024 ^ suc exp)
    × (1 ≤ n)
    × (div * n ≤ b)
    × (b < div * n + div)
    × (b < 1024 ^ r * (8 * div))

IsAt-next :
    (r b n div exp : ℕ)
    → b < sign_bit
    → 1024 ≤ n
    → IsAt (suc r) b n div exp
    → IsAt r b (n / 1024) (mul64 div 1024) (suc exp)
IsAt-next r b n div exp range h (room, power, low, at, above, small) = rw wide (
  omega arith,
  ap (λ (x : ℕ). 1024 * x) power ∙ sym (pow_next (suc exp)),
  omega arith,
  omega (arith, div_mod_product div n),
  omega (arith, div_mod_product div n, mod_product div n),
  omega (arith, pow_shift r div),
)
  where
    wide : mul64 div 1024 ≡ 1024 * div
    wide = omega (arith, le_product div n h)

more_room : (r b n div exp : ℕ) → 1024 ≤ n → IsAt r b n div exp → (q : ℕ) × (r ≡ suc q)
more_room zero b n div exp h (room, power, low, at, above, small) =
    absurd (omega (arith, le_product div n h))
more_room (suc q) b n div exp h s = (q, refl)

-- The loop ends in time, at a scale.
scale-IsScale :
    (r fuel b n div exp : ℕ)
    → b < sign_bit
    → r < fuel
    → IsAt r b n div exp
    → (d : ℕ) × (e : ℕ) × (scale fuel n div exp ≡ some (d, e)) × IsScale b d e
scale-IsScale r zero b n div exp range enough s = absurd (omega arith)
scale-IsScale r (suc fuel) b n div exp range enough s = elim (Bool-cases (ltb n 1024)) [
  | inl e ↦
      let (room, power, low, at, above, small) = s in
      (
        div,
        exp,
        scale_stop fuel n div exp (ground arith),
        (
          omega arith,
          power,
          omega (arith, product_low div n low),
          omega (arith, product_high div n (ground arith)),
        ),
      )
  | inr e ↦
      let (q, room) = more_room r b n div exp (ground arith) s in
      let (d, f, found, is_scale) =
        scale-IsScale q fuel b (n / 1024) (mul64 div 1024) (suc exp) range (omega (arith, room))
          (IsAt-next q b n div exp range (ground arith) (subst (λ r. IsAt r b n div exp) room s)) in
      (d, f, scale_next fuel n div exp (ground arith) ∙ found, is_scale)
]

letter_of : (exp : ℕ) → exp < 6 → (c : ℕ) × (unit_letter (codes "KMGTPE") exp ≡ some c)
unfolding unit_letter
letter_of zero h = (b'K', refl)
letter_of (suc zero) h = (b'M', refl)
letter_of (suc (suc zero)) h = (b'G', refl)
letter_of (suc (suc (suc zero))) h = (b'T', refl)
letter_of (suc (suc (suc (suc zero)))) h = (b'P', refl)
letter_of (suc (suc (suc (suc (suc zero))))) h = (b'E', refl)
letter_of (suc (suc (suc (suc (suc (suc n)))))) h = absurd (omega arith)

-- A size of at least 1024 below 2 ^ 63 is printed in units of a power of 1024 that is at most the size
-- and whose next one is above it, with one of the six letters: the loop ends, `div` does not wrap
-- around, and the index stays below the end of the letters.
pub format_bytes-scaled :
    (b : ℕ)
    → 1024 ≤ b
    → b < sign_bit
    → (div : ℕ) × (exp : ℕ) × (c : ℕ) × (format_bytes b ≡ some (scaled div c))
      × (unit_letter (codes "KMGTPE") exp ≡ some c)
      × IsScale b div exp
unfolding format_bytes
format_bytes-scaled b h range =
    let (div, exp, found, is_scale) =
      scale-IsScale 5 64 b (b / 1024) 1024 0 range (omega arith)
        (refl, refl, omega arith, omega arith, omega arith, omega arith) in
    let (c, letter) = letter_of exp is_scale.0 in
    (div, exp, c, ground (arith, found, letter), letter, is_scale)
