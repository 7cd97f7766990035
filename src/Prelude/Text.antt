-- ===== src/Prelude/Text.antt =====
-- Go strings as lists of bytes, with the functions of package `strings` that the program calls.
use Prim.Native.Nat.{ℕ, ◌+◌, ◌-◌}
use Prim.Native.Char.{code}
use Prim.Native.String.{String}
use mathlib.Core.Path.{◌≡◌, refl}
use mathlib.Core.Logic.{◌↔◌}
use mathlib.Core.Bool.{Bool, true, false, ◌&&◌, ◌||◌}
use mathlib.Core.Option.{Option, none, some}
use mathlib.Core.List.{List, [], ◌∷◌, ◌++◌, map, reverse, reverse-append, reverse-reverse}
use native.Mathlib.Omega.{arith}
use cache_proxyfy.Prelude.Tests.{leb, eqb, if◌then◌else◌, eqb_iff}

abbrev pub Bytes : Type 0
Bytes = List ℕ

-- A literal of the source: its code points, which are its bytes where it is ASCII.
abbrev pub codes : String → Bytes
codes String.[] = []
codes (String.◌∷◌ c s) = code c ∷ codes s

infix 50 ◌==◌
unfoldable pub ◌==◌ : Bytes → Bytes → Bool
[] == [] = true
[] == (_ ∷ _) = false
(_ ∷ _) == [] = false
(x ∷ s) == (y ∷ t) = eqb x y && (s == t)

-- strings.HasPrefix(s, prefix), with the arguments in this order.
unfoldable pub has_prefix : Bytes → Bytes → Bool
has_prefix s [] = true
has_prefix [] (_ ∷ _) = false
has_prefix (x ∷ s) (y ∷ t) = eqb x y && has_prefix s t

unfoldable pub has_suffix : Bytes → Bytes → Bool
unfolding has_prefix
has_suffix s t = has_prefix (reverse s) (reverse t)

-- strings.Contains(s, sub)
unfoldable pub contains : Bytes → Bytes → Bool
contains [] sub = has_prefix [] sub
contains (x ∷ s) sub = has_prefix (x ∷ s) sub || contains s sub

-- The texts before and after the first `c`: the two parts of strings.SplitN(s, c, 2), if there are
-- two.
unfoldable pub cut : ℕ → Bytes → Option (Bytes × Bytes)
cut c [] = none
cut c (x ∷ s) =
    let rest = cut c s in
    if eqb x c then some ([], s) else elim rest [ none ↦ none | some (p, q) ↦ some (x ∷ p, q) ]

-- Drops as many elements as the second list has.
abbrev drop_like : Bytes → Bytes → Bytes
drop_like s [] = s
drop_like [] (_ ∷ _) = []
drop_like (x ∷ s) (_ ∷ t) = drop_like s t

unfoldable pub trim_prefix : Bytes → Bytes → Bytes
unfolding has_prefix
trim_prefix s p = if has_prefix s p then drop_like s p else s

unfoldable pub trim_suffix : Bytes → Bytes → Bytes
trim_suffix s p = reverse (trim_prefix (reverse s) (reverse p))

-- strings.TrimRight(s, c) for a single byte: without the bytes `c` at the end.
unfoldable pub trim_right : ℕ → Bytes → Bytes
trim_right c [] = []
trim_right c (x ∷ s) = let rest = trim_right c s in if eqb x c && (rest == []) then [] else x ∷ rest

-- strings.ToLower and strings.ToUpper on ASCII letters.
unfoldable pub lower : ℕ → ℕ
lower c = if leb b'A' c && leb c b'Z' then c + 32 else c

unfoldable pub upper : ℕ → ℕ
upper c = if leb b'a' c && leb c b'z' then c - 32 else c

unfoldable pub to_lower : Bytes → Bytes
unfolding lower
to_lower = map lower

unfoldable pub to_upper : Bytes → Bytes
unfolding upper
to_upper = map upper

-- The text before the first `c`; none if there is no `c`.
unfoldable pub before : ℕ → Bytes → Option Bytes
before c [] = none
before c (x ∷ s) =
    let rest = before c s in
    if eqb x c then some [] else elim rest [ none ↦ none | some p ↦ some (x ∷ p) ]

-- Puts one byte in front of the first segment.
abbrev push_first : ℕ → List Bytes → List Bytes
push_first x [] = (x ∷ []) ∷ []
push_first x (p ∷ ps) = (x ∷ p) ∷ ps

-- strings.Split(s, c) at a single byte: one segment more than there are `c` in the text.
unfoldable pub split : ℕ → Bytes → List Bytes
split c [] = [] ∷ []
split c (x ∷ s) = let rest = split c s in if eqb x c then [] ∷ rest else push_first x rest

-- Every byte differs from `c`.
unfoldable pub free_of : ℕ → Bytes → Bool
free_of c [] = true
free_of c (x ∷ s) = (if eqb x c then false else true) && free_of c s

-- strings.ReplaceAll of one byte by another.
unfoldable pub replace_byte : ℕ → ℕ → Bytes → Bytes
replace_byte a b [] = []
replace_byte a b (x ∷ s) = (if eqb x a then b else x) ∷ replace_byte a b s

-- strings.Join(parts, c) for a single byte.
unfoldable pub join : ℕ → List Bytes → Bytes
join c [] = []
join c (p ∷ []) = p
join c (p ∷ q ∷ ps) = p ++ c ∷ join c (q ∷ ps)

-- The text after the last `c`, or the whole text.
unfoldable pub after_last : ℕ → Bytes → Bytes
after_last c [] = []
after_last c (x ∷ s) =
    let rest = after_last c s in if eqb x c then rest else if free_of c s then x ∷ s else rest

abbrev pub is_digit : ℕ → Bool
is_digit c = leb b'0' c && leb c b'9'

pub ==_iff : (s t : Bytes) → ((s == t) ≡ true) ↔ (s ≡ t)
unfolding ◌==◌
==_iff [] [] = ground arith
==_iff [] (y ∷ t) = ground arith
==_iff (x ∷ s) [] = ground arith
==_iff (x ∷ s) (y ∷ t) = ground (arith, ==_iff s t)

pub ==_refl : (s : Bytes) → (s == s) ≡ true
==_refl s = (==_iff s s).1 refl

eqb_refl : (x : ℕ) → eqb x x ≡ true
eqb_refl x = (eqb_iff x x).1 refl

pub has_prefix-append : (p s : Bytes) → has_prefix (p ++ s) p ≡ true
unfolding has_prefix
has_prefix-append [] s = refl
has_prefix-append (x ∷ p) s = rw (eqb_refl, has_prefix-append p s)

drop_like-append : (p s : Bytes) → drop_like (p ++ s) p ≡ s
drop_like-append [] s = refl
drop_like-append (x ∷ p) s = drop_like-append p s

-- Trimming a prefix that is there leaves what follows it.
pub trim_prefix-append : (p s : Bytes) → trim_prefix (p ++ s) p ≡ s
unfolding trim_prefix
trim_prefix-append p s = rw has_prefix-append (drop_like-append p s)

pub trim_suffix-append : (s p : Bytes) → trim_suffix (s ++ p) p ≡ s
unfolding trim_suffix
trim_suffix-append s p =
    rw (reverse-append s p, trim_prefix-append (reverse p) (reverse s)) (reverse-reverse s)

split-ne-nil : (c : ℕ) (s : Bytes) → split c s ≡ [] → ⊥
unfolding split
split-ne-nil c [] h = cc
split-ne-nil c (x ∷ s) h = ground (arith, split-ne-nil c s)

join-push_first : (c x : ℕ) (ps : List Bytes) → join c (push_first x ps) ≡ x ∷ join c ps
unfolding join
join-push_first c x [] = refl
join-push_first c x (p ∷ []) = refl
join-push_first c x (p ∷ q ∷ ps) = refl

join-nil-cons : (c : ℕ) (ps : List Bytes) → (ps ≡ [] → ⊥) → join c ([] ∷ ps) ≡ c ∷ join c ps
unfolding join
join-nil-cons c [] h = absurd (h refl)
join-nil-cons c (p ∷ ps) h = refl

-- Joining what was split gives the text back.
pub join-split : (c : ℕ) (s : Bytes) → join c (split c s) ≡ s
unfolding split
join-split c [] = unfold join in refl
join-split c (x ∷ s) = ground (
  arith,
  eqb_iff x c,
  join-split c s,
  join-push_first c x (split c s),
  join-nil-cons c (split c s) (split-ne-nil c s),
)

pub cut-append : (c : ℕ) (p q : Bytes) → free_of c p ≡ true → cut c (p ++ c ∷ q) ≡ some (p, q)
unfolding cut free_of
cut-append c [] q h = ground arith
cut-append c (x ∷ p) q h = ground (arith, cut-append c p q)

pub replace_byte-replace_byte :
    (a b : ℕ) (s : Bytes) → free_of b s ≡ true → replace_byte b a (replace_byte a b s) ≡ s
unfolding replace_byte free_of
replace_byte-replace_byte a b [] h = refl
replace_byte-replace_byte a b (x ∷ s) h = ground (arith, replace_byte-replace_byte a b s)

pub free_of-replace_byte :
    (a b : ℕ) (s : Bytes) → (a ≡ b → ⊥) → free_of a (replace_byte a b s) ≡ true
unfolding replace_byte free_of
free_of-replace_byte a b [] h = refl
free_of-replace_byte a b (x ∷ s) h = ground (arith, free_of-replace_byte a b s)

pub free_of-replace_byte_other :
    (a b c : ℕ) (s : Bytes)
    → (c ≡ b → ⊥)
    → free_of c s ≡ true
    → free_of c (replace_byte a b s) ≡ true
unfolding replace_byte free_of
free_of-replace_byte_other a b c [] h e = refl
free_of-replace_byte_other a b c (x ∷ s) h e = ground (arith, free_of-replace_byte_other a b c s)

pub after_last-free_of : (c : ℕ) (s : Bytes) → free_of c s ≡ true → after_last c s ≡ s
unfolding after_last free_of
after_last-free_of c [] h = refl
after_last-free_of c (x ∷ s) h = ground arith

free_of-append : (c : ℕ) (p s : Bytes) → free_of c (p ++ c ∷ s) ≡ false
unfolding free_of
free_of-append c [] s = ground arith
free_of-append c (x ∷ p) s = ground (arith, free_of-append c p s)

pub after_last-append : (c : ℕ) (p s : Bytes) → free_of c s ≡ true → after_last c (p ++ c ∷ s) ≡ s
unfolding after_last
after_last-append c [] s h = ground (arith, after_last-free_of c s h)
after_last-append c (x ∷ p) s h =
    rw (free_of-append c p s, after_last-append c p s h) (ground arith)

pub has_suffix-append : (s p : Bytes) → has_suffix (s ++ p) p ≡ true
unfolding has_suffix
has_suffix-append s p = rw (reverse-append s p) (has_prefix-append (reverse p) (reverse s))

pub split-free_of : (c : ℕ) (s : Bytes) → free_of c s ≡ true → split c s ≡ s ∷ []
unfolding split free_of
split-free_of c [] h = refl
split-free_of c (x ∷ s) h = ground (arith, split-free_of c s)

push_first-append :
    (x : ℕ) (ps qs : List Bytes) → (ps ≡ [] → ⊥) → push_first x (ps ++ qs) ≡ push_first x ps ++ qs
push_first-append x [] qs h = absurd (h refl)
push_first-append x (p ∷ ps) qs h = refl

pub split-append : (c : ℕ) (s t : Bytes) → split c (s ++ c ∷ t) ≡ split c s ++ split c t
unfolding split
split-append c [] t = ground arith
split-append c (x ∷ s) t =
    ground
      (arith, split-append c s t, push_first-append x (split c s) (split c t) (split-ne-nil c s))
