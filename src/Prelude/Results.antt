-- ===== src/Prelude/Results.antt =====
-- Fallible results, and scripts of faults: what the next calls to an outside service meet.
use mathlib.Core.Path.{◌≡◌, refl}
use mathlib.Core.Logic.{◌⊎◌, inl, inr}
use mathlib.Core.Bool.{Bool, true, false}
use mathlib.Core.List.{List, [], ◌∷◌}

pub data Result {ℓ} (E A : Type ℓ) : Type ℓ where
  ok : A → Result E A
  err : E → Result E A

abbrev pub is_ok {ℓ} : {E A : Type ℓ} → Result E A → Bool
is_ok (ok a) = true
is_ok (err e) = false

-- For each coming call whether it fails; past the end of the script no call fails.
abbrev pub Script : Type 0
Script = List Bool

abbrev pub fails : Script → Bool
fails [] = false
fails (b ∷ s) = b

abbrev pub later : Script → Script
later [] = []
later (b ∷ s) = s

pub Result-cases {ℓ} :
    {E A : Type ℓ} (r : Result E A) → ((a : A) × (r ≡ ok a)) ⊎ ((e : E) × (r ≡ err e))
Result-cases (ok a) = inl (a, refl)
Result-cases (err e) = inr (e, refl)
