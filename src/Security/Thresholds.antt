-- ===== src/Security/Thresholds.antt =====
-- What `Evaluate` decides, stated record by record.
use mathlib.Core.List.{Perm, Permᴰ}
use mathlib.Core.Logic.{∥∥₁_elim}
use cache_proxyfy.Prelude.{
  ◌≤◌, ◌≡◌, refl, ◌∙◌, Bool, true, false, ◌||◌, List, [], ◌∷◌, ◌++◌, arith, ltb, any, if◌then◌else◌,
}
use cache_proxyfy.Security.Advisory.{
  Severity, unknown, low, medium, high, critical, rank, CveRecord, Outcome, allow, warn, block,
  strictness,
}
use cache_proxyfy.Security.Policy.{Policy, max_severity, reaches, evaluate}

-- Which severity sets off a threshold, case by case: one at least as severe, and none where the
-- threshold is unknown.
unfoldable pub sets_off : Severity → Severity → Bool
sets_off unknown s = false
sets_off low unknown = false
sets_off low low = true
sets_off low medium = true
sets_off low high = true
sets_off low critical = true
sets_off medium unknown = false
sets_off medium low = false
sets_off medium medium = true
sets_off medium high = true
sets_off medium critical = true
sets_off high unknown = false
sets_off high low = false
sets_off high medium = false
sets_off high high = true
sets_off high critical = true
sets_off critical unknown = false
sets_off critical low = false
sets_off critical medium = false
sets_off critical high = false
sets_off critical critical = true

reaches-sets_off : (t s : Severity) → reaches t s ≡ sets_off t s
unfolding sets_off
reaches-sets_off unknown s = refl
reaches-sets_off low s = ground arith
reaches-sets_off medium s = ground arith
reaches-sets_off high s = ground arith
reaches-sets_off critical s = ground arith

-- Some record alone sets off the threshold.
abbrev pub triggered : Severity → List CveRecord → Bool
triggered t rs = any (λ r. sets_off t r.severity) rs

reaches-max_severity :
    (t m : Severity) (rs : List CveRecord)
    → reaches t (max_severity m rs) ≡ (reaches t m || triggered t rs)
unfolding max_severity
reaches-max_severity t m [] = ground arith
reaches-max_severity t m (r ∷ rs) = ground (
  arith,
  reaches-sets_off t r.severity,
  reaches-max_severity t (if ltb (rank m) (rank r.severity) then r.severity else m) rs,
)

-- The outcome is Block exactly when some single record is at least as severe as a block threshold
-- that is not unknown, else Warn exactly when some record is at least as severe as such a warn
-- threshold, else Allow.
pub evaluate-eq_triggered :
    (p : Policy) (rs : List CveRecord)
    → evaluate p rs
      ≡ (if triggered p.block_at rs then block else if triggered p.warn_at rs then warn else allow)
unfolding evaluate
evaluate-eq_triggered p [] = refl
evaluate-eq_triggered p (r ∷ rs) = ground (
  arith,
  reaches-max_severity p.block_at unknown (r ∷ rs),
  reaches-max_severity p.warn_at unknown (r ∷ rs),
)

Outcome-set : IsSet Outcome
Outcome-set = hlevel

triggered-append :
    (t : Severity) (rs qs : List CveRecord)
    → triggered t (rs ++ qs) ≡ (triggered t rs || triggered t qs)
triggered-append t [] qs = refl
triggered-append t (r ∷ rs) qs = ground (arith, triggered-append t rs qs)

-- More records never make the outcome milder.
pub evaluate_mono :
    (p : Policy) (rs qs : List CveRecord)
    → strictness (evaluate p rs) ≤ strictness (evaluate p (rs ++ qs))
evaluate_mono p rs qs = ground (
  arith,
  evaluate-eq_triggered p rs,
  evaluate-eq_triggered p (rs ++ qs),
  triggered-append p.block_at rs qs,
  triggered-append p.warn_at rs qs,
)

or_swap : (x y z : Bool) → (x || (y || z)) ≡ (y || (x || z))
or_swap x y z = ground arith

triggered-Permᴰ :
    (t : Severity) {rs qs : List CveRecord} → Permᴰ rs qs → triggered t rs ≡ triggered t qs
triggered-Permᴰ t Permᴰ.nil = refl
triggered-Permᴰ t (Permᴰ.cons e h) = cc (e, triggered-Permᴰ t h)
triggered-Permᴰ t (Permᴰ.swap {a} {b} {l = l} e f) =
    rw (← e, ← f) (or_swap (sets_off t a.severity) (sets_off t b.severity) (triggered t l))
triggered-Permᴰ t (Permᴰ.trans h k) = triggered-Permᴰ t h ∙ triggered-Permᴰ t k

-- The outcome does not depend on the order in which the database lists the records.
pub evaluate-perm :
    (p : Policy) (rs qs : List CveRecord) → Perm rs qs → evaluate p rs ≡ evaluate p qs
evaluate-perm p rs qs h = ∥∥₁_elim h (Outcome-set _ _) λ d. cc (
  evaluate-eq_triggered p rs,
  evaluate-eq_triggered p qs,
  triggered-Permᴰ p.block_at d,
  triggered-Permᴰ p.warn_at d,
)
