-- ===== src/Security/Policy.antt =====
-- internal/security/policy.go: the strictest outcome that the records of a package trigger.
use cache_proxyfy.Prelude.{Bytes, Bool, ◌&&◌, List, [], ◌∷◌, ltb, leb, if◌then◌else◌}
use cache_proxyfy.Security.Advisory.{
  Severity, unknown, rank, CveRecord, Outcome, allow, warn, block, parse_severity,
}

pub record Policy : Type 0 where
  pub block_at : Severity
  pub warn_at : Severity

unfoldable pub new_policy : Bytes → Bytes → Policy
unfolding parse_severity
new_policy block_severity warn_severity = record {
  block_at = parse_severity block_severity;
  warn_at = parse_severity warn_severity;
}

-- The loop of `Evaluate`, from the greatest severity so far.
unfoldable pub max_severity : Severity → List CveRecord → Severity
max_severity m [] = m
max_severity m (r ∷ rs) = max_severity (if ltb (rank m) (rank r.severity) then r.severity else m) rs

-- A threshold that is unknown is switched off.
abbrev pub reaches : Severity → Severity → Bool
reaches threshold m = ltb (rank unknown) (rank threshold) && leb (rank threshold) (rank m)

unfoldable pub evaluate : Policy → List CveRecord → Outcome
unfolding max_severity
evaluate p [] = allow
evaluate p (r ∷ rs) =
    let m = max_severity unknown (r ∷ rs) in
    if reaches p.block_at m then block else if reaches p.warn_at m then warn else allow
