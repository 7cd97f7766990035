-- ===== src/Security/Checker.antt =====
-- internal/security/checker.go: scanner and policy behind one call.
use cache_proxyfy.Prelude.{Bytes, Bool, Option, none, some, List, [], if◌then◌else◌}
use cache_proxyfy.Security.Advisory.{CveRecord, Outcome, allow}
use cache_proxyfy.Security.Policy.{Policy, new_policy, evaluate}
use cache_proxyfy.Security.Scanner.{
  OsvRequest, OsvReply, ScanError, ScanResult, scanned, failed, scan,
}

pub record Checker : Type 0 where
  pub osv : OsvRequest → OsvReply
  pub policy : Policy
  pub enabled : Bool

unfoldable pub new_checker : (OsvRequest → OsvReply) → Bool → Bytes → Bytes → Checker
new_checker osv enabled block_severity warn_severity = record {
  osv = osv;
  policy = new_policy block_severity warn_severity;
  enabled = enabled;
}

-- The three results of `Check`.
pub record Verdict : Type 0 where
  pub outcome : Outcome
  pub records : List CveRecord
  pub err : Option ScanError

unfoldable pub verdict_of : Policy → ScanResult → Verdict
verdict_of p (failed e) = record { outcome = allow; records = []; err = some e }
verdict_of p (scanned rs) = record { outcome = evaluate p rs; records = rs; err = none }

unfoldable pub check : Checker → Bytes → Bytes → Bytes → Verdict
check c ecosystem name version =
    if c.enabled
    then verdict_of c.policy (scan c.osv ecosystem name version)
    else record { outcome = allow; records = []; err = none }
