-- ===== src/Security/Advisory.antt =====
-- internal/security/advisory.go: severities, CVE records and policy outcomes.
use cache_proxyfy.Prelude.{ℕ, ◌≡◌, refl, Bytes, codes, to_upper, ◌==◌, ◌||◌, if◌then◌else◌}

pub data Severity : Type 0 where
  unknown low medium high critical : Severity

-- The integer behind the constant (`iota`); the code compares severities by it.
abbrev pub rank : Severity → ℕ
rank unknown = 0
rank low = 1
rank medium = 2
rank high = 3
rank critical = 4

unfoldable pub severity_string : Severity → Bytes
severity_string low = codes "LOW"
severity_string medium = codes "MEDIUM"
severity_string high = codes "HIGH"
severity_string critical = codes "CRITICAL"
severity_string unknown = codes "UNKNOWN"

unfoldable pub parse_severity : Bytes → Severity
unfolding to_upper ◌==◌
parse_severity s =
    let u = to_upper s in
    if u == codes "CRITICAL"
    then critical
    else if u == codes "HIGH"
    then high
    else if u == codes "MEDIUM" || u == codes "MODERATE"
    then medium
    else if u == codes "LOW"
    then low
    else unknown

pub record CveRecord : Type 0 where
  pub id : Bytes
  pub summary : Bytes
  pub severity : Severity

pub data Outcome : Type 0 where
  allow warn block : Outcome

-- The integer behind the constant: a greater one is stricter.
abbrev pub strictness : Outcome → ℕ
strictness allow = 0
strictness warn = 1
strictness block = 2

unfoldable pub outcome_string : Outcome → Bytes
outcome_string warn = codes "warn"
outcome_string block = codes "block"
outcome_string allow = codes "allow"

-- A printed severity parses back to itself.
pub parse_severity-severity_string : (s : Severity) → parse_severity (severity_string s) ≡ s
unfolding parse_severity severity_string
parse_severity-severity_string unknown = refl
parse_severity-severity_string low = refl
parse_severity-severity_string medium = refl
parse_severity-severity_string high = refl
parse_severity-severity_string critical = refl
