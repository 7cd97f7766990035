-- ===== src/Security/Scanner.antt =====
-- internal/security/scanner.go: what is asked of the OSV API and how its reply becomes records.
-- The transport is a parameter: a function from requests to replies. The JSON codec of the
-- standard library stands between the reply's body and `OsvVuln`.
use cache_proxyfy.Prelude.{
  ℕ, ◌+◌, Bytes, codes, Bool, true, false, ◌&&◌, ◌||◌, Option, none, some, List, [], ◌∷◌, ltb, leb,
  eqb, if◌then◌else◌, get_or, ◌==◌, has_prefix, to_lower, to_upper, before, split,
}
use cache_proxyfy.Security.Advisory.{
  Severity, unknown, low, medium, high, critical, CveRecord, parse_severity,
}

-- `any` in a decoded JSON object: only strings are looked at.
pub data Any : Type 0 where
  text : Bytes → Any
  other : Any

pub record OsvRequest : Type 0 where
  pub name : Bytes
  pub ecosystem : Bytes
  pub version : Bytes

pub record OsvSeverity : Type 0 where
  pub type : Bytes
  pub score : Bytes

pub record OsvVuln : Type 0 where
  pub id : Bytes
  pub summary : Bytes
  pub db_specific : List (Bytes × Any)
  pub severity : List OsvSeverity

-- The HTTP exchange: no response at all, or a status and a body, which may not decode.
pub data OsvReply : Type 0 where
  unreachable : OsvReply
  response : ℕ → Option (List OsvVuln) → OsvReply

pub data ScanError : Type 0 where
  osv_request : ScanError
  osv_returned : ℕ → ScanError
  decode : ScanError

pub data ScanResult : Type 0 where
  scanned : List CveRecord → ScanResult
  failed : ScanError → ScanResult

unfoldable pub ecosystem_map : Bytes → Option Bytes
unfolding ◌==◌
ecosystem_map e =
    if e == codes "npm"
    then some (codes "npm")
    else if e == codes "pypi"
    then some (codes "PyPI")
    else if e == codes "maven"
    then some (codes "Maven")
    else if e == codes "go"
    then some (codes "Go")
    else none

unfoldable pub canonical_version : Bytes → Bytes → Bytes
unfolding to_lower ◌==◌ before
canonical_version ecosystem version =
    if to_lower ecosystem == codes "pypi" then get_or (before b'-' version) version else version

abbrev is_high : Bytes → Bool
is_high part = part == codes "C:H" || part == codes "I:H" || part == codes "A:H"

abbrev is_low : Bytes → Bool
is_low part = part == codes "C:L" || part == codes "I:L" || part == codes "A:L"

-- How many parts of the vector pass a test.
abbrev pub count_parts : (Bytes → Bool) → List Bytes → ℕ
count_parts p [] = 0
count_parts p (x ∷ xs) = (if p x then 1 else 0) + count_parts p xs

unfoldable pub severity_from_cvss_vector : Bytes → Severity
unfolding split ◌==◌
severity_from_cvss_vector vector =
    let parts = split b'/' vector in
    let high_count = count_parts is_high parts in
    let low_count = count_parts is_low parts in
    if leb 2 high_count
    then critical
    else if eqb high_count 1
    then high
    else if ltb 0 low_count
    then medium
    else low

-- The loop over `v.Severity`: the first CVSS entry decides.
unfoldable pub first_cvss : List OsvSeverity → Severity
first_cvss [] = unknown
first_cvss (sv ∷ svs) =
    if has_prefix sv.type (codes "CVSS") then severity_from_cvss_vector sv.score else first_cvss svs

-- `v.DBSpecific["severity"].(string)`; a missing key is `nil`, which is no string.
unfoldable pub db_severity : List (Bytes × Any) → Option Bytes
unfolding ◌==◌
db_severity [] = none
db_severity ((k, v) ∷ rest) =
    if k == codes "severity" then elim v [ text s ↦ some s | other ↦ none ] else db_severity rest

-- The severity of one entry; none if the entry is skipped as "NONE".
unfoldable pub vuln_severity : OsvVuln → Option Severity
vuln_severity v = elim (db_severity v.db_specific) [
  | some s ↦ if to_upper s == codes "NONE" then none else some (parse_severity s)
  | none ↦ some (first_cvss v.severity)
]

abbrev pub is_unknown : Severity → Bool
is_unknown unknown = true
is_unknown _ = false

-- One round of the loop over `result.Vulns`: the record that is appended, if one is.
unfoldable pub to_record : OsvVuln → Option CveRecord
to_record v = elim (vuln_severity v) [
  | none ↦ none
  | some sev ↦
      if is_unknown sev && has_prefix v.id (codes "GO-")
      then none
      else some (record { id = v.id; summary = v.summary; severity = sev })
]

unfoldable pub to_records : List OsvVuln → List CveRecord
to_records [] = []
to_records (v ∷ vs) =
    let rest = to_records vs in elim (to_record v) [ none ↦ rest | some r ↦ r ∷ rest ]

unfoldable pub osv_request_for : Bytes → Bytes → Bytes → OsvRequest
osv_request_for ecosystem name version = record {
  name = name;
  ecosystem = get_or (ecosystem_map (to_lower ecosystem)) ecosystem;
  version = canonical_version ecosystem version;
}

-- What `Scan` makes of the HTTP exchange.
unfoldable pub read_reply : OsvReply → ScanResult
read_reply unreachable = failed osv_request
read_reply (response status none) =
    if eqb status 200 then failed decode else failed (osv_returned status)
read_reply (response status (some vulns)) =
    if eqb status 200 then scanned (to_records vulns) else failed (osv_returned status)

unfoldable pub scan : (OsvRequest → OsvReply) → Bytes → Bytes → Bytes → ScanResult
scan osv ecosystem name version = read_reply (osv (osv_request_for ecosystem name version))
