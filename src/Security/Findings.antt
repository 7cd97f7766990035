-- ===== src/Security/Findings.antt =====
-- What a scan and a check can report.
use cache_proxyfy.Prelude.{
  ℕ, ◌≡◌, refl, ◌⊎◌, inl, inr, Bytes, codes, true, false, ◌&&◌, ◌||◌, none, some, List, [], ◌∷◌,
  arith, if◌then◌else◌, All, eqb, has_prefix, before, free_of, Bool-cases, Option-cases, ◌==◌,
  to_lower, ==_refl,
}
use cache_proxyfy.Security.Advisory.{CveRecord, allow}
use cache_proxyfy.Security.Policy.{Policy}
use cache_proxyfy.Security.Scanner.{
  OsvReply, OsvVuln, ScanResult, scanned, failed, scan, is_unknown, to_record, to_records,
  canonical_version, read_reply, unreachable, response, osv_request_for,
}
use cache_proxyfy.Security.Checker.{Checker, Verdict, verdict_of, check}
use cache_proxyfy.Security.Thresholds.{triggered, evaluate-eq_triggered}

-- A record that a scan may report: one without a severity is not from the Go database.
abbrev pub IsReportable : CveRecord → Type 0
IsReportable r = (is_unknown r.severity && has_prefix r.id (codes "GO-")) ≡ false

to_record-IsReportable : (v : OsvVuln) (r : CveRecord) → to_record v ≡ some r → IsReportable r
unfolding to_record
to_record-IsReportable v r h = ground arith

to_records-IsReportable : (vs : List OsvVuln) → All IsReportable (to_records vs)
unfolding to_records
to_records-IsReportable [] = tt
to_records-IsReportable (v ∷ vs) = elim (Option-cases (to_record v)) [
  | inl e ↦ rw (e, All) (to_records-IsReportable vs)
  | inr (r, e) ↦ rw (e, All) (to_record-IsReportable v r e, to_records-IsReportable vs)
]

-- Every record that a verdict on the result of a scan reports is reportable.
abbrev Reports : ScanResult → Type 0
Reports (scanned rs) = All IsReportable rs
Reports (failed e) = Unit

read_reply-Reports : (reply : OsvReply) → Reports (read_reply reply)
unfolding read_reply
read_reply-Reports unreachable = tt
read_reply-Reports (response status none) = ground arith
read_reply-Reports (response status (some vulns)) = elim (Bool-cases (eqb status 200)) [
  | inl good ↦ rw (good, Reports) (to_records-IsReportable vulns)
  | inr bad ↦ rw (bad, Reports) tt
]

verdict_of-Reports :
    (p : Policy) (r : ScanResult) → Reports r → All IsReportable (verdict_of p r).records
unfolding verdict_of
verdict_of-Reports p (scanned rs) h = h
verdict_of-Reports p (failed e) h = tt

-- Whatever the OSV API replies, no record that the checker reports is a Go-database entry
-- (an identifier that starts with GO-) of unknown severity.
pub check-IsReportable :
    (c : Checker) (ecosystem name version : Bytes)
    → All IsReportable (check c ecosystem name version).records
unfolding check scan
check-IsReportable c ecosystem name version = elim (Bool-cases c.enabled) [
  | inl on ↦ rw on (
      verdict_of-Reports c.policy (scan c.osv ecosystem name version)
        (read_reply-Reports (c.osv (osv_request_for ecosystem name version))))
  | inr off ↦ rw off tt
]

-- A verdict other than Allow has a cause among the reported records.
abbrev HasCause : Policy → Verdict → Type 0
HasCause p v =
    (v.outcome ≡ allow)
    ⊎ ((v.err ≡ none) × ((triggered p.block_at v.records || triggered p.warn_at v.records) ≡ true))

verdict_of-HasCause : (p : Policy) (r : ScanResult) → HasCause p (verdict_of p r)
unfolding verdict_of
verdict_of-HasCause p (failed e) = inl refl
verdict_of-HasCause p (scanned rs) = ground (arith, evaluate-eq_triggered p rs)

-- The outcome is Warn or Block only if scanning is enabled, the scan succeeded, and one of the
-- reported records alone reaches a threshold: every failure of the scan is treated as Allow.
pub check-fails_open :
    (c : Checker) (ecosystem name version : Bytes)
    → ((check c ecosystem name version).outcome ≡ allow)
      ⊎ ((c.enabled ≡ true)
          × ((check c ecosystem name version).err ≡ none)
          × ((triggered c.policy.block_at (check c ecosystem name version).records
                || triggered c.policy.warn_at (check c ecosystem name version).records)
              ≡ true))
unfolding check
check-fails_open c ecosystem name version =
    ground (arith, verdict_of-HasCause c.policy (scan c.osv ecosystem name version))

before-free_of : (c : ℕ) (s p : Bytes) → before c s ≡ some p → free_of c p ≡ true
unfolding before free_of
before-free_of c [] p h = cc
before-free_of c (x ∷ s) [] h = refl
before-free_of c (x ∷ s) (y ∷ p) h = ground (arith, before-free_of c s p)

before-none : (c : ℕ) (s : Bytes) → before c s ≡ none → free_of c s ≡ true
unfolding before free_of
before-none c [] h = refl
before-none c (x ∷ s) h = ground (arith, before-none c s)

-- The version that OSV is asked about: for PyPI, in any case of the letters, it holds no dash,
-- and for another ecosystem it is the version itself.
pub canonical_version-free_of_dash :
    (ecosystem version : Bytes)
    → (if to_lower ecosystem == codes "pypi"
        then free_of b'-' (canonical_version ecosystem version)
        else (canonical_version ecosystem version == version))
      ≡ true
unfolding canonical_version
canonical_version-free_of_dash ecosystem version = elim (Option-cases (before b'-' version)) [
  | inl e ↦ ground (arith, before-none b'-' version e, ==_refl version)
  | inr (p, e) ↦ ground (arith, before-free_of b'-' version p e, ==_refl version)
]
