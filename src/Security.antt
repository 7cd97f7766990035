-- ===== src/Security.antt =====
-- internal/security: severities, the policy, the OSV scanner and the checker that joins them.
pub mod Advisory
pub mod Policy
pub mod Scanner
pub mod Checker
pub mod Thresholds
pub mod Findings
