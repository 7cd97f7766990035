-- ===== src/Migration.antt =====
-- cmd/migrate/main.go: the tool that copies the artifacts of cached packages into S3, with its pool
-- of workers as steps. The tool is alone on the store and on the bucket, and a worker's `Put` is one
-- step: workers never hold the same checksum.
pub mod Work
pub mod Pool
pub mod Sums
pub mod Counting
pub mod Ending
pub mod Handing
pub mod Copies
pub mod Sizes
pub mod Start
pub mod Switch
pub mod Prefixes
pub mod DryRun
pub mod Complete
use cache_proxyfy.Prelude.{
  ℕ, ◌+◌, Bytes, Bool, true, false, not, ◌&&◌, ◌==◌, List, [], ◌∷◌, any, if◌then◌else◌,
}
use cache_proxyfy.Db.Schema.{PackageKey, Package}
use cache_proxyfy.Db.Listing.{is_cached}

-- `entry`: its label is the key of the package that is printed.
pub record Entry : Type 0 where
  pub checksum : Bytes
  pub size_bytes : ℕ
  pub label : PackageKey

abbrev pub entry_of : Package → Entry
entry_of r = record { checksum = r.checksum; size_bytes = r.size_bytes; label = r.key }

-- The map `seen` has the checksum.
abbrev pub is_seen : Bytes → List Bytes → Bool
is_seen checksum seen = any (λ s. s == checksum) seen

-- A cached package with a checksum that is new.
abbrev pub is_wanted : List Bytes → Package → Bool
is_wanted seen r = is_cached r.status && not (r.checksum == []) && not (is_seen r.checksum seen)

-- The loop over the packages, with the checksums seen so far.
unfoldable pub collect : List Bytes → List Package → List Entry
collect seen [] = []
collect seen (r ∷ rs) =
    let wanted = is_wanted seen r in
    let rest = collect (if wanted then r.checksum ∷ seen else seen) rs in
    if wanted then entry_of r ∷ rest else rest

-- What the tool does with an entry.
pub data Outcome : Type 0 where
  uploaded skipped not_found failed : Outcome
