-- ===== src/Migration/Copies/Faithful.antt =====
-- What the migration tool keeps to in the bucket, and what one worker's end of an entry does to it.
use cache_proxyfy.Prelude.{
  ℕ, ◌≡◌, inl, inr, Bytes, Bool, true, false, ◌&&◌, ◌==◌, ==_iff, List, [], ◌∷◌, any, eqb, arith,
  if◌then◌else◌, Bool-cases, Option, none, some,
}
use cache_proxyfy.Storage.Backend.{StorageBackend}
use cache_proxyfy.Storage.ObjectStore.{ObjectStore}
use cache_proxyfy.Storage.S3.{key}
use cache_proxyfy.Migration.{Entry, Outcome, uploaded, skipped, not_found, failed}
use cache_proxyfy.Migration.Pool.{
  Worker, idle, taken, checked, loaded, set_worker, Line, Job, P, note,
}
use cache_proxyfy.Migration.Handing.{carries, is_done, IsApart, keep-IsApart, note-IsApart}

abbrev pub is_some : Option Bytes → Bool
is_some none = false
is_some (some b) = true

abbrev pub is_outcome : Outcome → Outcome → Bool
is_outcome uploaded uploaded = true
is_outcome skipped skipped = true
is_outcome not_found not_found = true
is_outcome failed failed = true
is_outcome _ _ = false

-- There is a line of output with that checksum and outcome.
abbrev pub was : Outcome → Bytes → List Line → Bool
was o k lines = any (λ l. (l.checksum == k) && is_outcome o l.outcome) lines

was-is_done :
    (o : Outcome) (k : Bytes) (lines : List Line) → was o k lines ≡ true → is_done k lines ≡ true
was-is_done o k [] h = absurd (ground arith)
was-is_done o k (l ∷ lines) h = ground (arith, was-is_done o k lines)

-- What a worker knows of its entry: S3 did not have it, and the local store has its content.
unfoldable pub Knows : (Bytes → Option Bytes) → (Bytes → Option Bytes) → Worker → Type 0
Knows local remote idle = Unit
Knows local remote (taken e) = Unit
Knows local remote (checked e) = remote e.checksum ≡ none
Knows local remote (loaded e b) = (remote e.checksum ≡ none) × (local e.checksum ≡ some b)

module _ (store : ObjectStore) (source : StorageBackend) (job : Job) where
  abbrev pub object : P store source job → Bytes → Option Bytes
  object p k = store.object p.client job.target.bucket (key job.target k)

  abbrev pub local : P store source job → Bytes → Option Bytes
  local p k = source.holds p.disk k

  -- `s` is the pool at the start.
  pub record IsFaithful (s p : P store source job) : Type 0 where
    pub apart : IsApart job.workers s.queue p.queue p.workers p.lines
    pub disk_same : (k : Bytes) → local p k ≡ local s k
    pub bucket :
        (k : Bytes) → object p k ≡ (if was uploaded k p.lines then local s k else object s k)
    pub knows : (i : ℕ) → Knows (local s) (object s) (p.workers i)
    pub was_uploaded :
        (k : Bytes)
        → was uploaded k p.lines ≡ true
        → (object s k ≡ none) × (is_some (local s k) ≡ true)
    pub was_skipped : (k : Bytes) → was skipped k p.lines ≡ true → is_some (object s k) ≡ true
    pub was_not_found :
        (k : Bytes) → was not_found k p.lines ≡ true → (object s k ≡ none) × (local s k ≡ none)

-- What an outcome says about the local store and the bucket at the start.
abbrev pub Right : Option Bytes → Option Bytes → Outcome → Type 0
Right local remote uploaded = (remote ≡ none) × (is_some local ≡ true)
Right local remote skipped = is_some remote ≡ true
Right local remote not_found = (remote ≡ none) × (local ≡ none)
Right local remote failed = Unit

pub Knows-set :
    (local remote : Bytes → Option Bytes) (i : ℕ) (w : Worker) (workers : ℕ → Worker)
    → Knows local remote w
    → ((j : ℕ) → Knows local remote (workers j))
    → (j : ℕ) → Knows local remote (set_worker i w workers j)
Knows-set local remote i w workers h hs j =
    elim (eqb i j) as (λ b. Knows local remote (if b then w else workers j)) [
      | true ↦ h
      | false ↦ hs j
    ]

-- What has to hold for an outcome to be right.
abbrev pub Fits : Option Bytes → Option Bytes → Outcome → Type 0
Fits local remote o =
    (is_outcome uploaded o ≡ true → (remote ≡ none) × (is_some local ≡ true))
    × (is_outcome skipped o ≡ true → is_some remote ≡ true)
    × (is_outcome not_found o ≡ true → (remote ≡ none) × (local ≡ none))

module _ (store : ObjectStore) (source : StorageBackend) (job : Job) (s : P store source job) where
  abbrev F : P store source job → Type 0
  F = IsFaithful store source job s

  abbrev there : P store source job → Bytes → Option Bytes
  there = object store source job

  abbrev here_at : P store source job → Bytes → Option Bytes
  here_at = local store source job

  module _ (i : ℕ) (e : Entry) (p : P store source job) (c : store.Client) (d : source.State)
      (f : F p) (same : (k : Bytes) → carries k (p.workers i) ≡ (e.checksum == k))
      (disk : (k : Bytes) → source.holds d k ≡ here_at p k) where
    abbrev q : P store source job
    q = record p { client = c; disk = d }

    pub note-IsFaithful :
        (o : Outcome)
        → ((k : Bytes)
            → store.object c job.target.bucket (key job.target k)
              ≡ (if is_outcome uploaded o && (e.checksum == k) then here_at s k else there p k))
        → Fits (here_at s e.checksum) (there s e.checksum) o
        → F (note store source job i e o q)
    unfolding Knows
    note-IsFaithful o h (up, skip, missing) = record {
      apart = note-IsApart job.workers s.queue i e o p.queue p.workers p.lines same f.apart;
      disk_same = λ k. ground (arith, disk k, f.disk_same k);
      bucket = λ k. ground (arith, h k, f.bucket k);
      knows = Knows-set (here_at s) (there s) i idle p.workers tt f.knows;
      was_uploaded = λ k w. ground (arith, ==_iff e.checksum k, f.was_uploaded k, up);
      was_skipped = λ k w. ground (arith, ==_iff e.checksum k, f.was_skipped k, skip);
      was_not_found = λ k w. ground (arith, ==_iff e.checksum k, f.was_not_found k, missing);
    }

    pub keep-IsFaithful :
        (w : Worker)
        → ((k : Bytes) → carries k w ≡ carries k (p.workers i))
        → Knows (here_at s) (there s) w
        → ((k : Bytes) → store.object c job.target.bucket (key job.target k) ≡ there p k)
        → F (record q { workers = set_worker i w p.workers })
    keep-IsFaithful w keeps known h = record {
      apart = keep-IsApart job.workers s.queue i w p.queue p.workers p.lines keeps f.apart;
      disk_same = λ k. ground (arith, disk k, f.disk_same k);
      bucket = λ k. ground (arith, h k, f.bucket k);
      knows = Knows-set (here_at s) (there s) i w p.workers known f.knows;
      was_uploaded = f.was_uploaded;
      was_skipped = f.was_skipped;
      was_not_found = f.was_not_found;
    }

  -- What the bucket holds of an entry that is not done is what it held at the start.
  not_done-object :
      (p : P store source job) (k : Bytes) → F p → is_done k p.lines ≡ false → there p k ≡ there s k
  not_done-object p k f h = ground (arith, f.bucket k, was-is_done uploaded k p.lines)

  pub carried-object :
      (i : ℕ) (p : P store source job) (k : Bytes)
      → F p
      → carries k (p.workers i) ≡ true
      → there p k ≡ there s k
  carried-object i p k f h = elim (Bool-cases (is_done k p.lines)) [
    | inl d ↦ absurd (ground (arith, f.apart.done_not_carried i k d))
    | inr d ↦ not_done-object p k f d
  ]

  pub failed-Fits : (local remote : Option Bytes) → Fits local remote failed
  failed-Fits local remote =
      (λ h. absurd (ground arith), λ h. absurd (ground arith), λ h. absurd (ground arith))
