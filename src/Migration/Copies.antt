-- ===== src/Migration/Copies.antt =====
-- What the migration tool has done to the bucket, at every moment of every run.
mod Faithful
mod Stages
use cache_proxyfy.Prelude.{
  ℕ, ◌<◌, ◌≡◌, refl, Bytes, true, false, List, ◌∷◌, arith, if◌then◌else◌, Option, subst,
}
use cache_proxyfy.Storage.Backend.{StorageBackend}
use cache_proxyfy.Storage.Backend
use cache_proxyfy.Storage.ObjectStore.{ObjectStore}
use cache_proxyfy.Migration.{Entry, Outcome, uploaded, skipped, not_found, failed}
use cache_proxyfy.Migration.Pool.{
  Worker, idle, taken, checked, loaded, Job, P, work, hand_out, Step, takes, works, start, Run,
  here, step,
}
use cache_proxyfy.Migration.Work.{IsDistinct}
use cache_proxyfy.Migration.Handing.{IsApart, start-IsApart, hand_out-IsApart}
pub use Faithful.{is_some, is_outcome, was, object, local, IsFaithful, Right}
use Faithful.{Knows, Knows-set}
use Stages.{begin_entry-IsFaithful, load-IsFaithful, upload-IsFaithful}

module _ (store : ObjectStore) (source : StorageBackend) (job : Job) (s : P store source job) where
  abbrev F : P store source job → Type 0
  F = IsFaithful store source job s

  abbrev there : P store source job → Bytes → Option Bytes
  there = object store source job

  abbrev here_at : P store source job → Bytes → Option Bytes
  here_at = local store source job

  work-IsFaithful :
      (i : ℕ) (p : P store source job) (w : Worker)
      → job.dry_run ≡ false
      → p.workers i ≡ w
      → F p
      → F (work store source job i p)
  unfolding work
  work-IsFaithful i p idle d h f = rw (h, work) f
  work-IsFaithful i p (taken e) d h f =
      rw (h, work) (begin_entry-IsFaithful store source job s i e p f d h)
  work-IsFaithful i p (checked e) d h f =
      rw (h, work) (load-IsFaithful store source job s i e p f h)
  work-IsFaithful i p (loaded e b) d h f =
      rw (h, work) (upload-IsFaithful store source job s i e p f b h)

  hand_out-IsFaithful :
      (i : ℕ) (p : P store source job) (e : Entry) (es : List Entry)
      → i < job.workers
      → p.workers i ≡ idle
      → p.queue ≡ e ∷ es
      → F p
      → F (hand_out store source job i e es p)
  unfolding Knows
  hand_out-IsFaithful i p e es h w q f = record {
    apart =
        hand_out-IsApart job.workers s.queue i e es p.workers p.lines h w
          (subst (λ es. IsApart job.workers s.queue es p.workers p.lines) q f.apart);
    disk_same = f.disk_same;
    bucket = f.bucket;
    knows = Knows-set (here_at s) (there s) i (taken e) p.workers tt f.knows;
    was_uploaded = f.was_uploaded;
    was_skipped = f.was_skipped;
    was_not_found = f.was_not_found;
  }

  Step-IsFaithful :
      {p q : P store source job} → job.dry_run ≡ false → Step store source job p q → F p → F q
  Step-IsFaithful d (takes p i e es c h w r) f = hand_out-IsFaithful i p e es h w r f
  Step-IsFaithful d (works p i c h b) f = work-IsFaithful i p (p.workers i) d refl f

module _ (store : ObjectStore) (source : StorageBackend) (job : Job) (es : List Entry)
    (c : store.Client) (d : source.State) where
  abbrev first : P store source job
  first = start store source job es c d

  start-IsFaithful : IsDistinct es → IsFaithful store source job first first
  unfolding Knows
  start-IsFaithful h = record {
    apart = start-IsApart job.workers es h;
    disk_same = λ k. refl;
    bucket = λ k. refl;
    knows = λ i. tt;
    was_uploaded = λ k w. absurd (ground arith);
    was_skipped = λ k w. absurd (ground arith);
    was_not_found = λ k w. absurd (ground arith);
  }

  pub Run-IsFaithful :
      {n : ℕ} {p : P store source job}
      → job.dry_run ≡ false
      → IsDistinct es
      → Run store source job n first p
      → IsFaithful store source job first p
  Run-IsFaithful h g here = start-IsFaithful g
  Run-IsFaithful h g (step r t) = Step-IsFaithful store source job first h t (Run-IsFaithful h g r)

  -- Outside a dry run, in whatever order the workers go, and at every moment: the local store holds
  -- what it held, and under each name the bucket holds what it held at the start or, where a line says
  -- "uploaded", what the local store holds.
  pub Run-bucket :
      {n : ℕ} {p : P store source job}
      → job.dry_run ≡ false
      → IsDistinct es
      → Run store source job n first p
      → (k : Bytes)
      → (source.holds p.disk k ≡ source.holds d k)
        × (object store source job p k ≡ (
            if was uploaded k p.lines then source.holds d k else object store source job first k))
  Run-bucket h g r k = let f = Run-IsFaithful h g r in (f.disk_same k, f.bucket k)

  -- What a line says is right: an artifact was uploaded only if the bucket did not have it at the
  -- start and the local store has it, skipped only if the bucket had it, and reported as not found
  -- only if neither had it.
  pub Run-Right :
      {n : ℕ} {p : P store source job}
      → job.dry_run ≡ false
      → IsDistinct es
      → Run store source job n first p
      → (o : Outcome) (k : Bytes) → was o k p.lines ≡ true
      → Right (source.holds d k) (object store source job first k) o
  Run-Right h g r uploaded k w = (Run-IsFaithful h g r).was_uploaded k w
  Run-Right h g r skipped k w = (Run-IsFaithful h g r).was_skipped k w
  Run-Right h g r not_found k w = (Run-IsFaithful h g r).was_not_found k w
  Run-Right h g r failed k w = tt
