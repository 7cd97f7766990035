-- ===== src/Migration/Copies/Stages.antt =====
-- The stages of a worker on an entry, against what the tool keeps to.
use cache_proxyfy.Prelude.{
  ℕ, ◌≡◌, inl, inr, refl, sym, Bytes, true, false, ==_iff, ltb, length, arith, if◌then◌else◌,
  Bool-cases, Option, none, some, is_ok, Result-cases, Result, subst,
}
use cache_proxyfy.Prelude.Integers.{pos}
use cache_proxyfy.Storage.Backend.{StorageBackend, StorageError, storage_failed}
use cache_proxyfy.Storage.Backend
use cache_proxyfy.Storage.ObjectStore.{ObjectStore}
use cache_proxyfy.Storage.S3.{exists, put}
use cache_proxyfy.Storage.S3.Contents.{exists_yes, exists_no, exists_same, s3_put_effect}
use cache_proxyfy.Migration.{Entry, uploaded, skipped, not_found, failed}
use cache_proxyfy.Migration.Pool.{
  taken, checked, loaded, Job, P, note, check, begin_entry, load, upload,
}
use cache_proxyfy.Migration.Handing.{carries}
use cache_proxyfy.Migration.Copies.Faithful.{
  Knows, object, local, IsFaithful, note-IsFaithful, keep-IsFaithful, carried-object, failed-Fits,
}

module _ (store : ObjectStore) (source : StorageBackend) (job : Job) (s : P store source job) where
  abbrev F : P store source job → Type 0
  F = IsFaithful store source job s

  abbrev there : P store source job → Bytes → Option Bytes
  there = object store source job

  abbrev here_at : P store source job → Bytes → Option Bytes
  here_at = local store source job

  module _ (i : ℕ) (e : Entry) (p : P store source job) (f : F p) where
    abbrev k₀ : Bytes
    k₀ = e.checksum

    check-IsFaithful : p.workers i ≡ taken e → F (check store source job i e p)
    unfolding check carries Knows
    check-IsFaithful w = elim (Result-cases (exists store job.target p.client k₀).0) [
      | inl (true, q) ↦
          let (v, at) = exists_yes store job.target p.client k₀ q in
          rw (q, check)
            (note-IsFaithful store source job s i e p (exists store job.target p.client k₀).1 p.disk
              f (λ k. rw w refl) (λ k. refl) skipped
              (λ k. exists_same store job.target p.client k₀ k)
              (
                λ h. absurd (ground arith),
                λ h. ground (
                  arith,
                  ==_iff k₀ k₀,
                  carried-object store source job s i p k₀ f (rw w (ground (arith, ==_iff k₀ k₀))),
                ),
                λ h. absurd (ground arith),
              ))
      | inl (false, q) ↦
          rw (q, check)
            (keep-IsFaithful store source job s i e p (exists store job.target p.client k₀).1 p.disk
              f (λ k. rw w refl) (λ k. refl) (checked e) (λ k. rw w refl)
              (ground (
                arith,
                exists_no store job.target p.client k₀ q,
                carried-object store source job s i p k₀ f (rw w (ground (arith, ==_iff k₀ k₀))),
              ))
              (λ k. exists_same store job.target p.client k₀ k))
      | inr (x, q) ↦
          rw (q, check)
            (note-IsFaithful store source job s i e p (exists store job.target p.client k₀).1 p.disk
              f (λ k. rw w refl) (λ k. refl) failed
              (λ k. exists_same store job.target p.client k₀ k)
              (failed-Fits store source job s (here_at s k₀) (there s k₀)))
    ]

    pub load-IsFaithful : p.workers i ≡ checked e → F (load store source job i e p)
    unfolding load carries Knows
    load-IsFaithful w = elim (Result-cases (source.get p.disk k₀).0) [
      | inl (b, q) ↦
          rw (q, load)
            (keep-IsFaithful store source job s i e p p.client (source.get p.disk k₀).1 f
              (λ k. rw w refl) (λ k. source.get_holds p.disk k₀ k) (loaded e b) (λ k. rw w refl)
              (known, ground (arith, source.get_ok p.disk k₀ b q, f.disk_same k₀)) (λ k. refl))
      | inr (Backend.not_found, q) ↦
          rw (q, load)
            (note-IsFaithful store source job s i e p p.client (source.get p.disk k₀).1 f
              (λ k. rw w refl) (λ k. source.get_holds p.disk k₀ k) not_found (λ k. refl)
              (
                λ h. absurd (ground arith),
                λ h. absurd (ground arith),
                λ h. (known, ground (arith, source.get_not_found p.disk k₀ q, f.disk_same k₀)),
              ))
      | inr (storage_failed, q) ↦
          rw (q, load)
            (note-IsFaithful store source job s i e p p.client (source.get p.disk k₀).1 f
              (λ k. rw w refl) (λ k. source.get_holds p.disk k₀ k) failed (λ k. refl)
              (failed-Fits store source job s (here_at s k₀) (there s k₀)))
    ]
      where
        known : there s k₀ ≡ none
        known = subst (Knows (here_at s) (there s)) w (f.knows i)

    pub upload-IsFaithful :
        (b : Bytes) → p.workers i ≡ loaded e b → F (upload store source job i e b p)
    unfolding upload carries Knows
    upload-IsFaithful b w = elim (Bool-cases (is_ok done.0)) [
      | inl q ↦
          rw (q, upload)
            (note-IsFaithful store source job s i e p done.1 p.disk f (λ k. rw w refl) (λ k. refl)
              uploaded
              (λ k. ground (
                arith,
                ==_iff k₀ k,
                known,
                carried-object store source job s i p k₀ f (rw w (ground (arith, ==_iff k₀ k₀))),
                s3_put_effect store job.target p.client k₀ b (pos e.size_bytes) k,
              ))
              (
                λ h. (known.0, ground (arith, known)),
                λ h. absurd (ground arith),
                λ h. absurd (ground arith),
              ))
      | inr q ↦
          rw (q, upload)
            (note-IsFaithful store source job s i e p done.1 p.disk f (λ k. rw w refl) (λ k. refl)
              failed
              (λ k.
                ground (arith, s3_put_effect store job.target p.client k₀ b (pos e.size_bytes) k))
              (failed-Fits store source job s (here_at s k₀) (there s k₀)))
    ]
      where
        done : Result StorageError Unit × store.Client
        done = put store job.target p.client k₀ b (pos e.size_bytes)

        known : (there s k₀ ≡ none) × (here_at s k₀ ≡ some b)
        known = subst (Knows (here_at s) (there s)) w (f.knows i)

    stopped-IsFaithful : F (record p { crashed = true })
    stopped-IsFaithful = record {
      apart = f.apart;
      disk_same = f.disk_same;
      bucket = f.bucket;
      knows = f.knows;
      was_uploaded = f.was_uploaded;
      was_skipped = f.was_skipped;
      was_not_found = f.was_not_found;
    }

    pub begin_entry-IsFaithful :
        job.dry_run ≡ false → p.workers i ≡ taken e → F (begin_entry store source job i e p)
    unfolding begin_entry check
    begin_entry-IsFaithful d w = elim (Bool-cases (ltb (length k₀) 12)) [
      | inl q ↦ rw (q, begin_entry) stopped-IsFaithful
      | inr q ↦
          rw (q, begin_entry)
            (subst
              (λ b.
                F (
                  if b then note store source job i e uploaded p else check store source job i e p))
              (sym d) (check-IsFaithful w))
    ]
