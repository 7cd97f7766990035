-- ===== src/Migration/Complete.antt =====
-- What a migration that reports success has achieved.
use cache_proxyfy.Prelude.{
  ℕ, ◌<◌, ◌≡◌, inl, inr, refl, ap, Bytes, true, false, ◌||◌, List, [], ◌∷◌, any, arith, ok, ◌∙◌,
}
use cache_proxyfy.Db.Schema.{Package}
use cache_proxyfy.Storage.Backend.{StorageBackend}
use cache_proxyfy.Storage.ObjectStore.{ObjectStore}
use cache_proxyfy.Migration.{uploaded, skipped, not_found, failed, collect}
use cache_proxyfy.Migration.Pool.{
  Worker, is_busy, Line, Job, P, start, Run, here, step, HasEnded, Counters,
}
use cache_proxyfy.Migration.Work.{has_entry, is_cached_as, collect-exact}
use cache_proxyfy.Migration.Handing.{carries, is_done}
use cache_proxyfy.Migration.Counting.{counters_of, Step-tallied}
use cache_proxyfy.Migration.Copies.{IsFaithful, is_some, was, object, Run-IsFaithful}
use cache_proxyfy.Migration.Start.{summary}

is_done-was :
    (k : Bytes) (lines : List Line)
    → is_done k lines ≡ true
    → (was uploaded k lines || was skipped k lines || was not_found k lines || was failed k lines)
      ≡ true
is_done-was k [] h = h
is_done-was k (l ∷ lines) h = ground (arith, is_done-was k lines)

was_failed-errors :
    (k : Bytes) (lines : List Line) → was failed k lines ≡ true → 0 < (counters_of lines).errors
was_failed-errors k [] h = absurd (ground arith)
was_failed-errors k (l ∷ lines) h = ground (arith, was_failed-errors k lines)

not_busy-carries : (k : Bytes) (w : Worker) → is_busy w ≡ false → carries k w ≡ false
unfolding carries
not_busy-carries k w h = ground arith

module _ (store : ObjectStore) (source : StorageBackend) (job : Job) where
  Run-tallied :
      {n : ℕ} {p q : P store source job}
      → p.counters ≡ counters_of p.lines
      → Run store source job n p q
      → q.counters ≡ counters_of q.lines
  Run-tallied h here = h
  Run-tallied h (step r t) = Step-tallied store source job t (Run-tallied h r)

  -- When the tool, outside a dry run, has gone through the listed packages and reports success, every
  -- artifact of a cached package that the local store has is in the bucket: switching the proxy to
  -- S3 loses none of them.
  pub Run-migrated :
      (rs : List Package) (c : store.Client) (d : source.State)
      → job.dry_run ≡ false
      → {n : ℕ} {p : P store source job}
      → Run store source job n (start store source job (collect [] rs) c d) p
      → HasEnded store source job p
      → summary store source job p ≡ ok tt
      → (k : Bytes) → any (is_cached_as k) rs ≡ true
      → is_some (source.holds d k) ≡ true
      → is_some (object store source job p k) ≡ true
  unfolding HasEnded summary
  Run-migrated rs c d dry {p = p} r (running, empty, resting) won k wanted there =
      elim (f.apart.somewhere k ((collect-exact rs).1 k ∙ wanted)) [
        | inl q ↦ absurd (ground (arith, ap (has_entry k) empty))
        | inr (inl (i, l, q)) ↦
            absurd (ground (arith, not_busy-carries k (p.workers i) (resting i l)))
        | inr (inr q) ↦ ground (
          arith,
          is_done-was k p.lines,
          was_failed-errors k p.lines,
          ap (λ (c : Counters). c.errors) (Run-tallied refl r),
          f.bucket k,
          f.was_skipped k,
          f.was_not_found k,
          dry,
        )
      ]
    where
      f : IsFaithful store source job (start store source job (collect [] rs) c d) p
      f = Run-IsFaithful store source job (collect [] rs) c d dry (collect-exact rs).0 r
