-- ===== src/Migration/Prefixes.antt =====
-- The migration tool prints the first twelve bytes of each checksum: when that does not panic.
use cache_proxyfy.Prelude.{
  ℕ, ◌<◌, ◌≤◌, ◌≡◌, inl, inr, refl, Bool, true, false, List, [], ◌∷◌, arith, leb, ◌&&◌, length,
}
use cache_proxyfy.Storage.Backend.{StorageBackend}
use cache_proxyfy.Storage.ObjectStore.{ObjectStore}
use cache_proxyfy.Migration.{Entry}
use cache_proxyfy.Migration.Pool.{
  Worker, idle, taken, checked, loaded, Job, P, work, Step, takes, works, start, Run, here, step,
}
use cache_proxyfy.Migration.Counting.{work-Moved, Moved, is_doomed, steps_left}

abbrev pub all_long : List Entry → Bool
all_long [] = true
all_long (e ∷ es) = leb 12 (length e.checksum) && all_long es

steps_left-is_doomed : (w : Worker) → steps_left w < 3 → is_doomed w ≡ false
steps_left-is_doomed idle h = refl
steps_left-is_doomed (taken e) h = absurd (omega arith)
steps_left-is_doomed (checked e) h = refl
steps_left-is_doomed (loaded e b) h = refl

steps_left-le : (w : Worker) → steps_left w ≤ 3
steps_left-le w = ground arith

module _ (store : ObjectStore) (source : StorageBackend) (job : Job) where
  record IsSafe (p : P store source job) : Type 0 where
    running : p.crashed ≡ false
    queue_long : all_long p.queue ≡ true
    not_doomed : (i : ℕ) → is_doomed (p.workers i) ≡ false

  Moved-IsSafe : (i : ℕ) (p q : P store source job) → Moved store source i p q → IsSafe p → IsSafe q
  Moved-IsSafe i p q m s = record {
    running = ground (arith, m.crashed_same, s.running);
    queue_long = rw m.queue_same s.queue_long;
    not_doomed = rw m.workers_set (λ j. ground (
      arith,
      s.not_doomed j,
      m.shorter,
      steps_left-le (p.workers i),
      steps_left-is_doomed m.next,
    ));
  }

  Step-IsSafe : {p q : P store source job} → Step store source job p q → IsSafe p → IsSafe q
  Step-IsSafe (takes p i e es c h w r) s = record {
    running = s.running;
    queue_long = ground (arith, s.queue_long, r);
    not_doomed = λ j. ground (arith, s.not_doomed j, s.queue_long, r);
  }
  Step-IsSafe (works p i c h b) s = elim (work-Moved store source job i p b) [
    | inl m ↦ Moved-IsSafe i p (work store source job i p) m s
    | inr (e, doomed) ↦ absurd (ground (arith, s.not_doomed i))
  ]

  Run-IsSafe :
      (es : List Entry) (c : store.Client) (d : source.State)
      → all_long es ≡ true
      → {n : ℕ} {p : P store source job} → Run store source job n (start store source job es c d) p
      → IsSafe p
  Run-IsSafe es c d h here = record { running = refl; queue_long = h; not_doomed = λ i. refl }
  Run-IsSafe es c d h (step r t) = Step-IsSafe t (Run-IsSafe es c d h r)

  -- Where every checksum has at least twelve bytes, no run panics.
  pub Run-running :
      (es : List Entry) (c : store.Client) (d : source.State)
      → all_long es ≡ true
      → {n : ℕ} {p : P store source job} → Run store source job n (start store source job es c d) p
      → p.crashed ≡ false
  Run-running es c d h r = (Run-IsSafe es c d h r).running
