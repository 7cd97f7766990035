-- ===== src/Migration/Counting.antt =====
-- The counters of the migration tool, and how far it is from its end.
use cache_proxyfy.Prelude.{
  ℕ, ◌+◌, ◌*◌, ◌<◌, ◌≡◌, ◌⊎◌, inl, inr, refl, Bool, true, false, List, [], ◌∷◌, ltb, length, arith,
  if◌then◌else◌, is_ok, Result-cases, Bool-cases, Bytes, ap,
}
use cache_proxyfy.Prelude.Integers.{pos}
use cache_proxyfy.Storage.Backend.{StorageBackend}
use cache_proxyfy.Storage.ObjectStore.{ObjectStore}
use cache_proxyfy.Storage.S3.{exists, put}
use cache_proxyfy.Migration.{Entry, Outcome, uploaded, skipped, not_found, failed}
use cache_proxyfy.Migration.Pool.{
  Worker, idle, taken, checked, loaded, is_busy, set_worker, Counters, count, Line, Job, Pool, P,
  note, check, read_outcome, begin_entry, load, upload, work, Step, takes, works,
}
use cache_proxyfy.Migration.Sums.{sum_below, sum_below-set}

abbrev pub busy : Worker → ℕ
busy w = if is_busy w then 1 else 0

-- The steps that a worker has before it is idle.
abbrev pub steps_left : Worker → ℕ
steps_left idle = 0
steps_left (taken e) = 3
steps_left (checked e) = 2
steps_left (loaded e b) = 1

steps_left-busy : (w : Worker) → is_busy w ≡ true → 0 < steps_left w
steps_left-busy w h = ground arith

-- The worker's next step is a panic.
abbrev pub is_doomed : Worker → Bool
is_doomed idle = false
is_doomed (taken e) = ltb (length e.checksum) 12
is_doomed (checked e) = false
is_doomed (loaded e b) = false

abbrev pub total : Counters → ℕ
total c = c.uploaded + c.skipped + c.not_found + c.errors

total-count : (o : Outcome) (c : Counters) → total (count o c) ≡ total c + 1
total-count uploaded c = omega arith
total-count skipped c = omega arith
total-count not_found c = omega arith
total-count failed c = omega arith

-- The counters that lines of output amount to.
abbrev pub counters_of : List Line → Counters
counters_of [] = record { uploaded = 0; skipped = 0; not_found = 0; errors = 0 }
counters_of (l ∷ lines) = count l.outcome (counters_of lines)

module _ (store : ObjectStore) (source : StorageBackend) where
  -- Worker `i` went on to `next`, and nothing else that is counted changed; where it became idle, it
  -- counted one entry.
  pub record Moved (i : ℕ) (p q : Pool store source) : Type 0 where
    pub next : Worker
    pub queue_same : q.queue ≡ p.queue
    pub workers_set : q.workers ≡ set_worker i next p.workers
    pub counted : total q.counters + busy next ≡ total p.counters + 1
    pub shorter : steps_left next < steps_left (p.workers i)
    pub crashed_same : q.crashed ≡ p.crashed
    pub tallied : p.counters ≡ counters_of p.lines → q.counters ≡ counters_of q.lines

module _ (store : ObjectStore) (source : StorageBackend) (job : Job) where
  abbrev M : ℕ → P store source job → P store source job → Type 0
  M = Moved store source

  note-Moved :
      (i : ℕ) (e : Entry) (o : Outcome) (p : P store source job) (c : store.Client)
      (d : source.State)
      → is_busy (p.workers i) ≡ true
      → M i p (note store source job i e o (record p { client = c; disk = d }))
  note-Moved i e o p c d b = record {
    next = idle;
    queue_same = refl;
    workers_set = refl;
    counted = ground (arith, total-count o p.counters);
    shorter = steps_left-busy (p.workers i) b;
    crashed_same = refl;
    tallied = λ h. ap (count o) h;
  }

  check-Moved :
      (i : ℕ) (e : Entry) (p : P store source job)
      → p.workers i ≡ taken e
      → M i p (check store source job i e p)
  unfolding check
  check-Moved i e p h = elim (Result-cases (exists store job.target p.client e.checksum).0) [
    | inl (true, q) ↦
        rw (q, check)
          (note-Moved i e skipped p (exists store job.target p.client e.checksum).1 p.disk
            (rw h refl))
    | inl (false, q) ↦
        rw (q, check)
          (record {
            next = checked e;
            queue_same = refl;
            workers_set = refl;
            counted = refl;
            shorter = rw h (omega arith);
            crashed_same = refl;
            tallied = λ h. h;
          })
    | inr (x, q) ↦
        rw (q, check)
          (note-Moved i e failed p (exists store job.target p.client e.checksum).1 p.disk
            (rw h refl))
  ]

  load-Moved :
      (i : ℕ) (e : Entry) (p : P store source job)
      → p.workers i ≡ checked e
      → M i p (load store source job i e p)
  unfolding load
  load-Moved i e p h = elim (Result-cases (source.get p.disk e.checksum).0) [
    | inl (b, q) ↦
        rw (q, load)
          (record {
            next = loaded e b;
            queue_same = refl;
            workers_set = refl;
            counted = refl;
            shorter = rw h (omega arith);
            crashed_same = refl;
            tallied = λ h. h;
          })
    | inr (x, q) ↦
        rw (q, load)
          (note-Moved i e (read_outcome store source job x) p p.client
            (source.get p.disk e.checksum).1 (rw h refl))
  ]

  upload-Moved :
      (i : ℕ) (e : Entry) (b : Bytes) (p : P store source job)
      → p.workers i ≡ loaded e b
      → M i p (upload store source job i e b p)
  unfolding upload
  upload-Moved i e b p h =
      note-Moved i e
        (if is_ok (put store job.target p.client e.checksum b (pos e.size_bytes)).0
          then uploaded
          else failed)
        p (put store job.target p.client e.checksum b (pos e.size_bytes)).1 p.disk (rw h refl)

  abbrev stopped : P store source job → P store source job
  stopped p = record p { crashed = true }

  begin_entry-Moved :
      (i : ℕ) (e : Entry) (p : P store source job)
      → p.workers i ≡ taken e
      → M i p (begin_entry store source job i e p)
        ⊎ ((begin_entry store source job i e p ≡ stopped p) × (is_doomed (taken e) ≡ true))
  unfolding begin_entry check
  begin_entry-Moved i e p h = elim (Bool-cases (ltb (length e.checksum) 12)) [
    | inl q ↦ inr (rw (q, begin_entry) refl, q)
    | inr q ↦ elim (Bool-cases job.dry_run) [
      | inl d ↦ inl (rw (q, d, begin_entry) (note-Moved i e uploaded p p.client p.disk (rw h refl)))
      | inr d ↦ inl (rw (q, d, begin_entry) (check-Moved i e p h))
    ]
  ]

  work-Moved_as :
      (i : ℕ) (p : P store source job) (w : Worker)
      → p.workers i ≡ w
      → is_busy w ≡ true
      → M i p (work store source job i p)
        ⊎ ((work store source job i p ≡ stopped p) × (is_doomed (p.workers i) ≡ true))
  unfolding work
  work-Moved_as i p idle q h = absurd (ground arith)
  work-Moved_as i p (taken e) q h = rw (q, work) (begin_entry-Moved i e p q)
  work-Moved_as i p (checked e) q h = rw (q, work) (inl (load-Moved i e p q))
  work-Moved_as i p (loaded e b) q h = rw (q, work) (inl (upload-Moved i e b p q))

  pub work-Moved :
      (i : ℕ) (p : P store source job)
      → is_busy (p.workers i) ≡ true
      → M i p (work store source job i p)
        ⊎ ((work store source job i p ≡ stopped p) × (is_doomed (p.workers i) ≡ true))
  work-Moved i p h = work-Moved_as i p (p.workers i) refl h

  -- Entries that are counted, in the hands of a worker, or still to come.
  abbrev pub balance : P store source job → ℕ
  balance p = total p.counters + sum_below job.workers (λ i. busy (p.workers i)) + length p.queue

  -- Steps to come, one of which may be a panic.
  unfoldable pub steps_to_go : P store source job → ℕ
  steps_to_go p =
      if p.crashed
      then 0
      else 1 + 4 * length p.queue + sum_below job.workers (λ i. steps_left (p.workers i))

  Moved-sum :
      (weight : Worker → ℕ) (i : ℕ) (p q : P store source job)
      → i < job.workers
      → (m : M i p q)
      → sum_below job.workers (λ j. weight (q.workers j)) + weight (p.workers i)
        ≡ sum_below job.workers (λ j. weight (p.workers j)) + weight m.next
  Moved-sum weight i p q h m =
      rw m.workers_set (sum_below-set weight i m.next p.workers job.workers h)

  Moved-balance :
      (i : ℕ) (p q : P store source job)
      → i < job.workers
      → is_busy (p.workers i) ≡ true
      → M i p q
      → balance q ≡ balance p
  Moved-balance i p q h b m = ground (arith, Moved-sum busy i p q h m, m.queue_same, m.counted)

  Moved-shorter :
      (i : ℕ) (p q : P store source job)
      → i < job.workers
      → p.crashed ≡ false
      → M i p q
      → steps_to_go q < steps_to_go p
  unfolding steps_to_go
  Moved-shorter i p q h c m =
      ground (arith, Moved-sum steps_left i p q h m, m.crashed_same, m.queue_same, m.shorter)

  abbrev S : P store source job → P store source job → Type 0
  S = Step store source job

  pub Step-balance : {p q : P store source job} → S p q → balance q ≡ balance p
  Step-balance (takes p i e es c h w r) =
      ground (arith, sum_below-set busy i (taken e) p.workers job.workers h)
  Step-balance (works p i c h b) = elim (work-Moved i p b) [
    | inl m ↦ Moved-balance i p (work store source job i p) h b m
    | inr (e, doomed) ↦ rw e refl
  ]

  pub Step-shorter : {p q : P store source job} → S p q → steps_to_go q < steps_to_go p
  unfolding steps_to_go
  Step-shorter (takes p i e es c h w r) =
      ground (arith, sum_below-set steps_left i (taken e) p.workers job.workers h)
  Step-shorter (works p i c h b) = elim (work-Moved i p b) [
    | inl m ↦ Moved-shorter i p (work store source job i p) h c m
    | inr (e, doomed) ↦ ground (arith, e)
  ]

  pub Step-tallied :
      {p q : P store source job}
      → S p q
      → p.counters ≡ counters_of p.lines
      → q.counters ≡ counters_of q.lines
  Step-tallied (takes p i e es c h w r) t = t
  Step-tallied (works p i c h b) t = elim (work-Moved i p b) [
    | inl m ↦ m.tallied t
    | inr (e, doomed) ↦ rw e t
  ]
