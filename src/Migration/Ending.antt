-- ===== src/Migration/Ending.antt =====
-- Runs of the migration tool's worker pool come to an end, with every entry counted once.
use cache_proxyfy.Prelude.{
  ℕ, zero, suc, ◌+◌, ◌*◌, ◌<◌, ◌≤◌, ◌≡◌, ◌⊎◌, inl, inr, refl, true, false, List, [], ◌∷◌, length,
  arith, Bool-cases, eqb, ap,
}
use cache_proxyfy.Storage.Backend.{StorageBackend}
use cache_proxyfy.Storage.ObjectStore.{ObjectStore}
use cache_proxyfy.Migration.{Entry}
use cache_proxyfy.Migration.Pool.{
  Worker, idle, is_busy, Job, P, work, hand_out, Step, takes, works, start, Run, here, step,
  HasEnded,
}
use cache_proxyfy.Migration.Sums.{sum_below-zero}
use cache_proxyfy.Migration.Counting.{
  busy, steps_left, balance, steps_to_go, Step-balance, Step-shorter,
}

is_idle : (w : Worker) → is_busy w ≡ false → w ≡ idle
is_idle w h = ground arith

-- A busy worker, or none.
find_busy :
    (n : ℕ) (workers : ℕ → Worker)
    → ((i : ℕ) × (i < n) × (is_busy (workers i) ≡ true))
      ⊎ ((i : ℕ) → i < n → is_busy (workers i) ≡ false)
find_busy zero workers = inr (λ i h. absurd (omega arith))
find_busy (suc n) workers = elim (find_busy n workers) [
  | inl (i, h, b) ↦ inl (i, omega arith, b)
  | inr none_below ↦ elim (Bool-cases (is_busy (workers n))) [
    | inl b ↦ inl (n, omega arith, b)
    | inr b ↦ inr (λ i h. elim (Bool-cases (eqb i n)) [
      | inl e ↦ ground arith
      | inr e ↦ none_below i (ground arith)
    ])
  ]
]

module _ (store : ObjectStore) (source : StorageBackend) (job : Job) where
  -- A panic, or the end of the loop.
  abbrev pub IsOver : P store source job → Type 0
  IsOver p = (p.crashed ≡ true) ⊎ HasEnded store source job p

  Run-balance :
      {n : ℕ} {p q : P store source job}
      → Run store source job n p q
      → balance store source job q ≡ balance store source job p
  Run-balance here = refl
  Run-balance (step r t) = omega (arith, Run-balance r, Step-balance store source job t)

  Run-shorter :
      {n : ℕ} {p q : P store source job}
      → Run store source job n p q
      → n + steps_to_go store source job q ≤ steps_to_go store source job p
  Run-shorter here = omega arith
  Run-shorter (step r t) = omega (arith, Run-shorter r, Step-shorter store source job t)

  next_entry :
      (p : P store source job) (es : List Entry)
      → p.crashed ≡ false
      → 0 < job.workers
      → ((i : ℕ) → i < job.workers → is_busy (p.workers i) ≡ false)
      → p.queue ≡ es
      → IsOver p ⊎ ((q : P store source job) × Step store source job p q)
  unfolding HasEnded
  next_entry p [] c h resting e = inl (inr (c, e, resting))
  next_entry p (x ∷ es) c h resting e = inr (
    hand_out store source job 0 x es p,
    takes p 0 x es c h (is_idle (p.workers 0) (resting 0 h)) e,
  )

  -- With a worker, a state that is not over has a next step.
  find_next :
      (p : P store source job)
      → 0 < job.workers
      → IsOver p ⊎ ((q : P store source job) × Step store source job p q)
  find_next p h = elim (Bool-cases p.crashed) [
    | inl c ↦ inl (inl c)
    | inr c ↦ elim (find_busy job.workers p.workers) [
      | inl (i, l, b) ↦ inr (work store source job i p, works p i c l b)
      | inr resting ↦ next_entry p p.queue c h resting refl
    ]
  ]

  go_on :
      (k : ℕ) {n : ℕ} {s p : P store source job}
      → 0 < job.workers
      → Run store source job n s p
      → steps_to_go store source job p < k
      → (m : ℕ) × (q : P store source job) × Run store source job m s q × IsOver q
  go_on zero h r l = absurd (omega arith)
  go_on (suc k) {n = n} {p = p} h r l = elim (find_next p h) [
    | inl over ↦ (n, p, r, over)
    | inr (q, t) ↦ go_on k h (step r t) (omega (arith, l, Step-shorter store source job t))
  ]

  steps_to_go-start :
      (es : List Entry) (c : store.Client) (d : source.State)
      → steps_to_go store source job (start store source job es c d) ≡ 4 * length es + 1
  unfolding steps_to_go
  steps_to_go-start es c d =
      omega (arith, sum_below-zero job.workers (λ i. steps_left idle) (λ i h. refl))

  -- With at least one worker every run of the pool takes at most four steps for each entry and one
  -- more, and from wherever it stands it can go on until a worker panicked or all entries are worked
  -- off and all workers are done: no schedule runs for ever or gets stuck.
  pub Run-Ends :
      (es : List Entry) (c : store.Client) (d : source.State)
      → 0 < job.workers
      → {n : ℕ} {p : P store source job} → Run store source job n (start store source job es c d) p
      → (n ≤ 4 * length es + 1)
        × ((m : ℕ) × (q : P store source job) × Run store source job m p q × IsOver q)
  Run-Ends es c d h {n = n} {p = p} r = (
    omega (arith, Run-shorter r, steps_to_go-start es c d),
    go_on (steps_to_go store source job p + 1) h here (omega arith),
  )

  -- At the end of a run every entry was counted exactly once: as uploaded, as skipped, as not found
  -- on disk or as failed.
  pub Run-counted :
      (es : List Entry) (c : store.Client) (d : source.State)
      → {n : ℕ} {p : P store source job} → Run store source job n (start store source job es c d) p
      → HasEnded store source job p
      → p.counters.uploaded + p.counters.skipped + p.counters.not_found + p.counters.errors
        ≡ length es
  unfolding HasEnded
  Run-counted es c d {p = p} r e = omega (
    arith,
    Run-balance r,
    ap length e.1,
    sum_below-zero job.workers (λ i. busy (p.workers i)) (λ i h. rw (e.2 i h) refl),
    sum_below-zero job.workers (λ i. busy idle) (λ i h. refl),
  )
