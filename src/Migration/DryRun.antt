-- ===== src/Migration/DryRun.antt =====
-- Dry runs of the migration tool.
use cache_proxyfy.Prelude.{
  ℕ, ◌+◌, ◌≡◌, inl, inr, refl, Bool, true, false, List, arith, ltb, Bool-cases, length, ok, sym, ap,
  ◌∙◌, ◌==◌, some, [], ◌∷◌, Option-cases, Result-cases,
}
use cache_proxyfy.Storage.Backend.{StorageBackend}
use cache_proxyfy.Storage.ObjectStore.{ObjectStore}
use cache_proxyfy.Migration.{Entry, collect}
use cache_proxyfy.Migration.Pool.{
  Worker, idle, taken, checked, loaded, Job, P, check, begin_entry, work, Step, takes, works, start,
  Run, here, step, HasEnded,
}
use cache_proxyfy.Config.{Config}
use cache_proxyfy.Db.Connection.{dsn}
use cache_proxyfy.Db.Schema.{Database}
use cache_proxyfy.Db.Listing.{list_packages}
use cache_proxyfy.Migration.Start.{
  Surroundings, Ready, connect_s3, build_stores, list_work, prepare, summary,
}
use cache_proxyfy.Migration.Ending.{Run-counted}

-- The worker has not gone past the output of its entry's prefix.
abbrev is_plain : Worker → Bool
is_plain idle = true
is_plain (taken e) = true
is_plain (checked e) = false
is_plain (loaded e b) = false

module _ (store : ObjectStore) (source : StorageBackend) (job : Job) (es : List Entry)
    (c : store.Client) (d : source.State) (dry : job.dry_run ≡ true) where
  record IsDry (p : P store source job) : Type 0 where
    client_same : p.client ≡ c
    disk_same : p.disk ≡ d
    plain : (i : ℕ) → is_plain (p.workers i) ≡ true
    nothing_else : p.counters.skipped + p.counters.not_found + p.counters.errors ≡ 0

  begin_entry-IsDry :
      (i : ℕ) (e : Entry) (p : P store source job)
      → IsDry p
      → IsDry (begin_entry store source job i e p)
  unfolding begin_entry check
  begin_entry-IsDry i e p s = simp dry (elim (Bool-cases (ltb (length e.checksum) 12)) [
    | inl q ↦ rw q (record {
      client_same = s.client_same;
      disk_same = s.disk_same;
      plain = s.plain;
      nothing_else = s.nothing_else;
    })
    | inr q ↦ rw q (record {
      client_same = s.client_same;
      disk_same = s.disk_same;
      plain = λ j. ground (arith, s.plain j);
      nothing_else = s.nothing_else;
    })
  ])

  work-IsDry :
      (i : ℕ) (p : P store source job) (w : Worker)
      → p.workers i ≡ w
      → IsDry p
      → IsDry (work store source job i p)
  unfolding work
  work-IsDry i p idle h s = rw (h, work) s
  work-IsDry i p (taken e) h s = rw (h, work) (begin_entry-IsDry i e p s)
  work-IsDry i p (checked e) h s = absurd (ground (arith, s.plain i))
  work-IsDry i p (loaded e b) h s = absurd (ground (arith, s.plain i))

  Step-IsDry : {p q : P store source job} → Step store source job p q → IsDry p → IsDry q
  Step-IsDry (takes p i e rest c h w r) s = record {
    client_same = s.client_same;
    disk_same = s.disk_same;
    plain = λ j. ground (arith, s.plain j);
    nothing_else = s.nothing_else;
  }
  Step-IsDry (works p i c h b) s = work-IsDry i p (p.workers i) refl s

  Run-IsDry :
      {n : ℕ} {p : P store source job}
      → Run store source job n (start store source job es c d) p
      → IsDry p
  Run-IsDry here = record {
    client_same = refl;
    disk_same = refl;
    plain = λ i. refl;
    nothing_else = refl;
  }
  Run-IsDry (step r t) = Step-IsDry t (Run-IsDry r)

  -- At its end a dry run has listed every entry as one to upload, and it returns no error.
  pub Run-all_listed :
      {n : ℕ} {p : P store source job}
      → Run store source job n (start store source job es c d) p
      → HasEnded store source job p
      → (p.counters.uploaded ≡ length es) × (summary store source job p ≡ ok tt)
  unfolding summary
  Run-all_listed {p = p} r e =
      let s = Run-IsDry r in
      (omega (arith, Run-counted store source job es c d r e, s.nothing_else), rw dry refl)

module _ (Rate : Type 0) (store : ObjectStore) (source : StorageBackend)
    (around : Surroundings store source) (cfg : Config Rate) (workers : ℕ) where
  -- What a dry run has before its pool: S3 as it was found, and the local store as it was opened.
  abbrev IsUntouched : Ready store source → Type 0
  IsUntouched r =
      (r.job.dry_run ≡ true)
      × (r.client ≡ around.service)
      × (around.new_local cfg.cache.local_dir ≡ some r.disk)

  build_stores-IsUntouched :
      (es : List Entry) (r : Ready store source)
      → build_stores Rate store source around cfg true workers es ≡ ok (some r)
      → IsUntouched r
  unfolding build_stores connect_s3
  build_stores-IsUntouched [] r h = absurd (ground arith)
  build_stores-IsUntouched (e ∷ es) r h =
      elim (Option-cases (around.new_local cfg.cache.local_dir)) [
        | inl q ↦ absurd (ground arith)
        | inr (d, q) ↦ ground (arith, q)
      ]

  list_work-IsUntouched :
      (db : Database) (r : Ready store source)
      → list_work Rate store source around cfg true workers db ≡ ok (some r)
      → IsUntouched r
  unfolding list_work
  list_work-IsUntouched db r h = elim (Result-cases (list_packages [] db).0) [
    | inl (rs, q) ↦ build_stores-IsUntouched (collect [] rs) r (ground (arith, q, h))
    | inr (e, q) ↦ absurd (ground (arith, q))
  ]

  prepare-IsUntouched :
      (r : Ready store source)
      → prepare Rate store source around cfg true workers ≡ ok (some r)
      → IsUntouched r
  unfolding prepare
  prepare-IsUntouched r h = elim (Bool-cases (cfg.s3.bucket == [])) [
    | inl e ↦ absurd (ground arith)
    | inr e ↦ elim (Option-cases (around.open_db (dsn cfg.database))) [
      | inl o ↦ absurd (ground (arith, o, e))
      | inr (db, o) ↦ list_work-IsUntouched db r (ground (arith, o, e, h))
    ]
  ]

  -- A tool that was started as a dry run, and got as far as its worker pool, has at no moment of the
  -- pool's run sent a request to S3, for the stores or for an entry, or read from the local store
  -- that it opened.
  pub Run-harmless :
      (r : Ready store source)
      → prepare Rate store source around cfg true workers ≡ ok (some r)
      → {n : ℕ} {p : P store source r.job}
      → Run store source r.job n (start store source r.job r.entries r.client r.disk) p
      → (p.client ≡ around.service) × (around.new_local cfg.cache.local_dir ≡ some p.disk)
  Run-harmless r h run =
      let (dry, client, disk) = prepare-IsUntouched r h in
      let s = Run-IsDry store source r.job r.entries r.client r.disk dry run in
      (s.client_same ∙ client, disk ∙ ap some (sym s.disk_same))
