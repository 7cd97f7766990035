-- ===== src/Migration/Pool.antt =====
-- cmd/migrate/main.go, the worker pool: the channel hands the entries out one by one, and a worker
-- goes through the body of its loop in steps that others may come between.
use cache_proxyfy.Prelude.{
  ℕ, ◌+◌, ◌<◌, ◌≡◌, Bytes, Bool, true, false, List, [], ◌∷◌, eqb, ltb, length, if◌then◌else◌, ok,
  err, is_ok,
}
use cache_proxyfy.Prelude.Integers.{pos}
use cache_proxyfy.Storage.Backend.{StorageBackend, StorageError, storage_failed}
use cache_proxyfy.Storage.Backend
use cache_proxyfy.Storage.ObjectStore.{ObjectStore}
use cache_proxyfy.Storage.S3.{S3, exists, put}
use cache_proxyfy.Migration.{Entry, Outcome, uploaded, skipped, not_found, failed}

-- Where a worker stands: before the channel, with an entry from it, with one that S3 does not have,
-- and with the content that the local store has for it.
pub data Worker : Type 0 where
  idle : Worker
  taken : (entry : Entry) → Worker
  checked : (entry : Entry) → Worker
  loaded : (entry : Entry) (content : Bytes) → Worker

abbrev pub is_busy : Worker → Bool
is_busy idle = false
is_busy (taken e) = true
is_busy (checked e) = true
is_busy (loaded e b) = true

abbrev pub set_worker : ℕ → Worker → (ℕ → Worker) → ℕ → Worker
set_worker i w workers j = if eqb i j then w else workers j

-- The atomic counters.
pub record Counters : Type 0 where
  pub uploaded : ℕ
  pub skipped : ℕ
  pub not_found : ℕ
  pub errors : ℕ

abbrev pub count : Outcome → Counters → Counters
count uploaded c = record c { uploaded = c.uploaded + 1 }
count skipped c = record c { skipped = c.skipped + 1 }
count not_found c = record c { not_found = c.not_found + 1 }
count failed c = record c { errors = c.errors + 1 }

-- A line of output: the checksum and what became of it.
pub record Line : Type 0 where
  pub checksum : Bytes
  pub outcome : Outcome

-- The flags, and the backend in S3.
pub record Job : Type 0 where
  pub dry_run : Bool
  pub workers : ℕ
  pub target : S3

module _ (store : ObjectStore) (source : StorageBackend) where
  -- What the goroutines share, with the lines of output, last one first. A panic in a worker ends
  -- the program: `crashed`.
  pub record Pool : Type 0 where
    pub queue : List Entry
    pub workers : ℕ → Worker
    pub index : ℕ
    pub counters : Counters
    pub lines : List Line
    pub crashed : Bool
    pub client : store.Client
    pub disk : source.State

module _ (store : ObjectStore) (source : StorageBackend) (job : Job) where
  abbrev pub P : Type 0
  P = Pool store source

  -- A line of output and a counter; the worker goes back to the channel.
  abbrev pub note : ℕ → Entry → Outcome → P → P
  note i e o p = record p {
    workers = set_worker i idle p.workers;
    lines = record { checksum = e.checksum; outcome = o } ∷ p.lines;
    counters = count o p.counters;
  }

  -- Skips what is in S3 already.
  unfoldable pub check : ℕ → Entry → P → P
  check i e p =
      let (there, c) = exists store job.target p.client e.checksum in
      let p' : P = record p { client = c } in
      elim there [
        | ok found ↦
            if found
            then note i e skipped p'
            else record p' { workers = set_worker i (checked e) p'.workers }
        | err x ↦ note i e failed p'
      ]

  -- `e.checksum[:12]` panics for a shorter checksum, in a dry run too.
  unfoldable pub begin_entry : ℕ → Entry → P → P
  begin_entry i e p =
      if ltb (length e.checksum) 12
      then record p { crashed = true }
      else if job.dry_run
      then note i e uploaded p
      else check i e p

  abbrev pub read_outcome : StorageError → Outcome
  read_outcome Backend.not_found = not_found
  read_outcome storage_failed = failed

  unfoldable pub load : ℕ → Entry → P → P
  load i e p =
      let (content, d) = source.get p.disk e.checksum in
      let p' : P = record p { disk = d } in
      elim content [
        | ok b ↦ record p' { workers = set_worker i (loaded e b) p'.workers }
        | err x ↦ note i e (read_outcome x) p'
      ]

  -- The size is the one in the table.
  unfoldable pub upload : ℕ → Entry → Bytes → P → P
  upload i e b p =
      let (done, c) = put store job.target p.client e.checksum b (pos e.size_bytes) in
      note i e (if is_ok done then uploaded else failed) (record p { client = c })

  -- What worker `i` does next.
  unfoldable pub work : ℕ → P → P
  work i p = elim (p.workers i) [
    | idle ↦ p
    | taken e ↦ begin_entry i e p
    | checked e ↦ load i e p
    | loaded e b ↦ upload i e b p
  ]

  -- The channel gives the next entry to worker `i`.
  abbrev pub hand_out : ℕ → Entry → List Entry → P → P
  hand_out i e es p = record p {
    queue = es;
    workers = set_worker i (taken e) p.workers;
    index = p.index + 1;
  }

  pub data Step : P → P → Type 0 where
    takes :
        (p : P) (i : ℕ) (e : Entry) (es : List Entry)
        → p.crashed ≡ false
        → i < job.workers
        → p.workers i ≡ idle
        → p.queue ≡ e ∷ es
        → Step p (hand_out i e es p)
    works :
        (p : P) (i : ℕ)
        → p.crashed ≡ false
        → i < job.workers
        → is_busy (p.workers i) ≡ true
        → Step p (work i p)

  abbrev pub start : List Entry → store.Client → source.State → P
  start es c d = record {
    queue = es;
    workers = λ i. idle;
    index = 0;
    counters = record { uploaded = 0; skipped = 0; not_found = 0; errors = 0 };
    lines = [];
    crashed = false;
    client = c;
    disk = d;
  }

  -- A run of so many steps.
  pub data Run : ℕ → P → P → Type 0 where
    here : {p : P} → Run 0 p p
    step : {n : ℕ} {p q r : P} → Run n p q → Step q r → Run (n + 1) p r

  -- `close(workCh)` and `wg.Wait()`: all is handed out and every worker is done.
  unfoldable pub HasEnded : P → Type 0
  HasEnded p =
      (p.crashed ≡ false)
      × (p.queue ≡ [])
      × ((i : ℕ) → i < job.workers → is_busy (p.workers i) ≡ false)
