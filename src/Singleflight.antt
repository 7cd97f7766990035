-- ===== src/Singleflight.antt =====
-- internal/singleflight/singleflight.go: `Do` as steps of the goroutines that call it, between the
-- points where the lock or the wait group lets another one run. A call is the number of its `call`
-- object, a goroutine the number of its invocation of `Do`.
pub mod Sharing
pub mod Progress
use cache_proxyfy.Prelude.{
  ℕ, ◌+◌, ◌≡◌, Bytes, codes, Bool, true, false, Option, none, some, ◌∷◌, ◌++◌, eqb, if◌then◌else◌,
  ◌==◌, Result,
}
use cache_proxyfy.Db.Schema.{PackageKey}

unfoldable pub key : PackageKey → Bytes
key k = k.ecosystem ++ b':' ∷ (k.name ++ b':' ∷ k.version)

module _ (A : Type 0) where
  -- Where an invocation of `Do` stands: before the lock, waiting for another one's call, running
  -- `fn`, behind `wg.Done` and before the removal of the key, and returned with the result and
  -- `shared`.
  pub data Phase : Type 0 where
    entering : Phase
    waiting : (key : Bytes) (call : ℕ) → Phase
    running : (key : Bytes) (call : ℕ) → Phase
    closing : (key : Bytes) (call : ℕ) (result : A) → Phase
    returned : (call : ℕ) (result : A) (shared : Bool) → Phase

module _ (A : Type 0) where
  -- The map under the lock, what the finished calls hold, and the invocations.
  pub record Group : Type 0 where
    pub calls : Bytes → Option ℕ
    pub results : ℕ → Option A
    pub phases : ℕ → Phase A
    pub next_call : ℕ

abbrev pub set_call : Bytes → Option ℕ → (Bytes → Option ℕ) → Bytes → Option ℕ
set_call k c calls j = if k == j then c else calls j

module _ {A : Type 0} where
  abbrev pub set_result : ℕ → A → (ℕ → Option A) → ℕ → Option A
  set_result c a results d = if eqb c d then some a else results d

  abbrev pub set_phase : ℕ → Phase A → (ℕ → Phase A) → ℕ → Phase A
  set_phase i p phases j = if eqb i j then p else phases j

  abbrev pub new_group : Group A
  new_group = record {
    calls = λ k. none;
    results = λ c. none;
    phases = λ i. entering;
    next_call = 0;
  }

  -- `g.calls[k]` has a call: wait for it.
  abbrev pub join_call : ℕ → Bytes → ℕ → Group A → Group A
  join_call i k c g = record g { phases = set_phase i (waiting k c) g.phases }

  -- `g.calls[k]` has none: enter a new one.
  abbrev pub open_call : ℕ → Bytes → Group A → Group A
  open_call i k g = record g {
    calls = set_call k (some g.next_call) g.calls;
    phases = set_phase i (running k g.next_call) g.phases;
    next_call = g.next_call + 1;
  }

  -- `c.val, c.err = fn()` and `c.wg.Done()`.
  abbrev pub finish_call : ℕ → Bytes → ℕ → A → Group A → Group A
  finish_call i k c a g = record g {
    results = set_result c a g.results;
    phases = set_phase i (closing k c a) g.phases;
  }

  -- `delete(g.calls, k)` and the return.
  abbrev pub close_call : ℕ → Bytes → ℕ → A → Group A → Group A
  close_call i k c a g = record g {
    calls = set_call k none g.calls;
    phases = set_phase i (returned c a true) g.phases;
  }

  -- `c.wg.Wait()` lets a waiting invocation go.
  abbrev pub leave_call : ℕ → ℕ → A → Group A → Group A
  leave_call i c a g = record g { phases = set_phase i (returned c a false) g.phases }

  pub data Step : Group A → Group A → Type 0 where
    joins :
        (g : Group A) (i : ℕ) (k : Bytes) (c : ℕ)
        → g.phases i ≡ entering
        → g.calls k ≡ some c
        → Step g (join_call i k c g)
    opens :
        (g : Group A) (i : ℕ) (k : Bytes)
        → g.phases i ≡ entering
        → g.calls k ≡ none
        → Step g (open_call i k g)
    finishes :
        (g : Group A) (i : ℕ) (k : Bytes) (c : ℕ) (a : A)
        → g.phases i ≡ running k c
        → Step g (finish_call i k c a g)
    closes :
        (g : Group A) (i : ℕ) (k : Bytes) (c : ℕ) (a : A)
        → g.phases i ≡ closing k c a
        → Step g (close_call i k c a g)
    leaves :
        (g : Group A) (i : ℕ) (k : Bytes) (c : ℕ) (a : A)
        → g.phases i ≡ waiting k c
        → g.results c ≡ some a
        → Step g (leave_call i c a g)

  -- What a group can come to.
  pub data Reach : Group A → Type 0 where
    at_start : Reach new_group
    after_step : {g g' : Group A} → Reach g → Step g g' → Reach g'
