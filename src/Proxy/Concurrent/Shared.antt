-- ===== src/Proxy/Concurrent/Shared.antt =====
-- The singleflight group of requests that are in `serve` at once.
use cache_proxyfy.Prelude.{
  ℕ, ◌≡◌, ◌⊎◌, inl, inr, refl, sym, ap, subst, ◌∙◌, Bytes, true, false, some, eqb, Result, err,
  Bool-cases, eqb_iff,
}
use cache_proxyfy.Cache.Redis.{Redis}
use cache_proxyfy.Storage.Backend.{StorageBackend}
use cache_proxyfy.RateLimit.{RateLibrary}
use cache_proxyfy.Singleflight
use cache_proxyfy.Singleflight.{
  Phase, Group, entering, waiting, running, closing, returned, new_group, join_call, open_call,
  finish_call, close_call, leave_call, set_phase,
}
use cache_proxyfy.Singleflight.Sharing.{Opened}
use cache_proxyfy.Proxy.Retry.{fetch_from_upstream}
use cache_proxyfy.Proxy.World.{Proxy}
use cache_proxyfy.Proxy.Serve.{ServeError, rate_limited, W, lift_fetch, fetch_as_leader}
use cache_proxyfy.Proxy.Concurrent.{
  Visit, flight_key, System, looks_in_cache, looks_in_db, scans, joins, opens, calls_back, closes,
  leaves, concludes, runs_task, Reach, starts, goes_on, look_in_cache, look_in_db, scan,
  run_callback, conclude,
}

module _ (redis : Redis) (backend : StorageBackend) (rate : RateLibrary) (p : Proxy)
    (visits : ℕ → Visit) (w : W redis backend rate) where
  -- The requests use the group as its own steps allow.
  pub Reach-group :
      {s : System redis backend rate}
      → Reach redis backend rate p visits w s
      → Singleflight.Reach s.group
  unfolding look_in_cache look_in_db scan run_callback conclude
  Reach-group starts = Singleflight.at_start
  Reach-group (goes_on r (looks_in_cache s i e)) = Reach-group r
  Reach-group (goes_on r (looks_in_db s i e)) = Reach-group r
  Reach-group (goes_on r (scans s i e)) = Reach-group r
  Reach-group (goes_on r (joins s i c e h q)) =
      Singleflight.after_step (Reach-group r)
        (Singleflight.joins s.group i (flight_key (visits i)) c h q)
  Reach-group (goes_on r (opens s i e h q)) =
      Singleflight.after_step (Reach-group r)
        (Singleflight.opens s.group i (flight_key (visits i)) h q)
  Reach-group (goes_on r (calls_back s i k c e)) = Singleflight.after_step (Reach-group r) (
      Singleflight.finishes s.group i k c
        (fetch_as_leader redis backend rate p (visits i).circumstances (visits i).pkg s.world).0 e)
  Reach-group (goes_on r (closes s i k c a e)) =
      Singleflight.after_step (Reach-group r) (Singleflight.closes s.group i k c a e)
  Reach-group (goes_on r (leaves s i k c a e q)) =
      Singleflight.after_step (Reach-group r) (Singleflight.leaves s.group i k c a e q)
  Reach-group (goes_on r (concludes s i c a led e h)) = Reach-group r
  Reach-group (goes_on r (runs_task s before after t e)) = Reach-group r

  abbrev pub SameFlight : ℕ → ℕ → Type 0
  SameFlight i j = flight_key (visits j) ≡ flight_key (visits i)

  -- What the callback of a request can return: the limiter's refusal, or what the registry gives it.
  abbrev pub Fetches : ℕ → Result ServeError Bytes → Type 0
  Fetches i a =
      (a ≡ err rate_limited)
      ⊎ (a
          ≡ lift_fetch
              (fetch_from_upstream (visits i).circumstances.jitter p.retry
                (visits i).circumstances.replies (visits i).circumstances.ended).result)

  -- A request of the same flight opened the call.
  abbrev pub HasOpener : Group (Result ServeError Bytes) → ℕ → ℕ → Type 0
  HasOpener g i c = (j : ℕ) × Opened (g.phases j) c × SameFlight i j

  -- What a phase says of the call that its request is in.
  abbrev pub IsNamed :
      Group (Result ServeError Bytes) → ℕ → Phase (Result ServeError Bytes) → Type 0
  IsNamed g i entering = Unit
  IsNamed g i (waiting k c) = (k ≡ flight_key (visits i)) × HasOpener g i c
  IsNamed g i (running k c) = k ≡ flight_key (visits i)
  IsNamed g i (closing k c a) = k ≡ flight_key (visits i)
  IsNamed g i (returned c a led) = (j : ℕ) × SameFlight i j × Fetches j a

  pub record IsHonest (g : Group (Result ServeError Bytes)) : Type 0 where
    pub named : (i : ℕ) → IsNamed g i (g.phases i)
    pub opened :
        (k : Bytes) (c : ℕ)
        → g.calls k ≡ some c
        → (j : ℕ) × Opened (g.phases j) c × (flight_key (visits j) ≡ k)
    pub made :
        (c : ℕ) (a : Result ServeError Bytes)
        → g.results c ≡ some a
        → (j : ℕ) × Opened (g.phases j) c × Fetches j a

  abbrev pub Gp : Type 0
  Gp = Group (Result ServeError Bytes)

  abbrev pub Ph : Type 0
  Ph = Phase (Result ServeError Bytes)

  -- Whoever opened a call is still its opener.
  abbrev pub Keeps : Gp → Gp → Type 0
  Keeps g g' = (j c : ℕ) → Opened (g.phases j) c → Opened (g'.phases j) c

  set_phase_self : (i j : ℕ) (ph : Ph) (f : ℕ → Ph) → eqb i j ≡ true → set_phase i ph f j ≡ ph
  set_phase_self i j ph f e = rw e

  set_phase_other : (i j : ℕ) (ph : Ph) (f : ℕ → Ph) → eqb i j ≡ false → set_phase i ph f j ≡ f j
  set_phase_other i j ph f e = rw e

  pub set_phase-Keeps :
      (g g' : Gp) (i : ℕ) (ph : Ph)
      → g'.phases ≡ set_phase i ph g.phases
      → ((c : ℕ) → Opened (g.phases i) c → Opened ph c)
      → Keeps g g'
  set_phase-Keeps g g' i ph e h j c o = elim (Bool-cases (eqb i j)) [
    | inl same ↦
        let q : i ≡ j = (eqb_iff i j).0 same in
        subst (λ x. Opened x c) (sym (ap (λ f. f j) e ∙ set_phase_self i j ph g.phases same))
          (h c (subst (λ x. Opened (g.phases x) c) (sym q) o))
    | inr other ↦
        subst (λ x. Opened x c) (sym (ap (λ f. f j) e ∙ set_phase_other i j ph g.phases other)) o
  ]

  IsNamed-Keeps : (g g' : Gp) (i : ℕ) (ph : Ph) → Keeps g g' → IsNamed g i ph → IsNamed g' i ph
  IsNamed-Keeps g g' i entering m h = tt
  IsNamed-Keeps g g' i (waiting k c) m (e, (j, o, s)) = (e, (j, m j c o, s))
  IsNamed-Keeps g g' i (running k c) m h = h
  IsNamed-Keeps g g' i (closing k c a) m h = h
  IsNamed-Keeps g g' i (returned c a led) m h = h

  -- A step of one request that names its new phase.
  pub step-IsHonest :
      (g g' : Gp) (i : ℕ) (ph : Ph)
      → IsHonest g
      → g'.phases ≡ set_phase i ph g.phases
      → Keeps g g'
      → IsNamed g' i ph
      → ((k : Bytes) (c : ℕ)
          → g'.calls k ≡ some c
          → (g.calls k ≡ some c) ⊎ (Opened ph c × (flight_key (visits i) ≡ k)))
      → ((c : ℕ) (a : Result ServeError Bytes)
          → g'.results c ≡ some a
          → (g.results c ≡ some a) ⊎ (Opened ph c × Fetches i a))
      → IsHonest g'
  step-IsHonest g g' i ph h e keeps new calls results =
      let at : (c : ℕ) → Opened ph c → Opened (g'.phases i) c = λ c o.
        subst (λ x. Opened x c)
          (sym (ap (λ f. f i) e ∙ set_phase_self i i ph g.phases ((eqb_iff i i).1 refl))) o in
      record {
        named = λ j. elim (Bool-cases (eqb i j)) [
          | inl same ↦
              let q : i ≡ j = (eqb_iff i j).0 same in
              subst (λ x. IsNamed g' j x)
                (sym (ap (λ f. f j) e ∙ set_phase_self i j ph g.phases same))
                (subst (λ x. IsNamed g' x ph) q new)
          | inr other ↦
              subst (λ x. IsNamed g' j x)
                (sym (ap (λ f. f j) e ∙ set_phase_other i j ph g.phases other))
                (IsNamed-Keeps g g' j (g.phases j) keeps (h.named j))
        ];
        opened = λ k c q. elim (calls k c q) [
          | inl old ↦ let (j, o, s) = h.opened k c old in (j, keeps j c o, s)
          | inr (o, s) ↦ (i, at c o, s)
        ];
        made = λ c a q. elim (results c a q) [
          | inl old ↦ let (j, o, f) = h.made c a old in (j, keeps j c o, f)
          | inr (o, f) ↦ (i, at c o, f)
        ];
      }
