-- ===== src/Proxy/Concurrent/Flights.antt =====
-- What the singleflight group hands to requests that are in `serve` at once: the fetch of one of them.
use cache_proxyfy.Prelude.{
  ℕ, ◌≡◌, inl, inr, refl, sym, subst, Bytes, true, false, some, arith, eqb, Result, ==_iff, eqb_iff,
  Bool-cases, ◌==◌,
}
use cache_proxyfy.Cache.Redis.{Redis}
use cache_proxyfy.Storage.Backend.{StorageBackend}
use cache_proxyfy.RateLimit.{RateLibrary}
use cache_proxyfy.RateLimit
use cache_proxyfy.Singleflight.{
  Group, entering, waiting, running, closing, returned, join_call, open_call, finish_call,
  close_call, leave_call,
}
use cache_proxyfy.Singleflight.Sharing.{Opened, IsSound, Reach-IsSound, Has}
use cache_proxyfy.Proxy.World.{Proxy}
use cache_proxyfy.Proxy.Serve.{ServeError, W, fetch_as_leader}
use cache_proxyfy.Proxy.Concurrent.{
  Visit, flight_key, System, looks_in_cache, looks_in_db, scans, joins, opens, calls_back, closes,
  leaves, concludes, runs_task, Reach, starts, goes_on, look_in_cache, look_in_db, scan,
  run_callback, conclude,
}
use cache_proxyfy.Proxy.Concurrent.Shared.{
  Reach-group, Fetches, IsNamed, IsHonest, Keeps, set_phase-Keeps, step-IsHonest,
}

module _ (redis : Redis) (backend : StorageBackend) (rate : RateLibrary) (p : Proxy)
    (visits : ℕ → Visit) (w : W redis backend rate) where
  abbrev Honest : Group (Result ServeError Bytes) → Type 0
  Honest = IsHonest redis backend rate p visits w

  fetch_as_leader-Fetches :
      (i : ℕ) (v : W redis backend rate)
      → Fetches redis backend rate p visits w i
          (fetch_as_leader redis backend rate p (visits i).circumstances (visits i).pkg v).0
  unfolding fetch_as_leader
  fetch_as_leader-Fetches i v =
      elim (Bool-cases (RateLimit.wait rate v.limiter (visits i).pkg.ecosystem).0) [
        | inl e ↦ inr (ground arith)
        | inr e ↦ inl (ground arith)
      ]

  join-Honest :
      (g : Group (Result ServeError Bytes)) (i c : ℕ)
      → g.phases i ≡ entering
      → g.calls (flight_key (visits i)) ≡ some c
      → Honest g
      → Honest (join_call i (flight_key (visits i)) c g)
  unfolding Opened
  join-Honest g i c e q h =
      let g' = join_call i (flight_key (visits i)) c g in
      let keeps : Keeps redis backend rate p visits w g g' =
        set_phase-Keeps redis backend rate p visits w g g' i (waiting (flight_key (visits i)) c)
          refl (λ d o. absurd (subst (λ x. Opened x d) e o)) in
      step-IsHonest redis backend rate p visits w g g' i (waiting (flight_key (visits i)) c) h refl
        keeps (let (j, o, s) = h.opened (flight_key (visits i)) c q in (refl, (j, keeps j c o, s)))
        (λ k d r. inl r) (λ d a r. inl r)

  open-Honest :
      (g : Group (Result ServeError Bytes)) (i : ℕ)
      → g.phases i ≡ entering
      → Honest g
      → Honest (open_call i (flight_key (visits i)) g)
  unfolding Opened
  open-Honest g i e h =
      let g' = open_call i (flight_key (visits i)) g in
      step-IsHonest redis backend rate p visits w g g' i
        (running (flight_key (visits i)) g.next_call) h refl
        (set_phase-Keeps redis backend rate p visits w g g' i
          (running (flight_key (visits i)) g.next_call) refl
          (λ d o. absurd (subst (λ x. Opened x d) e o)))
        refl
        (λ k d r. elim (Bool-cases (flight_key (visits i) == k)) [
          | inl same ↦ inr (ground arith, (==_iff (flight_key (visits i)) k).0 same)
          | inr other ↦ inl (ground arith)
        ])
        (λ d a r. inl r)

  finish-Honest :
      (g : Group (Result ServeError Bytes)) (i : ℕ) (k : Bytes) (c : ℕ)
      (a : Result ServeError Bytes)
      → g.phases i ≡ running k c
      → Fetches redis backend rate p visits w i a
      → Honest g
      → Honest (finish_call i k c a g)
  unfolding Opened
  finish-Honest g i k c a e f h =
      let g' = finish_call i k c a g in
      step-IsHonest redis backend rate p visits w g g' i (closing k c a) h refl
        (set_phase-Keeps redis backend rate p visits w g g' i (closing k c a) refl
          (λ d o. subst (λ x. Opened x d) e o))
        (subst (IsNamed redis backend rate p visits w g i) e (h.named i)) (λ l d r. inl r)
        (λ d b r. elim (Bool-cases (eqb c d)) [
          | inl same ↦ inr (
            (eqb_iff c d).0 same,
            subst (Fetches redis backend rate p visits w i) (ground arith) f,
          )
          | inr other ↦ inl (ground arith)
        ])

  close-Honest :
      (g : Group (Result ServeError Bytes)) (i : ℕ) (k : Bytes) (c : ℕ)
      (a : Result ServeError Bytes)
      → g.phases i ≡ closing k c a
      → IsSound g
      → Honest g
      → Honest (close_call i k c a g)
  unfolding Opened Has
  close-Honest g i k c a e s h =
      let g' = close_call i k c a g in
      let (j, o, f) = h.made c a (s.kept i c a (subst (λ x. Has x c a) (sym e) (refl, refl))) in
      let q : j ≡ i = s.one_opener j i c o (subst (λ x. Opened x c) (sym e) refl) in
      step-IsHonest redis backend rate p visits w g g' i (returned c a true) h refl
        (set_phase-Keeps redis backend rate p visits w g g' i (returned c a true) refl
          (λ d r. (subst (λ x. Opened x d) e r, refl)))
        (i, refl, subst (λ x. Fetches redis backend rate p visits w x a) q f)
        (λ l d r. inl (ground arith)) (λ d b r. inl r)

  leave-Honest :
      (g : Group (Result ServeError Bytes)) (i : ℕ) (k : Bytes) (c : ℕ)
      (a : Result ServeError Bytes)
      → g.phases i ≡ waiting k c
      → g.results c ≡ some a
      → IsSound g
      → Honest g
      → Honest (leave_call i c a g)
  unfolding Opened
  leave-Honest g i k c a e q s h =
      let g' = leave_call i c a g in
      let (_, (j, o, same)) = subst (IsNamed redis backend rate p visits w g i) e (h.named i) in
      let (j', o', f) = h.made c a q in
      let r : j' ≡ j = s.one_opener j' j c o' o in
      step-IsHonest redis backend rate p visits w g g' i (returned c a false) h refl
        (set_phase-Keeps redis backend rate p visits w g g' i (returned c a false) refl
          (λ d x. absurd (subst (λ y. Opened y d) e x)))
        (j, same, subst (λ x. Fetches redis backend rate p visits w x a) r f) (λ l d x. inl x)
        (λ d b x. inl x)

  -- What `Do` returns to a request is what the callback of a request of its flight returned.
  pub Reach-IsHonest :
      {s : System redis backend rate} → Reach redis backend rate p visits w s → Honest s.group
  unfolding look_in_cache look_in_db scan run_callback conclude
  Reach-IsHonest starts = record {
    named = λ i. tt;
    opened = λ k c q. absurd (cc);
    made = λ c a q. absurd (cc);
  }
  Reach-IsHonest (goes_on r (looks_in_cache s i e)) = Reach-IsHonest r
  Reach-IsHonest (goes_on r (looks_in_db s i e)) = Reach-IsHonest r
  Reach-IsHonest (goes_on r (scans s i e)) = Reach-IsHonest r
  Reach-IsHonest (goes_on r (joins s i c e h q)) = join-Honest s.group i c h q (Reach-IsHonest r)
  Reach-IsHonest (goes_on r (opens s i e h q)) = open-Honest s.group i h (Reach-IsHonest r)
  Reach-IsHonest (goes_on r (calls_back s i k c e)) =
      finish-Honest s.group i k c
        (fetch_as_leader redis backend rate p (visits i).circumstances (visits i).pkg s.world).0 e
        (fetch_as_leader-Fetches i s.world) (Reach-IsHonest r)
  Reach-IsHonest (goes_on r (closes s i k c a e)) =
      close-Honest s.group i k c a e (Reach-IsSound (Reach-group redis backend rate p visits w r))
        (Reach-IsHonest r)
  Reach-IsHonest (goes_on r (leaves s i k c a e q)) =
      leave-Honest s.group i k c a e q (Reach-IsSound (Reach-group redis backend rate p visits w r))
        (Reach-IsHonest r)
  Reach-IsHonest (goes_on r (concludes s i c a led e h)) = Reach-IsHonest r
  Reach-IsHonest (goes_on r (runs_task s before after t e)) = Reach-IsHonest r
