-- ===== src/Proxy/Concurrent/Answers.antt =====
-- How requests are answered that are in `serve` at once.
use cache_proxyfy.Prelude.{
  ℕ, ◌≡◌, ◌⊎◌, inl, inr, refl, sym, subst, Bytes, true, false, eqb, Result, eqb_iff, Bool-cases,
}
use cache_proxyfy.Cache.Redis.{Redis}
use cache_proxyfy.Storage.Backend.{StorageBackend}
use cache_proxyfy.RateLimit.{RateLibrary}
use cache_proxyfy.Singleflight.{Group, entering, waiting, running, closing, returned, set_phase}
use cache_proxyfy.Proxy.World.{Proxy}
use cache_proxyfy.Proxy.Serve.{
  ServeError, Artifact, W, lookup_cache, lookup_db, fetch_as_leader, note_scan,
}
use cache_proxyfy.Proxy.Concurrent.{
  Visit, flight_key, Stage, scanned, answered, set_stage, System, looks_in_cache, looks_in_db,
  scans, joins, opens, calls_back, closes, leaves, concludes, runs_task, Reach, starts, goes_on,
  verdict, leave_cache, leave_db, leave_scan, leave_group, look_in_cache, look_in_db, scan,
  run_callback, conclude,
}
use cache_proxyfy.Proxy.Concurrent.Shared.{Fetches, IsNamed}
use cache_proxyfy.Proxy.Concurrent.Places
use cache_proxyfy.Proxy.Concurrent.Places.{NeedsNoFetch}
use cache_proxyfy.Proxy.Concurrent.Flights.{Reach-IsHonest}

module _ (redis : Redis) (backend : StorageBackend) (rate : RateLibrary) (p : Proxy)
    (visits : ℕ → Visit) (w : W redis backend rate) where
  abbrev Ph : Type 0
  Ph = Places.Ph redis backend rate p visits

  abbrev IsClear : ℕ → Type 0
  IsClear = Places.IsClear redis backend rate p visits

  abbrev IsAnswered : ℕ → Result ServeError Artifact → Ph → Type 0
  IsAnswered = Places.IsAnswered redis backend rate p visits

  abbrev IsPlaced : ℕ → Stage → Ph → Type 0
  IsPlaced = Places.IsPlaced redis backend rate p visits

  abbrev ArePlaced : System redis backend rate → Type 0
  ArePlaced = Places.ArePlaced redis backend rate p visits

  abbrev IsInDo : Ph → Type 0
  IsInDo = Places.IsInDo redis backend rate p visits

  set_stage-ArePlaced :
      (s : System redis backend rate) (i : ℕ) (q : Stage)
      → ArePlaced s
      → IsPlaced i q (s.group.phases i)
      → (j : ℕ) → IsPlaced j (set_stage i q s.stages j) (s.group.phases j)
  set_stage-ArePlaced s i q h new j = elim (Bool-cases (eqb i j)) [
    | inl same ↦ rw same (subst (λ x. IsPlaced x q (s.group.phases x)) ((eqb_iff i j).0 same) new)
    | inr other ↦ rw other (h j)
  ]

  set_phase-ArePlaced :
      (s : System redis backend rate) (i : ℕ) (ph : Ph)
      → ArePlaced s
      → IsPlaced i (s.stages i) ph
      → (j : ℕ) → IsPlaced j (s.stages j) (set_phase i ph s.group.phases j)
  set_phase-ArePlaced s i ph h new j = elim (Bool-cases (eqb i j)) [
    | inl same ↦ rw same (subst (λ x. IsPlaced x (s.stages x) ph) ((eqb_iff i j).0 same) new)
    | inr other ↦ rw other (h j)
  ]

  next_phase-ArePlaced :
      (s : System redis backend rate) (i : ℕ) (ph ph' : Ph)
      → s.group.phases i ≡ ph
      → IsInDo ph
      → ArePlaced s
      → (j : ℕ) → IsPlaced j (s.stages j) (set_phase i ph' s.group.phases j)
  next_phase-ArePlaced s i ph ph' e b h = set_phase-ArePlaced s i ph' h (
      Places.next-IsPlaced redis backend rate p visits i (s.stages i) (s.group.phases i) ph'
        (subst IsInDo (sym e) b) (h i))

  -- From `scanned` into `Do`.
  enter-ArePlaced :
      (s : System redis backend rate) (i : ℕ) (ph : Ph)
      → s.stages i ≡ scanned
      → ArePlaced s
      → (j : ℕ) → IsPlaced j (s.stages j) (set_phase i ph s.group.phases j)
  enter-ArePlaced s i ph e h =
      set_phase-ArePlaced s i ph h (
        subst (λ x. IsPlaced i x ph) (sym e) (subst (λ x. IsPlaced i x (s.group.phases i)) e (h i)))

  -- From an early stage to the next one, or to an answer.
  move-ArePlaced :
      (s : System redis backend rate) (i : ℕ) (q : Stage)
      → s.group.phases i ≡ entering
      → ArePlaced s
      → IsPlaced i q entering
      → (j : ℕ) → IsPlaced j (set_stage i q s.stages j) (s.group.phases j)
  move-ArePlaced s i q e h new = set_stage-ArePlaced s i q h (subst (IsPlaced i q) (sym e) new)

  Reach-ArePlaced :
      {s : System redis backend rate} → Reach redis backend rate p visits w s → ArePlaced s
  unfolding look_in_cache look_in_db scan run_callback conclude
  Reach-ArePlaced starts = λ j. refl
  Reach-ArePlaced (goes_on r (looks_in_cache s i e)) =
      let h = Reach-ArePlaced r in
      move-ArePlaced s i
        (leave_cache redis backend rate p (visits i)
          (lookup_cache redis backend rate (visits i).pkg.key s.world)).0
        (subst (λ x. IsPlaced i x (s.group.phases i)) e (h i)) h
        (Places.leave_cache-IsPlaced redis backend rate p visits i
          (lookup_cache redis backend rate (visits i).pkg.key s.world))
  Reach-ArePlaced (goes_on r (looks_in_db s i e)) =
      let h = Reach-ArePlaced r in
      move-ArePlaced s i
        (leave_db redis backend rate p (visits i)
          (lookup_db redis backend rate (visits i).pkg.key s.world)).0
        (subst (λ x. IsPlaced i x (s.group.phases i)) e (h i)) h
        (Places.leave_db-IsPlaced redis backend rate p visits i
          (lookup_db redis backend rate (visits i).pkg.key s.world))
  Reach-ArePlaced (goes_on r (scans s i e)) =
      let h = Reach-ArePlaced r in
      let v = verdict redis backend rate p (visits i) in
      let noted = note_scan redis backend rate (visits i).pkg.key v s.world in
      move-ArePlaced s i (leave_scan redis backend rate p (visits i) v.outcome noted).0
        (subst (λ x. IsPlaced i x (s.group.phases i)) e (h i)) h
        (Places.leave_scan-IsPlaced redis backend rate p visits i v.outcome noted refl)
  Reach-ArePlaced (goes_on r (joins s i c e h q)) =
      enter-ArePlaced s i (waiting (flight_key (visits i)) c) e (Reach-ArePlaced r)
  Reach-ArePlaced (goes_on r (opens s i e h q)) =
      enter-ArePlaced s i (running (flight_key (visits i)) s.group.next_call) e (Reach-ArePlaced r)
  Reach-ArePlaced (goes_on r (calls_back s i k c e)) =
      let a =
        (fetch_as_leader redis backend rate p (visits i).circumstances (visits i).pkg s.world).0 in
      next_phase-ArePlaced s i (running k c) (closing k c a) e tt (Reach-ArePlaced r)
  Reach-ArePlaced (goes_on r (closes s i k c a e)) =
      next_phase-ArePlaced s i (closing k c a) (returned c a true) e tt (Reach-ArePlaced r)
  Reach-ArePlaced (goes_on r (leaves s i k c a e q)) =
      next_phase-ArePlaced s i (waiting k c) (returned c a false) e tt (Reach-ArePlaced r)
  Reach-ArePlaced (goes_on r (concludes s i c a led e q)) =
      let h = Reach-ArePlaced r in
      set_stage-ArePlaced s i (leave_group redis backend rate p (visits i) a led s.world).0 h (
        subst (IsPlaced i (leave_group redis backend rate p (visits i) a led s.world).0) (sym q) (
          Places.leave_group-IsPlaced redis backend rate p visits i c a led s.world
            (subst (λ x. IsPlaced i x (s.group.phases i)) e (h i))))
  Reach-ArePlaced (goes_on r (runs_task s before after t e)) = Reach-ArePlaced r

  -- A request that was answered with the help of `Do`.
  abbrev pub IsFromFlight : ℕ → Result ServeError Artifact → Type 0
  IsFromFlight i r =
      IsClear i
      × (j : ℕ) × (flight_key (visits j) ≡ flight_key (visits i))
      × (a : Result ServeError Bytes) × Fetches redis backend rate p visits w j a
      × (r ≡ Places.reply redis backend rate p visits i a)

  answered-IsFromFlight :
      (g : Group (Result ServeError Bytes)) (i : ℕ) (r : Result ServeError Artifact) (ph : Ph)
      → IsAnswered i r ph
      → IsNamed redis backend rate p visits w g i ph
      → NeedsNoFetch r ⊎ IsFromFlight i r
  answered-IsFromFlight g i r entering h n = inl h
  answered-IsFromFlight g i r (waiting k c) h n = absurd h
  answered-IsFromFlight g i r (running k c) h n = absurd h
  answered-IsFromFlight g i r (closing k c a) h n = absurd h
  answered-IsFromFlight g i r (returned c a led) (clear, e) (j, same, f) =
      inr (clear, j, same, a, f, e)

  -- However requests interleave, an answer is a hit, the refusal of a blocked package, or the
  -- client's part of what one request of the same flight key got from the registry or the limiter,
  -- errors included; and then the scan of the answered request's own package did not say `block`.
  pub Reach-answer :
      {s : System redis backend rate}
      → Reach redis backend rate p visits w s
      → (i : ℕ) (r : Result ServeError Artifact) → s.stages i ≡ answered r
      → NeedsNoFetch r ⊎ IsFromFlight i r
  Reach-answer {s = s} reach i r e =
      answered-IsFromFlight s.group i r (s.group.phases i)
        (subst (λ x. IsPlaced i x (s.group.phases i)) e (Reach-ArePlaced reach i))
        ((Reach-IsHonest redis backend rate p visits w reach).named i)
