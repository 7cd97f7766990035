-- ===== src/Proxy/Concurrent/Progress.antt =====
-- No request that is in `serve` is stuck, whatever the others do.
use cache_proxyfy.Prelude.{
  ℕ, ◌≡◌, ◌⊎◌, inl, inr, refl, ◌∙◌, Bytes, Bool, true, false, Option, none, some, arith, eqb,
  eqb_iff, Result, Option-cases, Bool-cases,
}
use cache_proxyfy.Cache.Redis.{Redis}
use cache_proxyfy.Storage.Backend.{StorageBackend}
use cache_proxyfy.RateLimit.{RateLibrary}
use cache_proxyfy.Security.Advisory.{Outcome, allow, warn, block}
use cache_proxyfy.Singleflight.{
  Phase, entering, waiting, running, closing, returned, join_call, open_call, close_call,
  leave_call, set_phase,
}
use cache_proxyfy.Singleflight.Progress.{IsServed, Reach-IsLive}
use cache_proxyfy.Proxy.World.{Proxy}
use cache_proxyfy.Proxy.Serve.{
  ServeError, Artifact, DbLookup, previously_blocked, located, absent, W, lookup_cache, lookup_db,
  fetch_as_leader,
}
use cache_proxyfy.Proxy.Concurrent.{
  Visit, flight_key, Stage, arrived, missed_cache, missed_db, scanned, answered, set_stage, System,
  Step, looks_in_cache, looks_in_db, scans, joins, opens, calls_back, closes, leaves, concludes,
  Reach, goes_on, leave_cache, leave_db, leave_scan, leave_group, look_in_cache, look_in_db, scan,
  run_callback, conclude,
}
use cache_proxyfy.Proxy.Concurrent.Shared.{Reach-group}

module _ (redis : Redis) (backend : StorageBackend) (rate : RateLibrary) (p : Proxy)
    (visits : ℕ → Visit) where
  -- The steps from one state to another.
  pub data Runs : System redis backend rate → System redis backend rate → Type 0 where
    here : (s : System redis backend rate) → Runs s s
    onward :
        {s t u : System redis backend rate}
        → Step redis backend rate p visits s t
        → Runs t u
        → Runs s u

module _ (redis : Redis) (backend : StorageBackend) (rate : RateLibrary) (p : Proxy)
    (visits : ℕ → Visit) (w : W redis backend rate) (i : ℕ) where
  abbrev Sys : Type 0
  Sys = System redis backend rate

  -- Steps after which the request is answered.
  abbrev pub CanAnswer : Sys → Type 0
  CanAnswer s =
      (t : Sys) × Runs redis backend rate p visits s t
      × (r : Result ServeError Artifact) × (t.stages i ≡ answered r)

  after-CanAnswer : {s t : Sys} → Step redis backend rate p visits s t → CanAnswer t → CanAnswer s
  after-CanAnswer st (u, run, r, e) = (u, onward st run, r, e)

  set_phase_self :
      (ph : Phase (Result ServeError Bytes)) (f : ℕ → Phase (Result ServeError Bytes))
      → set_phase i ph f i ≡ ph
  set_phase_self ph f = rw ((eqb_iff i i).1 refl)

  set_stage_self : (q : Stage) (f : ℕ → Stage) → set_stage i q f i ≡ q
  set_stage_self q f = rw ((eqb_iff i i).1 refl)

  returned-CanAnswer :
      (s : Sys) (c : ℕ) (a : Result ServeError Bytes) (led : Bool)
      → s.stages i ≡ scanned
      → s.group.phases i ≡ returned c a led
      → CanAnswer s
  unfolding conclude leave_group
  returned-CanAnswer s c a led e q =
      after-CanAnswer (concludes s i c a led e q)
        (conclude redis backend rate p visits i a led s, here _, _, set_stage_self _ s.stages)

  closing-CanAnswer :
      (s : Sys) (k : Bytes) (c : ℕ) (a : Result ServeError Bytes)
      → s.stages i ≡ scanned
      → s.group.phases i ≡ closing k c a
      → CanAnswer s
  closing-CanAnswer s k c a e q = after-CanAnswer (closes s i k c a q) (
      returned-CanAnswer (record s { group = close_call i k c a s.group }) c a true e
        (set_phase_self (returned c a true) s.group.phases))

  running-CanAnswer :
      (s : Sys) (k : Bytes) (c : ℕ)
      → s.stages i ≡ scanned
      → s.group.phases i ≡ running k c
      → CanAnswer s
  unfolding run_callback
  running-CanAnswer s k c e q =
      let a =
        (fetch_as_leader redis backend rate p (visits i).circumstances (visits i).pkg s.world).0 in
      after-CanAnswer (calls_back s i k c q) (
        closing-CanAnswer (run_callback redis backend rate p visits i k c s) k c a e
          (set_phase_self (closing k c a) s.group.phases))

  served-CanAnswer :
      (s : Sys) (k : Bytes) (c : ℕ) (a : Result ServeError Bytes)
      → s.stages i ≡ scanned
      → s.group.phases i ≡ waiting k c
      → s.group.results c ≡ some a
      → CanAnswer s
  served-CanAnswer s k c a e q h = after-CanAnswer (leaves s i k c a q h) (
      returned-CanAnswer (record s { group = leave_call i c a s.group }) c a false e
        (set_phase_self (returned c a false) s.group.phases))

  waiting-CanAnswer :
      (s : Sys) (k : Bytes) (c : ℕ)
      → Reach redis backend rate p visits w s
      → s.stages i ≡ scanned
      → s.group.phases i ≡ waiting k c
      → CanAnswer s
  unfolding run_callback IsServed
  waiting-CanAnswer s k c r e q =
      elim ((Reach-IsLive (Reach-group redis backend rate p visits w r)).served i k c q) [
        | inl (a, h) ↦ served-CanAnswer s k c a e q h
        | inr (j, h) ↦
            let f =
              fetch_as_leader redis backend rate p (visits j).circumstances (visits j).pkg
                s.world in
            after-CanAnswer (calls_back s j k c h) (
              served-CanAnswer (run_callback redis backend rate p visits j k c s) k c f.0 e
                (elim (Bool-cases (eqb j i)) [
                  | inl same ↦ absurd (ground (arith, eqb_iff j i))
                  | inr other ↦ rw other q
                ])
                (rw ((eqb_iff c c).1 refl) refl))
      ]

  scanned-CanAnswer :
      (s : Sys) (ph : Phase (Result ServeError Bytes))
      → Reach redis backend rate p visits w s
      → s.stages i ≡ scanned
      → s.group.phases i ≡ ph
      → CanAnswer s
  scanned-CanAnswer s entering r e q =
      let k = flight_key (visits i) in
      elim (Option-cases (s.group.calls k)) [
        | inl new ↦ after-CanAnswer (opens s i e q new) (
            running-CanAnswer (record s { group = open_call i k s.group }) k s.group.next_call e
              (set_phase_self (running k s.group.next_call) s.group.phases))
        | inr (c, old) ↦ after-CanAnswer (joins s i c e q old) (
            waiting-CanAnswer (record s { group = join_call i k c s.group }) k c
              (goes_on r (joins s i c e q old)) e (set_phase_self (waiting k c) s.group.phases))
      ]
  scanned-CanAnswer s (waiting k c) r e q = waiting-CanAnswer s k c r e q
  scanned-CanAnswer s (running k c) r e q = running-CanAnswer s k c e q
  scanned-CanAnswer s (closing k c a) r e q = closing-CanAnswer s k c a e q
  scanned-CanAnswer s (returned c a led) r e q = returned-CanAnswer s c a led e q

  -- A stage before the scan, after its step: the next stage, or an answer.
  abbrev IsNext : Stage → Stage → Type 0
  IsNext q next = (q ≡ next) ⊎ ((r : Result ServeError Artifact) × (q ≡ answered r))

  leave_scan-IsNext :
      (o : Outcome) (u : W redis backend rate)
      → IsNext (leave_scan redis backend rate p (visits i) o u).0 scanned
  unfolding leave_scan
  leave_scan-IsNext allow u = inl refl
  leave_scan-IsNext warn u = inl refl
  leave_scan-IsNext block u = inr (_, refl)

  leave_db-IsNext :
      (l : DbLookup × W redis backend rate)
      → IsNext (leave_db redis backend rate p (visits i) l).0 missed_db
  unfolding leave_db
  leave_db-IsNext (absent, u) = inl refl
  leave_db-IsNext (previously_blocked, u) = inr (_, refl)
  leave_db-IsNext (located checksum b, u) = inr (_, refl)

  leave_cache-IsNext :
      (found : Option Bytes × W redis backend rate)
      → IsNext (leave_cache redis backend rate p (visits i) found).0 missed_cache
  unfolding leave_cache
  leave_cache-IsNext (none, u) = inl refl
  leave_cache-IsNext (some b, u) = inr (_, refl)

  -- A request whose stage is the next one or an answer can be answered where the next one can.
  next-CanAnswer :
      (t : Sys) (q next : Stage)
      → t.stages i ≡ q
      → IsNext q next
      → (t.stages i ≡ next → CanAnswer t)
      → CanAnswer t
  next-CanAnswer t q next e (inl h) k = k (e ∙ h)
  next-CanAnswer t q next e (inr (r, h)) k = (t, here t, r, e ∙ h)

  missed_db-CanAnswer :
      (s : Sys) → Reach redis backend rate p visits w s → s.stages i ≡ missed_db → CanAnswer s
  unfolding scan
  missed_db-CanAnswer s r e =
      let t : Sys = scan redis backend rate p visits i s in
      after-CanAnswer (scans s i e) (
        next-CanAnswer t _ scanned (set_stage_self _ s.stages) (leave_scan-IsNext _ _)
          (λ q. scanned-CanAnswer t (t.group.phases i) (goes_on r (scans s i e)) q refl))

  missed_cache-CanAnswer :
      (s : Sys) → Reach redis backend rate p visits w s → s.stages i ≡ missed_cache → CanAnswer s
  unfolding look_in_db
  missed_cache-CanAnswer s r e =
      let t : Sys = look_in_db redis backend rate p visits i s in
      after-CanAnswer (looks_in_db s i e) (
        next-CanAnswer t _ missed_db (set_stage_self _ s.stages)
          (leave_db-IsNext (lookup_db redis backend rate (visits i).pkg.key s.world))
          (missed_db-CanAnswer t (goes_on r (looks_in_db s i e))))

  arrived-CanAnswer :
      (s : Sys) → Reach redis backend rate p visits w s → s.stages i ≡ arrived → CanAnswer s
  unfolding look_in_cache
  arrived-CanAnswer s r e =
      let t : Sys = look_in_cache redis backend rate p visits i s in
      after-CanAnswer (looks_in_cache s i e) (
        next-CanAnswer t _ missed_cache (set_stage_self _ s.stages)
          (leave_cache-IsNext (lookup_cache redis backend rate (visits i).pkg.key s.world))
          (missed_cache-CanAnswer t (goes_on r (looks_in_cache s i e))))

  stage-CanAnswer :
      (s : Sys) (q : Stage) → Reach redis backend rate p visits w s → s.stages i ≡ q → CanAnswer s
  stage-CanAnswer s arrived r e = arrived-CanAnswer s r e
  stage-CanAnswer s missed_cache r e = missed_cache-CanAnswer s r e
  stage-CanAnswer s missed_db r e = missed_db-CanAnswer s r e
  stage-CanAnswer s scanned r e = scanned-CanAnswer s (s.group.phases i) r e refl
  stage-CanAnswer s (answered a) r e = (s, here s, a, e)

  -- From every state that requests in `serve` can come to, every one of them can be brought to its
  -- answer: none waits for a call that nobody runs.
  pub Reach-CanAnswer : {s : Sys} → Reach redis backend rate p visits w s → CanAnswer s
  Reach-CanAnswer {s = s} r = stage-CanAnswer s (s.stages i) r refl
