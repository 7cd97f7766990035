-- ===== src/Program/Shutdown/Bound.antt =====
-- `run` comes to its end however its goroutines take turns.
use cache_proxyfy.Prelude.{
  ℕ, zero, suc, ◌+◌, ◌≡◌, ◌<◌, refl, sym, subst, ap, Bool, true, false, List, [], ◌∷◌, arith,
}
use cache_proxyfy.Program.Shutdown.{
  ServerName, metrics_server, proxy_server, Activity, starting, listening, crashed, stopped,
  Outcome, Deferred, deferred, Main, waiting, shuts, awaits, unwinding, after, State, is_serving,
  set_server, called, gave, in_activity, in_shutdown, Shutdown, Open, perform, Step, listens, ends,
  sends, wakes, begins, returns, unwinds, Event, Reach,
}
use cache_proxyfy.Program.Shutdown.Ending.{
  here, onward, CanEnd, IsResponsive, Step-IsResponsive, Reach-IsResponsive, responsive-CanEnd,
}

-- Every order of the program's steps from here comes to the end of `run`, and before that some step
-- can be made.
pub data Ends : State → Type 0 where
  ended : (s : State) (r : Outcome) → s.main ≡ unwinding r [] → Ends s
  still : (s t : State) → Step s t → ((u : State) → Step s u → Ends u) → Ends s

unfoldable activity_rank : Activity → ℕ
activity_rank starting = 2
activity_rank listening = 1
activity_rank crashed = 2
activity_rank stopped = 0

unfoldable calls_left : List Deferred → ℕ
calls_left [] = 0
calls_left (d ∷ ds) = suc (calls_left ds)

unfoldable main_rank : Main → ℕ
main_rank waiting = 10
main_rank (shuts metrics_server) = 9
main_rank (awaits metrics_server) = 8
main_rank (shuts proxy_server) = 7
main_rank (awaits proxy_server) = 6
main_rank (unwinding r ds) = calls_left ds

unfoldable quit_rank : Bool → ℕ
quit_rank true = 1
quit_rank false = 0

-- How many steps there can be.
unfoldable rank : State → ℕ
rank s =
    main_rank s.main
    + quit_rank s.quit
    + activity_rank (s.servers metrics_server).activity
    + activity_rank (s.servers proxy_server).activity

in_activity-rank :
    (v : ServerName) (a : Activity) (s : State)
    → rank (in_activity v a s) + activity_rank (s.servers v).activity ≡ rank s + activity_rank a
unfolding rank set_server
in_activity-rank metrics_server a s = omega arith
in_activity-rank proxy_server a s = omega arith

serving-rank : (a : Activity) → is_serving a ≡ true → 0 < activity_rank a
unfolding is_serving activity_rank
serving-rank starting e = omega arith
serving-rank listening e = omega arith
serving-rank crashed e = absurd (cc)
serving-rank stopped e = absurd (cc)

begins-rank : (v : ServerName) → main_rank (awaits v) < main_rank (shuts v)
unfolding main_rank
begins-rank metrics_server = omega arith
begins-rank proxy_server = omega arith

returns-rank : (v : ServerName) (r : Outcome) → main_rank (after v r) < main_rank (awaits v)
unfolding main_rank after deferred calls_left
returns-rank metrics_server r = omega arith
returns-rank proxy_server r = omega arith

in_shutdown-rank :
    (s : State) (v : ServerName) (d : Shutdown) (m : Main)
    → main_rank m < main_rank s.main
    → rank (in_shutdown v d (record s { main = m })) < rank s
unfolding rank set_server
in_shutdown-rank s metrics_server d m h = omega arith
in_shutdown-rank s proxy_server d m h = omega arith

unwinds-rank :
    (s : State) (r : Outcome) (d : Deferred) (ds : List Deferred) (o : Open)
    → s.main ≡ unwinding r (d ∷ ds)
    → rank (record s { main = unwinding r ds; open_parts = o }) < rank s
unfolding rank main_rank calls_left
unwinds-rank s r d ds o e =
    let j : main_rank s.main ≡ suc (calls_left ds) = ap main_rank e in omega arith

sends-rank : (s : State) → s.quit ≡ false → rank (record s { quit = true }) ≡ suc (rank s)
unfolding rank quit_rank
sends-rank s q = let j : quit_rank s.quit ≡ 0 = ap quit_rank q in omega arith

wakes-rank :
    (s : State)
    → s.main ≡ waiting
    → s.quit ≡ true
    → rank (record s { quit = false; main = shuts metrics_server }) < rank s
unfolding rank quit_rank main_rank
wakes-rank s e q =
    let j : quit_rank s.quit ≡ 1 = ap quit_rank q in
    let k : main_rank s.main ≡ 10 = ap main_rank e in omega arith

-- Each step leaves fewer.
Step-rank : {s t : State} → Step s t → rank t < rank s
unfolding activity_rank
Step-rank (listens s v e d) =
    let k = in_activity-rank v listening s in
    let j : activity_rank (s.servers v).activity ≡ 2 = ap activity_rank e in omega arith
Step-rank (ends s v e d) =
    let k = in_activity-rank v stopped s in
    let j = serving-rank (s.servers v).activity e in omega arith
Step-rank (sends s v e q) =
    let k = in_activity-rank v stopped (record s { quit = true }) in
    let j : activity_rank (s.servers v).activity ≡ 2 = ap activity_rank e in
    let l = sends-rank s q in omega arith
Step-rank (wakes s e q) = wakes-rank s e q
Step-rank (begins s v e) =
    in_shutdown-rank s v called (awaits v)
      (subst (λ m. main_rank (awaits v) < main_rank m) (sym e) (begins-rank v))
Step-rank (returns s v r e) =
    in_shutdown-rank s v (gave r) (after v r)
      (subst (λ m. main_rank (after v r) < main_rank m) (sym e) (returns-rank v r))
Step-rank (unwinds s r d ds e) = unwinds-rank s r d ds (perform d s.open_parts) e

Ends-if : (s : State) → CanEnd s → ((u : State) → Step s u → Ends u) → Ends s
Ends-if s (t, r, here u, e) next = ended s r e
Ends-if s (t, r, onward {t = u} x xs, e) next = still s u x next

Ends-below :
    (e : Event) (es : List Event) (n : ℕ) (s : State)
    → rank s < n
    → IsResponsive (e ∷ es) s
    → Ends s
Ends-below e es zero s h w = absurd (omega arith)
Ends-below e es (suc n) s h w = Ends-if s (responsive-CanEnd e es s s.main refl w) (λ u x.
    Ends-below e es n u (let k = Step-rank x in omega arith) (Step-IsResponsive (e ∷ es) x w))

-- From every state after a signal or the failure of a server: in whichever order the goroutines take
-- their steps, and whatever the two Shutdowns give, if nothing more happens `run` comes to its end,
-- behind all its deferred calls; nothing blocks it before that.
pub Reach-Ends : {s : State} (e : Event) (es : List Event) → Reach (e ∷ es) s → Ends s
Reach-Ends {s} e es r = Ends-below e es (suc (rank s)) s (omega arith) (Reach-IsResponsive r)
