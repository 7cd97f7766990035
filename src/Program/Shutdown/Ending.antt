-- ===== src/Program/Shutdown/Ending.antt =====
-- When `run` comes to its end.
use cache_proxyfy.Prelude.{◌≡◌, ◌⊎◌, inl, inr, refl, true, false, Bool-cases, List, [], ◌∷◌, ok}
use cache_proxyfy.Program.Shutdown.{
  ServerName, metrics_server, proxy_server, Activity, starting, listening, crashed, stopped,
  Outcome, Deferred, deferred, Main, waiting, shuts, awaits, unwinding, after, State, is_serving,
  set_server, in_activity, Happens, gets_signal, fails, Step, listens, ends, sends, wakes, begins,
  returns, unwinds, Event, Reach, starts, goes_on, happens,
}

pub data Steps : State → State → Type 0 where
  here : (s : State) → Steps s s
  onward : {s t u : State} → Step s t → Steps t u → Steps s u

-- The program's own steps to the end of `run`, behind the deferred calls.
abbrev pub CanEnd : State → Type 0
CanEnd s = (t : State) × (r : Outcome) × Steps s t × (t.main ≡ unwinding r [])

ended_by : {s t : State} → Step s t → CanEnd t → CanEnd s
ended_by x (u, r, xs, e) = (u, r, onward x xs, e)

unwinding-CanEnd :
    (ds : List Deferred) (r : Outcome) (s : State) → s.main ≡ unwinding r ds → CanEnd s
unwinding-CanEnd [] r s e = (s, r, here s, e)
unwinding-CanEnd (d ∷ ds) r s e = ended_by (unwinds s r d ds e) (unwinding-CanEnd ds r _ refl)

awaits_proxy-CanEnd : (s : State) → s.main ≡ awaits proxy_server → CanEnd s
unfolding after
awaits_proxy-CanEnd s e =
    ended_by (returns s proxy_server (ok tt) e) (unwinding-CanEnd deferred (ok tt) _ refl)

awaits-CanEnd : (v : ServerName) (s : State) → s.main ≡ awaits v → CanEnd s
unfolding after
awaits-CanEnd proxy_server s e = awaits_proxy-CanEnd s e
awaits-CanEnd metrics_server s e =
    ended_by (returns s metrics_server (ok tt) e)
      (ended_by (begins _ proxy_server refl) (awaits_proxy-CanEnd _ refl))

shuts-CanEnd : (v : ServerName) (s : State) → s.main ≡ shuts v → CanEnd s
shuts-CanEnd v s e = ended_by (begins s v e) (awaits-CanEnd v _ refl)

wakes-CanEnd : (s : State) → s.main ≡ waiting → s.quit ≡ true → CanEnd s
wakes-CanEnd s e q = ended_by (wakes s e q) (shuts-CanEnd metrics_server _ refl)

crashed-CanEnd :
    (s : State) (v : ServerName) → s.main ≡ waiting → (s.servers v).activity ≡ crashed → CanEnd s
crashed-CanEnd s v e c = elim (Bool-cases s.quit) [
  | inl full ↦ wakes-CanEnd s e full
  | inr free ↦ ended_by (sends s v c free) (wakes-CanEnd _ e refl)
]

-- What will wake the main goroutine: a signal in `quit`, or a server that is about to send one.
abbrev IsCalled : State → Type 0
IsCalled s = (s.quit ≡ true) ⊎ ((v : ServerName) × ((s.servers v).activity ≡ crashed))

-- Nothing wakes it but an event, and every event does.
abbrev pub IsResponsive : List Event → State → Type 0
IsResponsive [] s =
    (s.main ≡ waiting)
    × (s.quit ≡ false)
    × ((v : ServerName) → (s.servers v).activity ≡ crashed → ⊥)
IsResponsive (e ∷ es) s = s.main ≡ waiting → IsCalled s

in_activity-crashed :
    (v u : ServerName) (a : Activity) (s : State)
    → (a ≡ crashed → ⊥)
    → ((in_activity v a s).servers u).activity ≡ crashed
    → (s.servers u).activity ≡ crashed
unfolding set_server
in_activity-crashed metrics_server metrics_server a s n c = absurd (n c)
in_activity-crashed metrics_server proxy_server a s n c = c
in_activity-crashed proxy_server metrics_server a s n c = c
in_activity-crashed proxy_server proxy_server a s n c = absurd (n c)

crashed-in_activity :
    (v u : ServerName) (a : Activity) (s : State)
    → ((s.servers v).activity ≡ crashed → ⊥)
    → (s.servers u).activity ≡ crashed
    → ((in_activity v a s).servers u).activity ≡ crashed
unfolding set_server
crashed-in_activity metrics_server metrics_server a s n c = absurd (n c)
crashed-in_activity metrics_server proxy_server a s n c = c
crashed-in_activity proxy_server metrics_server a s n c = c
crashed-in_activity proxy_server proxy_server a s n c = absurd (n c)

-- A goroutine that has not crashed moves.
moves-IsResponsive :
    (es : List Event) (v : ServerName) (a : Activity) (s : State)
    → ((s.servers v).activity ≡ crashed → ⊥)
    → (a ≡ crashed → ⊥)
    → IsResponsive es s
    → IsResponsive es (in_activity v a s)
moves-IsResponsive [] v a s n k (w, q, c) = (w, q, λ u x. c u (in_activity-crashed v u a s k x))
moves-IsResponsive (e ∷ es) v a s n k h =
    λ w. elim (h w) [ inl q ↦ inl q | inr (u, c) ↦ inr (u, crashed-in_activity v u a s n c) ]

is_serving-no_crash : (a : Activity) → is_serving a ≡ true → a ≡ crashed → ⊥
unfolding is_serving
is_serving-no_crash starting e c = cc
is_serving-no_crash listening e c = cc
is_serving-no_crash crashed e c = cc
is_serving-no_crash stopped e c = cc

-- The main goroutine is awake.
awake-IsResponsive :
    (es : List Event) (s t : State)
    → (s.main ≡ waiting → ⊥)
    → (t.main ≡ waiting → ⊥)
    → IsResponsive es s
    → IsResponsive es t
awake-IsResponsive [] s t n k (w, q, c) = absurd (n w)
awake-IsResponsive (e ∷ es) s t n k h = λ w. absurd (k w)

sends-IsResponsive :
    (es : List Event) (s : State) (v : ServerName)
    → (s.servers v).activity ≡ crashed
    → IsResponsive es s
    → IsResponsive es (in_activity v stopped (record s { quit = true }))
sends-IsResponsive [] s v c (w, q, none_crashed) = absurd (none_crashed v c)
sends-IsResponsive (e ∷ es) s v c h = λ w. inl refl

wakes-IsResponsive :
    (es : List Event) (s : State)
    → s.quit ≡ true
    → IsResponsive es s
    → IsResponsive es (record s { quit = false; main = shuts metrics_server })
wakes-IsResponsive [] s q (w, free, rest) = absurd (cc)
wakes-IsResponsive (e ∷ es) s q h = λ w. absurd (cc)

after-not_waiting : (v : ServerName) (r : Outcome) → after v r ≡ waiting → ⊥
unfolding after
after-not_waiting metrics_server r e = cc
after-not_waiting proxy_server r e = cc

pub Step-IsResponsive :
    (es : List Event) {s t : State} → Step s t → IsResponsive es s → IsResponsive es t
Step-IsResponsive es (listens s v e d) = moves-IsResponsive es v _ s (λ c. cc) (λ c. cc)
Step-IsResponsive es (ends s v e d) =
    moves-IsResponsive es v _ s (is_serving-no_crash _ e) (λ c. cc)
Step-IsResponsive es (sends s v e q) = sends-IsResponsive es s v e
Step-IsResponsive es (wakes s e q) = wakes-IsResponsive es s q
Step-IsResponsive es (begins s v e) = awake-IsResponsive es s _ (λ w. cc) (λ w. cc)
Step-IsResponsive es (returns s v r e) = awake-IsResponsive es s _ (λ w. cc) (after-not_waiting v r)
Step-IsResponsive es (unwinds s r d ds e) = awake-IsResponsive es s _ (λ w. cc) (λ w. cc)

fails-IsCalled : (v : ServerName) (s : State) → IsCalled (in_activity v crashed s)
unfolding set_server
fails-IsCalled metrics_server s = inr (metrics_server, refl)
fails-IsCalled proxy_server s = inr (proxy_server, refl)

Happens-IsResponsive :
    (es : List Event) {e : Event} {s t : State} → Happens e s t → IsResponsive (e ∷ es) t
Happens-IsResponsive es (gets_signal s) = λ w. inl refl
Happens-IsResponsive es (fails s v e) = λ w. fails-IsCalled v s

pub Reach-IsResponsive : {es : List Event} {s : State} → Reach es s → IsResponsive es s
Reach-IsResponsive starts = (refl, refl, λ v c. cc)
Reach-IsResponsive (goes_on r x) = Step-IsResponsive _ x (Reach-IsResponsive r)
Reach-IsResponsive (happens {es} r x) = Happens-IsResponsive es x

pub responsive-CanEnd :
    (e : Event) (es : List Event) (s : State) (m : Main)
    → s.main ≡ m
    → IsResponsive (e ∷ es) s
    → CanEnd s
responsive-CanEnd e es s waiting w h = elim (h w) [
  | inl q ↦ wakes-CanEnd s w q
  | inr (v, c) ↦ crashed-CanEnd s v w c
]
responsive-CanEnd e es s (shuts v) w h = shuts-CanEnd v s w
responsive-CanEnd e es s (awaits v) w h = awaits-CanEnd v s w
responsive-CanEnd e es s (unwinding r ds) w h = unwinding-CanEnd ds r s w
