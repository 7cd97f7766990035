-- ===== src/Program/Shutdown/Order.antt =====
-- In which order `run` shuts down.
use cache_proxyfy.Prelude.{◌≡◌, refl, subst, List, [], ◌∷◌}
use cache_proxyfy.Program.Shutdown.{
  ServerName, metrics_server, proxy_server, Activity, Outcome, Shutdown, not_called, called, gave,
  Deferred, deferred, Open, perform, Main, waiting, shuts, awaits, unwinding, after, State,
  set_server, in_activity, Happens, gets_signal, fails, Step, listens, ends, sends, wakes, begins,
  returns, unwinds, all_open, all_closed, Event, Reach, starts, goes_on, happens,
}

abbrev perform_all : List Deferred → Open → Open
perform_all [] o = o
perform_all (d ∷ ds) o = perform_all ds (perform d o)

-- What holds where the main goroutine stands. The parts that the servers use are open until both
-- servers are shut down, then closed one by one.
abbrev OrderAt : Main → Shutdown → Shutdown → Open → Type 0
OrderAt waiting m p o = (m ≡ not_called) × (p ≡ not_called) × (o ≡ all_open)
OrderAt (shuts metrics_server) m p o = (m ≡ not_called) × (p ≡ not_called) × (o ≡ all_open)
OrderAt (awaits metrics_server) m p o = (m ≡ called) × (p ≡ not_called) × (o ≡ all_open)
OrderAt (shuts proxy_server) m p o =
    ((x : Outcome) × (m ≡ gave x)) × (p ≡ not_called) × (o ≡ all_open)
OrderAt (awaits proxy_server) m p o = ((x : Outcome) × (m ≡ gave x)) × (p ≡ called) × (o ≡ all_open)
OrderAt (unwinding r ds) m p o =
    ((x : Outcome) × (m ≡ gave x)) × (p ≡ gave r) × (perform_all ds o ≡ all_closed)

abbrev pub IsOrderly : State → Type 0
IsOrderly s =
    OrderAt s.main (s.servers metrics_server).shutdown (s.servers proxy_server).shutdown
      s.open_parts

activity-IsOrderly :
    (v : ServerName) (a : Activity) (s : State) → IsOrderly s → IsOrderly (in_activity v a s)
unfolding set_server
activity-IsOrderly metrics_server a s h = h
activity-IsOrderly proxy_server a s h = h

returns-IsOrderly :
    (v : ServerName) (r : Outcome) (s : State)
    → OrderAt
        (awaits v)
        (s.servers metrics_server).shutdown
        (s.servers proxy_server).shutdown
        s.open_parts
    → IsOrderly (record s {
      main = after v r;
      servers = set_server v (record (s.servers v) { shutdown = gave r }) s.servers;
    })
unfolding after set_server deferred perform
returns-IsOrderly metrics_server r s (m, p, o) = ((r, refl), p, o)
returns-IsOrderly proxy_server r s (m, p, o) = (m, refl, λ i. perform_all deferred (o i))

at_main :
    (s : State) {m : Main}
    → s.main ≡ m
    → IsOrderly s
    → OrderAt m (s.servers metrics_server).shutdown (s.servers proxy_server).shutdown s.open_parts
at_main s e h =
    subst
      (λ x.
        OrderAt x (s.servers metrics_server).shutdown (s.servers proxy_server).shutdown
          s.open_parts)
      e h

Step-IsOrderly : {s t : State} → Step s t → IsOrderly s → IsOrderly t
unfolding set_server
Step-IsOrderly (listens s v e d) h = activity-IsOrderly v _ s h
Step-IsOrderly (ends s v e d) h = activity-IsOrderly v _ s h
Step-IsOrderly (sends s v e q) h = activity-IsOrderly v _ s h
Step-IsOrderly (wakes s e q) h = at_main s e h
Step-IsOrderly (begins s metrics_server e) h = let (m, p, o) = at_main s e h in (refl, p, o)
Step-IsOrderly (begins s proxy_server e) h = let (m, p, o) = at_main s e h in (m, refl, o)
Step-IsOrderly (returns s v r e) h = returns-IsOrderly v r s (at_main s e h)
Step-IsOrderly (unwinds s r d ds e) h = at_main s e h

Happens-IsOrderly : {e : Event} {s t : State} → Happens e s t → IsOrderly s → IsOrderly t
Happens-IsOrderly (gets_signal s) h = h
Happens-IsOrderly (fails s v e) h = activity-IsOrderly v _ s h

-- In every state that `run` comes to, whatever happens to it: until the main goroutine is woken no
-- server is told to shut down; the proxy is told only when the metrics server's Shutdown has given
-- something; the database, Redis and the eviction worker are kept until both have; and where `run`
-- has made its deferred calls they are closed, and its result is what the proxy's Shutdown gave.
pub Reach-IsOrderly : {es : List Event} {s : State} → Reach es s → IsOrderly s
Reach-IsOrderly starts = (refl, refl, refl)
Reach-IsOrderly (goes_on r x) = Step-IsOrderly x (Reach-IsOrderly r)
Reach-IsOrderly (happens r x) = Happens-IsOrderly x (Reach-IsOrderly r)
