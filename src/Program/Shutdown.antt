-- ===== src/Program/Shutdown.antt =====
-- main.go: `run` from the start of its two servers to its end, as steps of the main goroutine, of
-- the two goroutines that serve, and of what happens to them. net/http is not under the program's
-- control: a server that was told to shut down returns from ListenAndServe, and what Shutdown gives
-- is whatever a step says, the deadline of 15 seconds included.
pub mod Order
pub mod Ending
pub mod Bound
use cache_proxyfy.Prelude.{◌≡◌, Bool, true, false, List, [], ◌∷◌, Result}

pub data ServerName : Type 0 where
  metrics_server : ServerName
  proxy_server : ServerName

-- Where a server's goroutine stands: before ListenAndServe, in it, behind it with an error of the
-- server's own, and at its end.
pub data Activity : Type 0 where
  starting : Activity
  listening : Activity
  crashed : Activity
  stopped : Activity

unfoldable pub is_serving : Activity → Bool
is_serving starting = true
is_serving listening = true
is_serving crashed = false
is_serving stopped = false

pub data ShutdownError : Type 0 where
  deadline_exceeded : ShutdownError
  listener_failed : ShutdownError

abbrev pub Outcome : Type 0
Outcome = Result ShutdownError Unit

pub data Shutdown : Type 0 where
  not_called : Shutdown
  called : Shutdown
  gave : Outcome → Shutdown

unfoldable pub is_down : Shutdown → Bool
is_down not_called = false
is_down called = true
is_down (gave r) = true

pub record Server : Type 0 where
  pub activity : Activity
  pub shutdown : Shutdown

-- What `run` has deferred.
pub data Deferred : Type 0 where
  cancel_timeout : Deferred
  cancel_eviction : Deferred
  close_database : Deferred
  close_redis : Deferred

-- The last deferred call is made first.
unfoldable pub deferred : List Deferred
deferred = cancel_timeout ∷ cancel_eviction ∷ close_database ∷ close_redis ∷ []

-- What the servers and the worker use.
pub record Open : Type 0 where
  pub database : Bool
  pub redis : Bool
  pub eviction : Bool

unfoldable pub perform : Deferred → Open → Open
perform cancel_timeout o = o
perform cancel_eviction o = record o { eviction = false }
perform close_database o = record o { database = false }
perform close_redis o = record o { redis = false }

-- Where the main goroutine stands: at `<-quit`, before and in the Shutdown of a server, and at its
-- deferred calls with the result of `run`.
pub data Main : Type 0 where
  waiting : Main
  shuts : ServerName → Main
  awaits : ServerName → Main
  unwinding : Outcome → List Deferred → Main

-- Behind a Shutdown. What that of the metrics server gives is not looked at.
unfoldable pub after : ServerName → Outcome → Main
after metrics_server r = shuts proxy_server
after proxy_server r = unwinding r deferred

-- `quit` has room for one signal.
pub record State : Type 0 where
  pub servers : ServerName → Server
  pub quit : Bool
  pub main : Main
  pub open_parts : Open

unfoldable pub set_server : ServerName → Server → (ServerName → Server) → ServerName → Server
set_server metrics_server x f metrics_server = x
set_server metrics_server x f proxy_server = f proxy_server
set_server proxy_server x f metrics_server = f metrics_server
set_server proxy_server x f proxy_server = x

abbrev pub in_activity : ServerName → Activity → State → State
in_activity v a s = record s {
  servers = set_server v (record (s.servers v) { activity = a }) s.servers;
}

abbrev pub in_shutdown : ServerName → Shutdown → State → State
in_shutdown v d s = record s {
  servers = set_server v (record (s.servers v) { shutdown = d }) s.servers;
}

pub data Event : Type 0 where
  signalled : Event
  failed : ServerName → Event

-- What happens to the program: SIGINT or SIGTERM, which is dropped when `quit` is full, and the
-- failure of a server, which may have been told to shut down just then.
pub data Happens : Event → State → State → Type 0 where
  gets_signal : (s : State) → Happens signalled s (record s { quit = true })
  fails :
      (s : State) (v : ServerName)
      → is_serving (s.servers v).activity ≡ true
      → Happens (failed v) s (in_activity v crashed s)

pub data Step : State → State → Type 0 where
  listens :
      (s : State) (v : ServerName)
      → (s.servers v).activity ≡ starting
      → is_down (s.servers v).shutdown ≡ false
      → Step s (in_activity v listening s)
  ends :
      (s : State) (v : ServerName)
      → is_serving (s.servers v).activity ≡ true
      → is_down (s.servers v).shutdown ≡ true
      → Step s (in_activity v stopped s)
  sends :
      (s : State) (v : ServerName)
      → (s.servers v).activity ≡ crashed
      → s.quit ≡ false
      → Step s (in_activity v stopped (record s { quit = true }))
  wakes :
      (s : State)
      → s.main ≡ waiting
      → s.quit ≡ true
      → Step s (record s { quit = false; main = shuts metrics_server })
  begins :
      (s : State) (v : ServerName)
      → s.main ≡ shuts v
      → Step s (in_shutdown v called (record s { main = awaits v }))
  returns :
      (s : State) (v : ServerName) (r : Outcome)
      → s.main ≡ awaits v
      → Step s (in_shutdown v (gave r) (record s { main = after v r }))
  unwinds :
      (s : State) (r : Outcome) (d : Deferred) (ds : List Deferred)
      → s.main ≡ unwinding r (d ∷ ds)
      → Step s (record s { main = unwinding r ds; open_parts = perform d s.open_parts })

abbrev pub all_open : Open
all_open = record { database = true; redis = true; eviction = true }

abbrev pub all_closed : Open
all_closed = record { database = false; redis = false; eviction = false }

abbrev pub at_start : State
at_start = record {
  servers = λ v. record { activity = starting; shutdown = not_called };
  quit = false;
  main = waiting;
  open_parts = all_open;
}

-- The states that `run` comes to, with what has happened so far, the last first.
pub data Reach : List Event → State → Type 0 where
  starts : Reach [] at_start
  goes_on : {es : List Event} {s t : State} → Reach es s → Step s t → Reach es t
  happens :
      {es : List Event} {e : Event} {s t : State} → Reach es s → Happens e s t → Reach (e ∷ es) t
