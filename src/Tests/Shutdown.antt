-- ===== src/Tests/Shutdown.antt =====
-- A run whose metrics server fails at its start.
use cache_proxyfy.Prelude.{◌≡◌, refl, [], ◌∷◌, err, ok}
use cache_proxyfy.Program.Shutdown.{
  metrics_server, proxy_server, deadline_exceeded, State, unwinding, after, deferred, perform,
  set_server, is_serving, is_down, failed, fails, listens, ends, sends, wakes, begins, returns,
  unwinds, Reach, starts, goes_on, happens,
}
use cache_proxyfy.Program.Shutdown.Order.{IsOrderly, Reach-IsOrderly}
use cache_proxyfy.Program.Shutdown.Bound.{Ends, Reach-Ends}

-- The port is taken: the goroutine of the metrics server sends its signal.
called_run : (s : State) × Reach (failed metrics_server ∷ []) s
unfolding set_server is_serving is_down
called_run = (
  _,
  goes_on
      (goes_on (happens starts (fails _ metrics_server refl)) (listens _ proxy_server refl refl))
      (sends _ metrics_server refl refl),
)

-- The proxy's Shutdown runs out of time.
ended_run :
    (s : State) × Reach (failed metrics_server ∷ []) s
    × (s.main ≡ unwinding (err deadline_exceeded) [])
unfolding set_server is_serving is_down after deferred perform
ended_run = (
  _,
  goes_on
      (goes_on
        (goes_on
          (goes_on
            (goes_on
              (goes_on
                (goes_on
                  (goes_on
                    (goes_on
                      (goes_on
                        (goes_on
                          (goes_on (happens starts (fails _ metrics_server refl))
                            (listens _ proxy_server refl refl))
                          (sends _ metrics_server refl refl))
                        (wakes _ refl refl))
                      (begins _ metrics_server refl))
                    (returns _ metrics_server (ok tt) refl))
                  (begins _ proxy_server refl))
                (ends _ proxy_server refl refl))
              (returns _ proxy_server (err deadline_exceeded) refl))
            (unwinds _ _ _ _ refl))
          (unwinds _ _ _ _ refl))
        (unwinds _ _ _ _ refl))
      (unwinds _ _ _ _ refl),
  refl,
)

Reach-IsOrderly_example : IsOrderly ended_run.0
Reach-IsOrderly_example = Reach-IsOrderly ended_run.1

Reach-Ends_example : Ends called_run.0
Reach-Ends_example = Reach-Ends (failed metrics_server) [] called_run.1
