-- ===== src/Proxy/Http/Series.antt =====
-- The series that the counters of the proxy count in, among those that internal/metrics/metrics.go
-- starts.
use cache_proxyfy.Prelude.{ℕ, subst, inl, inr, Bytes, codes, none, some, List, [], ◌∷◌, arith}
use cache_proxyfy.Metrics.{Series, series, by_ecosystem, series_for, new_series}
use cache_proxyfy.Security.Advisory.{outcome_string}
use cache_proxyfy.Security.Checker.{Verdict}
use cache_proxyfy.Proxy.World.{
  Metric, requests_total, bytes_served_total, upstream_fetches_total, cve_scans_total,
  upstream_retries_total,
}
use cache_proxyfy.Proxy.Serve.{CacheStatus, hit, miss, status_string, repeat_metric}
use cache_proxyfy.Proxy.Http.Routing.{Among, Among-left, Among-right}

-- The series that a counter counts in.
unfoldable pub series_of : Metric → Series
series_of (requests_total e r) =
    series (codes "requests_total") (by_ecosystem e (codes "result", r))
series_of (bytes_served_total e r n) =
    series (codes "bytes_served_total") (by_ecosystem e (codes "result", r))
series_of (upstream_fetches_total e s) =
    series (codes "upstream_fetches_total") (by_ecosystem e (codes "status", s))
series_of (cve_scans_total e o) =
    series (codes "cve_scans_total") (by_ecosystem e (codes "outcome", o))
series_of (upstream_retries_total e) =
    series (codes "upstream_retries_total") ((codes "ecosystem", e) ∷ [])

-- Every counter is of a series that New starts for these ecosystems.
unfoldable pub AreStarted : List Bytes → List Metric → Type 0
AreStarted names [] = Unit
AreStarted names (m ∷ ms) = Among (series_of m) (new_series names) × AreStarted names ms

pub Among-new_series :
    (e : Bytes) (s : Series) (names : List Bytes)
    → Among e names
    → Among s (series_for e)
    → Among s (new_series names)
unfolding new_series
Among-new_series e s [] h k = elim h [ ]
Among-new_series e s (x ∷ names) (inl h) k =
    Among-left s (series_for x) (new_series names) (subst (λ y. Among s (series_for y)) h k)
Among-new_series e s (x ∷ names) (inr h) k =
    Among-right s (series_for x) (new_series names) (Among-new_series e s names h k)

module _ (names : List Bytes) (e : Bytes) (on : Among e names) where
  abbrev IsStarted : Metric → Type 0
  IsStarted m = Among (series_of m) (new_series names)

  pub requests-IsStarted : (s : CacheStatus) → IsStarted (requests_total e (status_string s))
  unfolding series_of series_for status_string
  requests-IsStarted hit =
      Among-new_series e (series_of (requests_total e (codes "hit"))) names on (ground arith)
  requests-IsStarted miss =
      Among-new_series e (series_of (requests_total e (codes "miss"))) names on (ground arith)

  pub errors-IsStarted : IsStarted (requests_total e (codes "error"))
  unfolding series_of series_for
  errors-IsStarted =
      Among-new_series e (series_of (requests_total e (codes "error"))) names on (ground arith)

  pub bytes-IsStarted :
      (s : CacheStatus) (n : ℕ) → IsStarted (bytes_served_total e (status_string s) n)
  unfolding series_of series_for status_string
  bytes-IsStarted hit n =
      Among-new_series e (series_of (bytes_served_total e (codes "hit") n)) names on (ground arith)
  bytes-IsStarted miss n =
      Among-new_series e (series_of (bytes_served_total e (codes "miss") n)) names on (ground arith)

  pub fetches-IsStarted :
      IsStarted (upstream_fetches_total e (codes "ok"))
      × IsStarted (upstream_fetches_total e (codes "error"))
  unfolding series_of series_for
  fetches-IsStarted = (
    Among-new_series e (series_of (upstream_fetches_total e (codes "ok"))) names on (ground arith),
    Among-new_series e (series_of (upstream_fetches_total e (codes "error"))) names on
        (ground arith),
  )

  pub scans-IsStarted :
      (v : Verdict)
      → IsStarted (
          cve_scans_total e
            (elim v.err [ none ↦ outcome_string v.outcome | some x ↦ codes "error" ]))
  unfolding series_of series_for outcome_string
  scans-IsStarted v =
      Among-new_series e
        (series_of (
          cve_scans_total e
            (elim v.err [ none ↦ outcome_string v.outcome | some x ↦ codes "error" ])))
        names on (ground arith)

  retries-IsStarted : IsStarted (upstream_retries_total e)
  unfolding series_of series_for
  retries-IsStarted =
      Among-new_series e (series_of (upstream_retries_total e)) names on (ground arith)

  pub repeat_metric-AreStarted :
      (ds : List ℕ) (ms : List Metric)
      → AreStarted names ms
      → AreStarted names (repeat_metric (upstream_retries_total e) ds ms)
  unfolding AreStarted
  repeat_metric-AreStarted [] ms h = h
  repeat_metric-AreStarted (d ∷ ds) ms h = (retries-IsStarted, repeat_metric-AreStarted ds ms h)
