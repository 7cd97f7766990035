-- ===== src/Metrics.antt =====
-- internal/metrics/metrics.go: the families that New registers, and the labelled series that it starts
-- at zero. Names are without the prefix "cacheproxyfy_"; help texts and buckets are left out.
use cache_proxyfy.Prelude.{
  ◌≡◌, Bytes, codes, Bool, true, false, ◌&&◌, List, [], ◌∷◌, ◌++◌, ◌==◌, any, arith, refl,
}

pub data Kind : Type 0 where
  counter histogram gauge : Kind

-- A metric with its labels' names.
pub record Family : Type 0 where
  pub kind : Kind
  pub name : Bytes
  pub labels : List Bytes

abbrev family : Kind → Bytes → List Bytes → Family
family kind name labels = record { kind = kind; name = name; labels = labels }

-- The fields of `Metrics`, in the order in which New registers them.
unfoldable pub families : List Family
families =
    family counter (codes "requests_total") (codes "ecosystem" ∷ codes "result" ∷ [])
    ∷ family histogram (codes "request_duration_seconds") (codes "ecosystem" ∷ codes "result" ∷ [])
    ∷ family counter (codes "bytes_served_total") (codes "ecosystem" ∷ codes "result" ∷ [])
    ∷ family histogram (codes "package_size_bytes") (codes "ecosystem" ∷ [])
    ∷ family counter (codes "upstream_fetches_total") (codes "ecosystem" ∷ codes "status" ∷ [])
    ∷ family histogram (codes "upstream_fetch_duration_seconds") (codes "ecosystem" ∷ [])
    ∷ family counter (codes "cve_scans_total") (codes "ecosystem" ∷ codes "outcome" ∷ [])
    ∷ family gauge (codes "inflight_requests") []
    ∷ family histogram (codes "rate_limit_wait_duration_seconds") (codes "ecosystem" ∷ [])
    ∷ family counter (codes "upstream_retries_total") (codes "ecosystem" ∷ [])
    ∷ []

-- A series: its family, and its labels with their values.
pub data Series : Type 0 where
  series : (family : Bytes) (labels : List (Bytes × Bytes)) → Series

abbrev pub by_ecosystem : Bytes → Bytes × Bytes → List (Bytes × Bytes)
by_ecosystem eco label = (codes "ecosystem", eco) ∷ label ∷ []

-- A loop that starts series for each value of a label.
abbrev each : (Bytes → List Series) → List Bytes → List Series
each f [] = []
each f (v ∷ vs) = f v ++ each f vs

abbrev joined : List (List Series) → List Series
joined [] = []
joined (ss ∷ rest) = ss ++ joined rest

-- What the loop of New starts for one ecosystem.
unfoldable pub series_for : Bytes → List Series
series_for eco = joined (
    each
      (λ result.
        series (codes "requests_total") (by_ecosystem eco (codes "result", result))
        ∷ series (codes "request_duration_seconds") (by_ecosystem eco (codes "result", result))
        ∷ [])
      (codes "hit" ∷ codes "miss" ∷ codes "error" ∷ [])
    ∷ each
        (λ result.
          series (codes "bytes_served_total") (by_ecosystem eco (codes "result", result)) ∷ [])
        (codes "hit" ∷ codes "miss" ∷ [])
    ∷ (series (codes "package_size_bytes") ((codes "ecosystem", eco) ∷ []) ∷ [])
    ∷ each
        (λ status.
          series (codes "upstream_fetches_total") (by_ecosystem eco (codes "status", status)) ∷ [])
        (codes "ok" ∷ codes "error" ∷ [])
    ∷ (series (codes "upstream_fetch_duration_seconds") ((codes "ecosystem", eco) ∷ []) ∷ [])
    ∷ each
        (λ outcome.
          series (codes "cve_scans_total") (by_ecosystem eco (codes "outcome", outcome)) ∷ [])
        (codes "allow" ∷ codes "warn" ∷ codes "block" ∷ codes "error" ∷ [])
    ∷ (series (codes "rate_limit_wait_duration_seconds") ((codes "ecosystem", eco) ∷ []) ∷ [])
    ∷ (series (codes "upstream_retries_total") ((codes "ecosystem", eco) ∷ []) ∷ [])
    ∷ [])

-- `New`, as far as its series with labels go; the gauge of requests in flight has none.
unfoldable pub new_series : List Bytes → List Series
new_series [] = []
new_series (eco ∷ ecosystems) = series_for eco ++ new_series ecosystems

abbrev has_labels : List Bytes → List (Bytes × Bytes) → Bool
has_labels [] [] = true
has_labels [] (l ∷ ls) = false
has_labels (n ∷ ns) [] = false
has_labels (n ∷ ns) (l ∷ ls) = n == l.0 && has_labels ns ls

-- With panics on a label that its family does not have, or lacks.
unfoldable is_registered : Series → Bool
is_registered (series name labels) =
    any (λ f. f.name == name && has_labels f.labels labels) families

abbrev all_registered : List Series → Bool
all_registered [] = true
all_registered (s ∷ ss) = is_registered s && all_registered ss

all_registered-append :
    (ss ts : List Series)
    → all_registered ss ≡ true
    → all_registered ts ≡ true
    → all_registered (ss ++ ts) ≡ true
all_registered-append [] ts h k = k
all_registered-append (s ∷ ss) ts h k = ground (arith, all_registered-append ss ts)

-- Every series that New starts has a family with just its labels: no start panics.
all_registered-new_series :
    (ecosystems : List Bytes) → all_registered (new_series ecosystems) ≡ true
unfolding new_series series_for is_registered families ◌==◌
all_registered-new_series [] = refl
all_registered-new_series (eco ∷ ecosystems) =
    all_registered-append (series_for eco) (new_series ecosystems) refl
      (all_registered-new_series ecosystems)
