-- ===== src/Db/Audit.antt =====
-- internal/db/package_store.go, the event log, the alerts and the statistics.
use cache_proxyfy.Prelude.{
  ℕ, ◌+◌, Bytes, Bool, true, false, ◌&&◌, List, [], ◌∷◌, leb, ltb, if◌then◌else◌, ◌==◌, length,
  select, Result, ok,
}
use cache_proxyfy.Prelude.Sorting.{descending, order_by}
use cache_proxyfy.Db.Schema.{
  PackageKey, key_eq, Event, hit, miss, CacheEvent, CveAlert, Database, DbError, exec,
}
use cache_proxyfy.Db.Listing.{is_cached, is_blocked}

unfoldable pub record_event : PackageKey → Event → ℕ → Database → Result DbError Unit × Database
record_event k event bytes = exec λ d. (
  ok tt,
  record d {
    cache_events =
        record { key = k; event = event; bytes = bytes; recorded_at = d.now } ∷ d.cache_events;
  },
)

unfoldable pub record_cve_alert :
    PackageKey → Bytes → Bytes → Bytes → Database → Result DbError Unit × Database
record_cve_alert k cve_id severity outcome = exec λ d. (
  ok tt,
  record d {
    cve_alerts =
        record {
          id = d.next_alert_id;
          key = k;
          cve_id = cve_id;
          severity = severity;
          outcome = outcome;
          recorded_at = d.now;
        }
        ∷ d.cve_alerts;
    next_alert_id = d.next_alert_id + 1;
  },
)

abbrev latest_alert_first : List CveAlert → List CveAlert
latest_alert_first = order_by (descending (λ (a : CveAlert). a.recorded_at))

unfoldable pub list_package_cve_alerts :
    PackageKey → Database → Result DbError (List CveAlert) × Database
list_package_cve_alerts k =
    exec (λ d. (ok (latest_alert_first (select (λ a. key_eq k a.key) d.cve_alerts)), d))

-- AND ecosystem = $2, or no condition where the argument is empty.
abbrev pub alert_in : Bytes → CveAlert → Bool
alert_in [] a = true
alert_in (c ∷ e) a = a.ecosystem == (c ∷ e)

unfoldable pub list_cve_alerts : ℕ → Bytes → Database → Result DbError (List CveAlert) × Database
list_cve_alerts since ecosystem = exec λ d. (
  ok (
      latest_alert_first
        (select (λ a. leb since a.recorded_at && alert_in ecosystem a) d.cve_alerts)),
  d,
)

-- The quotient that the source computes in floating point.
pub record Ratio : Type 0 where
  pub numerator : ℕ
  pub denominator : ℕ

pub record Stats : Type 0 where
  pub total_packages : ℕ
  pub blocked_packages : ℕ
  pub total_hits : ℕ
  pub total_misses : ℕ
  pub bytes_saved : ℕ
  pub hit_rate : Ratio
  pub cve_alerts : ℕ

abbrev pub is_hit : Event → Bool
is_hit hit = true
is_hit miss = false

abbrev pub is_miss : Event → Bool
is_miss hit = false
is_miss miss = true

-- SUM(bytes), with COALESCE to 0.
abbrev pub sum_bytes : List CacheEvent → ℕ
sum_bytes [] = 0
sum_bytes (e ∷ es) = e.bytes + sum_bytes es

-- WHERE recorded_at >= $1
abbrev pub events_since : ℕ → Database → List CacheEvent
events_since since d = select (λ e. leb since e.recorded_at) d.cache_events

-- `HitRate` stays 0 where there was no event.
abbrev pub rate : ℕ → ℕ → Ratio
rate hits misses =
    if ltb 0 (hits + misses)
    then record { numerator = hits; denominator = hits + misses }
    else record { numerator = 0; denominator = 1 }

unfoldable pub stats_of : ℕ → Database → Stats
stats_of since d =
    let es = events_since since d in
    let hits = select (λ e. is_hit e.event) es in
    let misses = length (select (λ e. is_miss e.event) es) in
    record {
      total_packages = length (select (λ r. is_cached r.status) d.packages);
      blocked_packages = length (select (λ r. is_blocked r.status) d.packages);
      total_hits = length hits;
      total_misses = misses;
      bytes_saved = sum_bytes hits;
      hit_rate = rate (length hits) misses;
      cve_alerts = length (select (λ a. leb since a.recorded_at) d.cve_alerts);
    }

unfoldable pub get_stats : ℕ → Database → Result DbError Stats × Database
get_stats since = exec (λ d. (ok (stats_of since d), d))
