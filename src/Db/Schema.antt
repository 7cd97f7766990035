-- ===== src/Db/Schema.antt =====
-- The tables of internal/db/db.go, the row types of internal/db/package_store.go, and the run of
-- one statement. Columns that the program only fills with fixed words are enumerations.
use cache_proxyfy.Prelude.{
  ℕ, ◌≡◌, ◌↔◌, Bytes, Bool, true, ◌&&◌, Option, List, arith, if◌then◌else◌, ◌==◌, ==_iff, Result,
  err, Script, fails, later,
}

-- The columns of the constraint `packages_unique`, which the functions take as three strings.
pub record PackageKey : Type 0 where
  pub ecosystem : Bytes
  pub name : Bytes
  pub version : Bytes

unfoldable pub key_eq : PackageKey → PackageKey → Bool
key_eq a b = (a.ecosystem == b.ecosystem) && ((a.name == b.name) && (a.version == b.version))

pub key_eq_iff : (a b : PackageKey) → (key_eq a b ≡ true) ↔ (a ≡ b)
unfolding key_eq
key_eq_iff a b =
    ground (arith, ==_iff a.ecosystem b.ecosystem, ==_iff a.name b.name, ==_iff a.version b.version)

pub data Status : Type 0 where
  cached blocked : Status

-- A row of `packages`.
pub record Package : Type 0 where
  pub id : ℕ
  pub key : PackageKey
  pub open key use *
  pub status : Status
  pub checksum : Bytes
  pub size_bytes : ℕ
  pub cached_at : ℕ
  pub last_hit_at : Option ℕ

pub data Event : Type 0 where
  hit miss : Event

-- A row of `cache_events`.
pub record CacheEvent : Type 0 where
  pub key : PackageKey
  pub event : Event
  pub bytes : ℕ
  pub recorded_at : ℕ

-- A row of `cve_alerts`.
pub record CveAlert : Type 0 where
  pub id : ℕ
  pub key : PackageKey
  pub open key use *
  pub cve_id : Bytes
  pub severity : Bytes
  pub outcome : Bytes
  pub recorded_at : ℕ

-- The tables, the sequences behind the BIGSERIAL columns, the clock behind NOW(), and what the
-- coming statements meet.
pub record Database : Type 0 where
  pub packages : List Package
  pub cache_events : List CacheEvent
  pub cve_alerts : List CveAlert
  pub next_id : ℕ
  pub next_alert_id : ℕ
  pub now : ℕ
  pub faults : Script

pub data DbError : Type 0 where
  not_found query_failed : DbError

-- One statement: a driver error leaves the tables as they are. A statement that the server has
-- committed, and whose reply is lost, is left out.
abbrev pub exec :
    {A : Type 0} → (Database → Result DbError A × Database) → Database → Result DbError A × Database
exec q d =
    let d' = record d { faults = later d.faults } in
    if fails d.faults then (err query_failed, d') else q d'
