-- ===== src/Db/Consistency.antt =====
-- The constraints of the schema, and what a blocked row holds, in every reachable database.
use cache_proxyfy.Prelude.{
  ℕ, ◌+◌, ◌<◌, ◌≡◌, refl, Bytes, Bool, true, false, not, ◌||◌, ◌&&◌, none, List, [], ◌∷◌, arith,
  eqb, select, any, Script, later, Bool-cases, inl, inr,
}
use cache_proxyfy.Db.Schema.{
  PackageKey, key_eq, key_eq_iff, cached, blocked, Package, Event, Database,
}
use cache_proxyfy.Db.Packages.{
  NewPackage, upsert, inserted, updated, upsert_row, upsert_package, upsert_blocked_package,
  find_row, touch_rows, touch_package, delete_package,
}
use cache_proxyfy.Db.Listing.{is_cached}
use cache_proxyfy.Db.Audit.{record_event, record_cve_alert}
use cache_proxyfy.Db.Rows.{find_row-upsert, find_row-touch_rows}

abbrev pub has_id : ℕ → List Package → Bool
has_id i rs = any (λ q. eqb q.id i) rs

abbrev is_nil : Bytes → Bool
is_nil [] = true
is_nil (_ ∷ _) = false

-- What holds of each row, with the next id of the sequence.
abbrev pub IsRow : ℕ → Package → Type 0
IsRow next r =
    (r.id < next) × ((is_cached r.status || (is_nil r.checksum && eqb r.size_bytes 0)) ≡ true)

-- No key and no id stands in two rows, ids come from the sequence, and a blocked row has no
-- checksum and size 0.
abbrev pub IsTable : ℕ → List Package → Type 0
IsTable next [] = Unit
IsTable next (r ∷ rs) =
    (find_row r.key rs ≡ none) × (has_id r.id rs ≡ false) × IsRow next r × IsTable next rs

abbrev pub IsConsistent : Database → Type 0
IsConsistent d = IsTable d.next_id d.packages

IsTable-suc : (n : ℕ) (rs : List Package) → IsTable n rs → IsTable (n + 1) rs
IsTable-suc n [] h = tt
IsTable-suc n (r ∷ rs) h = ground (arith, IsTable-suc n rs h.3)

has_id-fresh : (n : ℕ) (rs : List Package) → IsTable n rs → has_id n rs ≡ false
has_id-fresh n [] h = refl
has_id-fresh n (r ∷ rs) h = ground (arith, has_id-fresh n rs h.3)

module _ (new : Package) (change : Package → Package)
    (keeps_key : (r : Package) → (change r).key ≡ r.key)
    (keeps_id : (r : Package) → (change r).id ≡ r.id) where
  has_id-upsert :
      (i : ℕ) (rs : List Package)
      → has_id i rs ≡ false
      → eqb new.id i ≡ false
      → has_id i (upsert new change rs) ≡ false
  unfolding upsert
  has_id-upsert i [] h e = rw e
  has_id-upsert i (r ∷ rs) h e = ground (arith, keeps_id r, has_id-upsert i rs)

  upsert-IsTable :
      (next : ℕ) (rs : List Package)
      → ((r : Package) → IsRow next r → IsRow (next + 1) (change r))
      → new.id ≡ next
      → IsRow (next + 1) new
      → IsTable next rs
      → IsTable (next + 1) (upsert new change rs)
  unfolding upsert find_row
  upsert-IsTable next [] step fresh row h = (refl, refl, row, tt)
  upsert-IsTable next (r ∷ rs) step fresh row h = elim (Bool-cases (key_eq new.key r.key)) [
    | inl e ↦
        rw (e, IsTable)
          (rw (keeps_key r) h.0, rw (keeps_id r) h.1, step r h.2, IsTable-suc next rs h.3)
    | inr e ↦
        rw (e, IsTable)
          (
            ground (
              arith,
              key_eq_iff new.key r.key,
              key_eq_iff r.key new.key,
              find_row-upsert r.key new change rs keeps_key,
            ),
            has_id-upsert r.id rs h.1 (ground arith),
            ground arith,
            upsert-IsTable next rs step fresh row h.3,
          )
  ]

upsert_row-IsConsistent :
    (k : PackageKey) (checksum : Bytes) (size : ℕ) (d : Database)
    → IsConsistent d
    → IsConsistent (upsert_row k cached checksum size d)
upsert_row-IsConsistent k checksum size d h =
    upsert-IsTable (inserted d k cached checksum size) (updated cached checksum size) (λ r. refl)
      (λ r. refl) d.next_id d.packages (λ r w. ground arith) refl (ground arith) h

upsert_row-blocked-IsConsistent :
    (k : PackageKey) (d : Database) → IsConsistent d → IsConsistent (upsert_row k blocked [] 0 d)
upsert_row-blocked-IsConsistent k d h =
    upsert-IsTable (inserted d k blocked [] 0) (updated blocked [] 0) (λ r. refl) (λ r. refl)
      d.next_id d.packages (λ r w. ground arith) refl (ground arith) h

has_id-touch_rows :
    (i : ℕ) (k : PackageKey) (now : ℕ) (rs : List Package)
    → has_id i (touch_rows k now rs) ≡ has_id i rs
unfolding touch_rows
has_id-touch_rows i k now [] = refl
has_id-touch_rows i k now (r ∷ rs) = ground (arith, has_id-touch_rows i k now rs)

touch_rows-IsTable :
    (k : PackageKey) (now next : ℕ) (rs : List Package)
    → IsTable next rs
    → IsTable next (touch_rows k now rs)
unfolding touch_rows
touch_rows-IsTable k now next [] h = tt
touch_rows-IsTable k now next (r ∷ rs) h = ground (
  arith,
  find_row-touch_rows r.key k now rs,
  has_id-touch_rows r.id k now rs,
  touch_rows-IsTable k now next rs h.3,
)

find_row-select :
    (k : PackageKey) (p : Package → Bool) (rs : List Package)
    → find_row k rs ≡ none
    → find_row k (select p rs) ≡ none
unfolding find_row
find_row-select k p [] h = refl
find_row-select k p (r ∷ rs) h = ground (arith, find_row-select k p rs)

has_id-select :
    (i : ℕ) (p : Package → Bool) (rs : List Package)
    → has_id i rs ≡ false
    → has_id i (select p rs) ≡ false
has_id-select i p [] h = refl
has_id-select i p (r ∷ rs) h = ground (arith, has_id-select i p rs)

select-IsTable :
    (next : ℕ) (p : Package → Bool) (rs : List Package)
    → IsTable next rs
    → IsTable next (select p rs)
select-IsTable next p [] h = tt
select-IsTable next p (r ∷ rs) h = ground (
  arith,
  find_row-select r.key p rs h.0,
  has_id-select r.id p rs h.1,
  select-IsTable next p rs h.3,
)

-- Everything that changes the database: the statements, whether they fail or not, and time.
pub data Write (d : Database) : Database → Type 0 where
  upserts : (pkg : NewPackage) → Write d (upsert_package pkg d).1
  blocks : (k : PackageKey) → Write d (upsert_blocked_package k d).1
  touches : (k : PackageKey) → Write d (touch_package k d).1
  deletes : (id : ℕ) → Write d (delete_package id d).1
  logs : (k : PackageKey) (e : Event) (bytes : ℕ) → Write d (record_event k e bytes d).1
  alerts :
      (k : PackageKey) (cve severity outcome : Bytes)
      → Write d (record_cve_alert k cve severity outcome d).1
  passes : (t : ℕ) → Write d (record d { now = d.now + t })

-- The tables as `Migrate` creates them.
abbrev pub migrated : Script → Database
migrated faults = record {
  packages = [];
  cache_events = [];
  cve_alerts = [];
  next_id = 1;
  next_alert_id = 1;
  now = 0;
  faults = faults;
}

pub data Reach (faults : Script) : Database → Type 0 where
  start : Reach faults (migrated faults)
  next : {d e : Database} → Reach faults d → Write d e → Reach faults e

pub Write-IsConsistent : {d e : Database} → Write d e → IsConsistent d → IsConsistent e
unfolding upsert_package upsert_blocked_package touch_package delete_package record_event
    record_cve_alert
Write-IsConsistent {d} (upserts pkg) h = ground (
  arith,
  upsert_row-IsConsistent pkg.key pkg.checksum pkg.size_bytes (record d { faults = later d.faults })
      h,
)
Write-IsConsistent {d} (blocks k) h =
    ground (arith, upsert_row-blocked-IsConsistent k (record d { faults = later d.faults }) h)
Write-IsConsistent {d} (touches k) h =
    ground (arith, touch_rows-IsTable k d.now d.next_id d.packages h)
Write-IsConsistent {d} (deletes id) h =
    ground (arith, select-IsTable d.next_id (λ r. not (eqb r.id id)) d.packages h)
Write-IsConsistent (logs k e bytes) h = ground arith
Write-IsConsistent (alerts k cve severity outcome) h = ground arith
Write-IsConsistent (passes t) h = h

-- In every database that statements, failing or not, lead to from the migrated schema, keys and
-- ids are unique, ids lie below the sequence, and blocked rows hold no checksum and size 0.
pub Reach-IsConsistent : {faults : Script} {d : Database} → Reach faults d → IsConsistent d
Reach-IsConsistent start = tt
Reach-IsConsistent (next r w) = Write-IsConsistent w (Reach-IsConsistent r)
