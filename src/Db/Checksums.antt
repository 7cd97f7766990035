-- ===== src/Db/Checksums.antt =====
-- Where the checksums of cached rows come from: what holds of every pair of a key and a checksum that
-- the statements are given holds of every cached row.
use cache_proxyfy.Prelude.{
  ℕ, ◌≡◌, sym, subst, inl, inr, Bytes, some, List, [], ◌∷◌, arith, Bool-cases, fails, later,
}
use cache_proxyfy.Db.Schema.{
  PackageKey, key_eq, key_eq_iff, cached, blocked, Package, Event, Database,
}
use cache_proxyfy.Db.Packages.{
  NewPackage, upsert, inserted, updated, upsert_package, upsert_blocked_package, find_row,
  touch_rows, touch_package, get_package,
}
use cache_proxyfy.Db.Audit.{record_event, record_cve_alert}

module _ (P : PackageKey → Bytes → Type 0) where
  abbrev IsKnown : Package → Type 0
  IsKnown r = r.status ≡ cached → P r.key r.checksum

  abbrev pub AreKnown : List Package → Type 0
  AreKnown [] = Unit
  AreKnown (r ∷ rs) = IsKnown r × AreKnown rs

  pub find_row-known :
      (k : PackageKey) (rs : List Package) (r : Package)
      → AreKnown rs
      → find_row k rs ≡ some r
      → r.status ≡ cached
      → P k r.checksum
  unfolding find_row
  find_row-known k [] r h e c = absurd (cc)
  find_row-known k (q ∷ rs) r h e c = elim (Bool-cases (key_eq k q.key)) [
    | inl same ↦
        let found : q ≡ r = ground arith in
        subst (λ j. P j r.checksum) (sym ((key_eq_iff k q.key).0 same))
          (subst (λ x. P q.key x.checksum) found
            (h.0 (subst (λ x. x.status ≡ cached) (sym found) c)))
    | inr other ↦ find_row-known k rs r h.1 (ground arith) c
  ]

  upsert-AreKnown :
      (new : Package) (change : Package → Package) (rs : List Package)
      → IsKnown new
      → ((r : Package) → new.key ≡ r.key → IsKnown (change r))
      → AreKnown rs
      → AreKnown (upsert new change rs)
  unfolding upsert
  upsert-AreKnown new change [] n c h = (n, tt)
  upsert-AreKnown new change (r ∷ rs) n c h = elim (Bool-cases (key_eq new.key r.key)) [
    | inl same ↦ rw same (c r ((key_eq_iff new.key r.key).0 same), h.1)
    | inr other ↦ rw other (h.0, upsert-AreKnown new change rs n c h.1)
  ]

  touch_rows-AreKnown :
      (k : PackageKey) (now : ℕ) (rs : List Package) → AreKnown rs → AreKnown (touch_rows k now rs)
  unfolding touch_rows
  touch_rows-AreKnown k now [] h = tt
  touch_rows-AreKnown k now (r ∷ rs) h = elim (Bool-cases (key_eq k r.key)) [
    | inl same ↦ rw same (h.0, touch_rows-AreKnown k now rs h.1)
    | inr other ↦ rw other (h.0, touch_rows-AreKnown k now rs h.1)
  ]

  abbrev pub IsKnowing : Database → Type 0
  IsKnowing d = AreKnown d.packages

  pub upsert_package-IsKnowing :
      (pkg : NewPackage) (d : Database)
      → P pkg.key pkg.checksum
      → IsKnowing d
      → IsKnowing (upsert_package pkg d).1
  unfolding upsert_package
  upsert_package-IsKnowing pkg d p h = elim (Bool-cases (fails d.faults)) [
    | inl f ↦ rw f h
    | inr f ↦ rw f (
        upsert-AreKnown
          (inserted (record d { faults = later d.faults }) pkg.key cached pkg.checksum
            pkg.size_bytes)
          (updated cached pkg.checksum pkg.size_bytes) d.packages (λ c. p)
          (λ r e c. subst (λ k. P k pkg.checksum) e p) h)
  ]

  pub upsert_blocked_package-IsKnowing :
      (k : PackageKey) (d : Database) → IsKnowing d → IsKnowing (upsert_blocked_package k d).1
  unfolding upsert_blocked_package
  upsert_blocked_package-IsKnowing k d h = elim (Bool-cases (fails d.faults)) [
    | inl f ↦ rw f h
    | inr f ↦ rw f (
        upsert-AreKnown (inserted (record d { faults = later d.faults }) k blocked [] 0)
          (updated blocked [] 0) d.packages (λ c. absurd (cc)) (λ r e c. absurd (cc)) h)
  ]

  pub touch_package-IsKnowing :
      (k : PackageKey) (d : Database) → IsKnowing d → IsKnowing (touch_package k d).1
  unfolding touch_package
  touch_package-IsKnowing k d h = elim (Bool-cases (fails d.faults)) [
    | inl f ↦ rw f h
    | inr f ↦ rw f (touch_rows-AreKnown k d.now d.packages h)
  ]

  pub record_event-IsKnowing :
      (k : PackageKey) (e : Event) (n : ℕ) (d : Database)
      → IsKnowing d
      → IsKnowing (record_event k e n d).1
  unfolding record_event
  record_event-IsKnowing k e n d h = elim (Bool-cases (fails d.faults)) [
    | inl f ↦ rw f h
    | inr f ↦ rw f h
  ]

  pub record_cve_alert-IsKnowing :
      (k : PackageKey) (cve severity outcome : Bytes) (d : Database)
      → IsKnowing d
      → IsKnowing (record_cve_alert k cve severity outcome d).1
  unfolding record_cve_alert
  record_cve_alert-IsKnowing k cve severity outcome d h = elim (Bool-cases (fails d.faults)) [
    | inl f ↦ rw f h
    | inr f ↦ rw f h
  ]

  pub get_package-IsKnowing :
      (k : PackageKey) (d : Database) → IsKnowing d → IsKnowing (get_package k d).1
  unfolding get_package
  get_package-IsKnowing k d h = elim (Bool-cases (fails d.faults)) [
    | inl f ↦ rw f h
    | inr f ↦ rw f h
  ]
