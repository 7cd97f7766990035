-- ===== src/Eviction/Survival.antt =====
-- What an eviction cycle leaves alone, and runs of the worker.
use cache_proxyfy.Prelude.{
  ℕ, ◌-◌, ◌≡◌, refl, Bool, true, false, not, some, List, [], ◌∷◌, arith, select, Result, ok, err,
  Result-cases, Bool-cases, fails, later, All, inl, inr, eqb,
}
use cache_proxyfy.Prelude.Sorting.{order_by, any-order_by, ascending}
use cache_proxyfy.Prelude.Integers.{signed_lt}
use cache_proxyfy.Db.Schema.{query_failed, DbError, PackageKey, Package, Database}
use cache_proxyfy.Db.Packages.{find_row, delete_package}
use cache_proxyfy.Db.Listing.{is_expired, list_expired_packages, last_access}
use cache_proxyfy.Db.Lookup.{row_at}
use cache_proxyfy.Db.Consistency.{IsConsistent, IsTable, has_id, Write-IsConsistent, deletes}
use cache_proxyfy.Db.Expiry.{has_id-find_row}
use cache_proxyfy.Cache.Redis.{Redis}
use cache_proxyfy.Storage.Backend.{StorageBackend}
use cache_proxyfy.Eviction.{
  H, Report, list_failed, Tally, no_tally, count_result, evict_row, evict_key, evict_one, evict_all,
  evict_listed, evict, tick, run,
}

find_row-delete_other :
    (k : PackageKey) (i : ℕ) (rs : List Package) (r : Package)
    → find_row k rs ≡ some r
    → eqb r.id i ≡ false
    → find_row k (select (λ q. not (eqb q.id i)) rs) ≡ some r
unfolding find_row
find_row-delete_other k i [] r e h = cc
find_row-delete_other k i (q ∷ rs) r e h = ground (arith, find_row-delete_other k i rs r)

has_id-select_le :
    (i : ℕ) (p : Package → Bool) (rs : List Package)
    → has_id i rs ≡ false
    → has_id i (select p rs) ≡ false
has_id-select_le i p [] h = refl
has_id-select_le i p (q ∷ rs) h = ground (arith, has_id-select_le i p rs)

-- In a consistent table no other row has the id of a row that the test leaves out.
has_id-select :
    (next : ℕ) (k : PackageKey) (p : Package → Bool) (rs : List Package) (r : Package)
    → IsTable next rs
    → find_row k rs ≡ some r
    → p r ≡ false
    → has_id r.id (select p rs) ≡ false
unfolding find_row
has_id-select next k p [] r t e h = cc
has_id-select next k p (q ∷ rs) r t e h =
    ground
      (arith, has_id-select next k p rs r t.3, has_id-find_row k rs r, has_id-select_le r.id p rs)

-- What the query lists where it succeeds.
abbrev expired_rows : ℕ → Database → List Package
expired_rows cutoff d = order_by (ascending last_access) (select (is_expired cutoff) d.packages)

list_failed_lem :
    (cutoff : ℕ) (d : Database)
    → fails d.faults ≡ true
    → list_expired_packages cutoff d ≡ (err query_failed, record d { faults = later d.faults })
unfolding list_expired_packages
list_failed_lem cutoff d h = rw h refl

list_done_lem :
    (cutoff : ℕ) (d : Database)
    → fails d.faults ≡ false
    → list_expired_packages cutoff d
      ≡ (ok (expired_rows cutoff d), record d { faults = later d.faults })
unfolding list_expired_packages
list_done_lem cutoff d h = rw h refl

module _ (redis : Redis) (backend : StorageBackend) where
  evict_one-row_at :
      (q : Package) (s : H redis backend) (j : PackageKey) (r : Package)
      → row_at j s.db ≡ some r
      → eqb q.id r.id ≡ false
      → row_at j (evict_one redis backend q s).1.db ≡ some r
  unfolding evict_one evict_row evict_key delete_package
  evict_one-row_at q s j r e h = elim (Result-cases (backend.delete s.store q.checksum).0) [
    | inl (u, f) ↦ ground (arith, f, find_row-delete_other j q.id s.db.packages r)
    | inr (x, f) ↦ ground (arith, f)
  ]

  evict_all-row_at :
      (rs : List Package) (t : Tally) (s : H redis backend) (j : PackageKey) (r : Package)
      → row_at j s.db ≡ some r
      → has_id r.id rs ≡ false
      → row_at j (evict_all redis backend rs t s).1.db ≡ some r
  unfolding evict_all
  evict_all-row_at [] t s j r e h = e
  evict_all-row_at (q ∷ rs) t s j r e h =
      evict_all-row_at rs (count_result q (evict_one redis backend q s).0 t)
        (evict_one redis backend q s).1 j r (evict_one-row_at q s j r e (ground arith))
        (ground arith)

  evict_listed-row_at :
      (rs : List Package) (s : H redis backend) (j : PackageKey) (r : Package)
      → row_at j s.db ≡ some r
      → has_id r.id rs ≡ false
      → row_at j (evict_listed redis backend rs s).1.db ≡ some r
  unfolding evict_listed
  evict_listed-row_at [] s j r e h = e
  evict_listed-row_at (q ∷ rs) s j r e h = evict_all-row_at (q ∷ rs) no_tally s j r e h

  abbrev Listing : H redis backend → Type 0
  Listing s = Result DbError (List Package) × Database

  abbrev after_listing : (s : H redis backend) → Listing s → Report × H redis backend
  after_listing s l =
      let s₁ : H redis backend = record s { db = l.1 } in
      elim l.0 [ ok rs ↦ evict_listed redis backend rs s₁ | err e ↦ (list_failed e, s₁) ]

  evict_lem :
      (ttl : ℕ) (s : H redis backend)
      → evict redis backend ttl s ≡ after_listing s (list_expired_packages (s.db.now - ttl) s.db)
  unfolding evict
  evict_lem ttl s = refl

  -- A cycle never evicts a package whose row is not expired at its cutoff: in a consistent database
  -- the row stays as it is, whatever fails.
  pub evict-fresh :
      (ttl : ℕ) (s : H redis backend) (j : PackageKey) (r : Package)
      → IsConsistent s.db
      → row_at j s.db ≡ some r
      → is_expired (s.db.now - ttl) r ≡ false
      → row_at j (evict redis backend ttl s).1.db ≡ some r
  evict-fresh ttl s j r c e fresh = elim (Bool-cases (fails s.db.faults)) [
    | inl q ↦ rw (evict_lem ttl s, list_failed_lem (s.db.now - ttl) s.db q) e
    | inr q ↦
        rw (evict_lem ttl s, list_done_lem (s.db.now - ttl) s.db q)
          (evict_listed-row_at (expired_rows (s.db.now - ttl) s.db)
            (record s { db = record s.db { faults = later s.db.faults } }) j r e
            (ground (
              arith,
              any-order_by (ascending last_access) (λ q. eqb q.id r.id)
                  (select (is_expired (s.db.now - ttl)) s.db.packages),
              has_id-select s.db.next_id j (is_expired (s.db.now - ttl)) s.db.packages r c e fresh,
            )))
  ]

  delete_package-IsConsistent :
      (i : ℕ) (d : Database) → IsConsistent d → IsConsistent (delete_package i d).1
  delete_package-IsConsistent i d h = Write-IsConsistent (deletes i) h

  evict_one-IsConsistent :
      (q : Package) (s : H redis backend)
      → IsConsistent s.db
      → IsConsistent (evict_one redis backend q s).1.db
  unfolding evict_one evict_row evict_key
  evict_one-IsConsistent q s h = elim (Result-cases (backend.delete s.store q.checksum).0) [
    | inl (u, f) ↦ rw (f, evict_one) (delete_package-IsConsistent q.id s.db h)
    | inr (x, f) ↦ rw (f, evict_one) h
  ]

  evict_all-IsConsistent :
      (rs : List Package) (t : Tally) (s : H redis backend)
      → IsConsistent s.db
      → IsConsistent (evict_all redis backend rs t s).1.db
  unfolding evict_all
  evict_all-IsConsistent [] t s h = h
  evict_all-IsConsistent (q ∷ rs) t s h =
      evict_all-IsConsistent rs (count_result q (evict_one redis backend q s).0 t)
        (evict_one redis backend q s).1 (evict_one-IsConsistent q s h)

  evict_listed-IsConsistent :
      (rs : List Package) (s : H redis backend)
      → IsConsistent s.db
      → IsConsistent (evict_listed redis backend rs s).1.db
  unfolding evict_listed
  evict_listed-IsConsistent [] s h = h
  evict_listed-IsConsistent (q ∷ rs) s h = evict_all-IsConsistent (q ∷ rs) no_tally s h

  evict-IsConsistent :
      (ttl : ℕ) (s : H redis backend)
      → IsConsistent s.db
      → IsConsistent (evict redis backend ttl s).1.db
  evict-IsConsistent ttl s h = elim (Bool-cases (fails s.db.faults)) [
    | inl q ↦ rw (evict_lem ttl s, list_failed_lem (s.db.now - ttl) s.db q) h
    | inr q ↦
        rw (evict_lem ttl s, list_done_lem (s.db.now - ttl) s.db q)
          (evict_listed-IsConsistent (expired_rows (s.db.now - ttl) s.db)
            (record s { db = record s.db { faults = later s.db.faults } }) h)
  ]

  -- A consistent database in which the row at the key is not expired.
  unfoldable pub IsFresh : ℕ → PackageKey → H redis backend → Type 0
  IsFresh ttl j s =
      IsConsistent s.db
      × (r : Package) × (row_at j s.db ≡ some r)
      × (is_expired (s.db.now - ttl) r ≡ false)

  -- Whatever row there is at the key, afterwards there is one that is not expired: the package was
  -- requested, say.
  unfoldable pub Refreshes : ℕ → PackageKey → (H redis backend → H redis backend) → Type 0
  Refreshes ttl j others =
      (s : H redis backend) (r : Package)
      → IsConsistent s.db
      → row_at j s.db ≡ some r
      → IsFresh ttl j (others s)

  tick-row_at :
      (ttl : ℕ) (ticks : List (H redis backend → H redis backend)) (j : PackageKey)
      (s : H redis backend) (r : Package)
      → IsConsistent s.db
      → row_at j s.db ≡ some r
      → All (Refreshes ttl j) ticks
      → (q : Package) × (row_at j (tick redis backend ttl ticks s).1.db ≡ some q)
  unfolding tick Refreshes IsFresh
  tick-row_at ttl [] j s r c e h = (r, e)
  tick-row_at ttl (others ∷ ticks) j s r c e h =
      let (c', q, e', fresh) = h.0 s r c e in
      tick-row_at ttl ticks j (evict redis backend ttl (others s)).1 q
        (evict-IsConsistent ttl (others s) c') (evict-fresh ttl (others s) j q c' e' fresh) h.1

  pub Refreshes-run :
      (ttl : ℕ) (ticks : List (H redis backend → H redis backend)) (j : PackageKey)
      (s : H redis backend)
      → IsFresh ttl j s
      → All (Refreshes ttl j) ticks
      → (q : Package) × (row_at j (run redis backend ttl ticks s).1.db ≡ some q)
  unfolding run IsFresh
  Refreshes-run ttl ticks j s (c, r, e, fresh) h = elim (Bool-cases (signed_lt 0 ttl)) [
    | inl q ↦
        rw (q, run)
          (tick-row_at ttl ticks j (evict redis backend ttl s).1 r (evict-IsConsistent ttl s c)
            (evict-fresh ttl s j r c e fresh) h)
    | inr q ↦ rw (q, run) (r, e)
  ]
