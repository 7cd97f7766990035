-- ===== src/Db/Counting.antt =====
-- Statistics against the rows that they speak of.
use cache_proxyfy.Prelude.{
  ℕ, ◌+◌, ◌≡◌, ◌⊎◌, refl, Bool, true, false, List, [], ◌∷◌, arith, select, length, if◌then◌else◌,
}
use cache_proxyfy.Db.Schema.{Database}
use cache_proxyfy.Db.Listing.{is_cached, is_blocked}
use cache_proxyfy.Db.Audit.{stats_of, events_since, is_hit, is_miss}

length-select-split :
    {A : Type 0} (p q : A → Bool) (xs : List A)
    → ((x : A) → q x ≡ (if p x then false else true))
    → length (select p xs) + length (select q xs) ≡ length xs
length-select-split p q [] h = refl
length-select-split p q (x ∷ xs) h = ground (arith, h x, length-select-split p q xs h)

-- Every row is counted once as cached or as blocked, every event of the window once as a hit or as
-- a miss, and the hit rate is the hits over the window's events, or 0 if the window has none.
pub stats_of-partitions :
    (since : ℕ) (d : Database)
    → ((stats_of since d).total_packages + (stats_of since d).blocked_packages ≡ length d.packages)
      × ((stats_of since d).total_hits + (stats_of since d).total_misses
          ≡ length (events_since since d))
      × (((length (events_since since d) ≡ 0) × ((stats_of since d).hit_rate.numerator ≡ 0))
          ⊎ (((stats_of since d).hit_rate.numerator ≡ (stats_of since d).total_hits)
              × ((stats_of since d).hit_rate.denominator ≡ length (events_since since d))))
unfolding stats_of
stats_of-partitions since d =
    let packages =
      length-select-split (λ r. is_cached r.status) (λ r. is_blocked r.status) d.packages
        (λ r. ground arith) in
    let events =
      length-select-split (λ e. is_hit e.event) (λ e. is_miss e.event) (events_since since d)
        (λ e. ground arith) in
    (packages, events, ground arith)
