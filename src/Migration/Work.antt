-- ===== src/Migration/Work.antt =====
-- The list of artifacts that the migration tool works through.
use cache_proxyfy.Prelude.{
  ◌≡◌, refl, Bytes, Bool, false, not, ◌&&◌, ◌==◌, ==_iff, List, [], ◌∷◌, any, arith,
}
use cache_proxyfy.Db.Schema.{Package}
use cache_proxyfy.Db.Listing.{is_cached}
use cache_proxyfy.Migration.{Entry, is_seen, collect}

-- Some entry has the checksum.
abbrev pub has_entry : Bytes → List Entry → Bool
has_entry k es = any (λ e. e.checksum == k) es

-- No two entries have the same checksum.
abbrev pub IsDistinct : List Entry → Type 0
IsDistinct [] = Unit
IsDistinct (e ∷ es) = (has_entry e.checksum es ≡ false) × IsDistinct es

-- A cached package has the checksum, which is not empty.
abbrev pub is_cached_as : Bytes → Package → Bool
is_cached_as k r = is_cached r.status && not (r.checksum == []) && (r.checksum == k)

has_entry-collect :
    (k : Bytes) (seen : List Bytes) (rs : List Package)
    → has_entry k (collect seen rs) ≡ (any (is_cached_as k) rs && not (is_seen k seen))
unfolding collect
has_entry-collect k seen [] = refl
has_entry-collect k seen (r ∷ rs) = ground (
  arith,
  ==_iff r.checksum k,
  has_entry-collect k (r.checksum ∷ seen) rs,
  has_entry-collect k seen rs,
)

collect-IsDistinct : (seen : List Bytes) (rs : List Package) → IsDistinct (collect seen rs)
unfolding collect
collect-IsDistinct seen [] = tt
collect-IsDistinct seen (r ∷ rs) = ground (
  arith,
  ==_iff r.checksum r.checksum,
  has_entry-collect r.checksum (r.checksum ∷ seen) rs,
  collect-IsDistinct (r.checksum ∷ seen) rs,
  collect-IsDistinct seen rs,
)

-- The work is exact: it has an entry for a checksum where, and only where, a cached package has that
-- checksum and it is not empty, and it has no two entries for the same one.
pub collect-exact :
    (rs : List Package)
    → IsDistinct (collect [] rs)
      × ((k : Bytes) → has_entry k (collect [] rs) ≡ any (is_cached_as k) rs)
collect-exact rs = (collect-IsDistinct [] rs, λ k. ground (arith, has_entry-collect k [] rs))
