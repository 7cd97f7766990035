-- ===== src/Migration/Handing.antt =====
-- The migration tool: an entry is in the queue, with one worker, or done, and never in two places.
use cache_proxyfy.Prelude.{
  ℕ, ◌<◌, ◌≡◌, ◌⊎◌, inl, inr, refl, Bytes, Bool, true, false, ◌==◌, ==_iff, List, [], ◌∷◌, any, eqb,
  arith, Bool-cases,
}
use cache_proxyfy.Migration.{Entry, Outcome}
use cache_proxyfy.Migration.Pool.{Worker, idle, taken, checked, loaded, set_worker, Line}
use cache_proxyfy.Migration.Work.{has_entry, IsDistinct}

-- The worker has the entry with that checksum.
unfoldable pub carries : Bytes → Worker → Bool
carries k idle = false
carries k (taken e) = e.checksum == k
carries k (checked e) = e.checksum == k
carries k (loaded e b) = e.checksum == k

-- There is a line of output about the checksum.
abbrev pub is_done : Bytes → List Line → Bool
is_done k lines = any (λ l. l.checksum == k) lines

abbrev line : Entry → Outcome → Line
line e o = record { checksum = e.checksum; outcome = o }

-- Where the entry with a checksum is.
abbrev IsSomewhere : ℕ → Bytes → List Entry → (ℕ → Worker) → List Line → Type 0
IsSomewhere n k queue workers lines =
    (has_entry k queue ≡ true)
    ⊎ ((i : ℕ) × (i < n) × (carries k (workers i) ≡ true))
    ⊎ (is_done k lines ≡ true)

pub record IsApart (n : ℕ) (es queue : List Entry) (workers : ℕ → Worker) (lines : List Line)
    : Type 0 where
  pub distinct : IsDistinct queue
  pub alone :
      (i j : ℕ) (k : Bytes) → carries k (workers i) ≡ true → carries k (workers j) ≡ true → i ≡ j
  pub not_queued : (i : ℕ) (k : Bytes) → carries k (workers i) ≡ true → has_entry k queue ≡ false
  pub done_not_queued : (k : Bytes) → is_done k lines ≡ true → has_entry k queue ≡ false
  pub done_not_carried :
      (i : ℕ) (k : Bytes) → is_done k lines ≡ true → carries k (workers i) ≡ false
  pub somewhere : (k : Bytes) → has_entry k es ≡ true → IsSomewhere n k queue workers lines

module _ (n : ℕ) (es : List Entry) where
  pub start-IsApart : IsDistinct es → IsApart n es es (λ i. idle) []
  unfolding carries
  start-IsApart d = record {
    distinct = d;
    alone = λ i j k h h'. absurd (ground arith);
    not_queued = λ i k h. absurd (ground arith);
    done_not_queued = λ k h. absurd (ground arith);
    done_not_carried = λ i k h. refl;
    somewhere = λ k h. inl h;
  }

  -- An idle worker takes the first entry.
  pub hand_out-IsApart :
      (i : ℕ) (e : Entry) (queue : List Entry) (workers : ℕ → Worker) (lines : List Line)
      → i < n
      → workers i ≡ idle
      → IsApart n es (e ∷ queue) workers lines
      → IsApart n es queue (set_worker i (taken e) workers) lines
  unfolding carries
  hand_out-IsApart i e queue workers lines h w s = record {
    distinct = s.distinct.1;
    alone = λ j j' k c c'.
        ground (arith, ==_iff e.checksum k, s.alone j j' k, s.not_queued j k, s.not_queued j' k);
    not_queued = λ j k c. ground (arith, ==_iff e.checksum k, s.not_queued j k, s.distinct);
    done_not_queued = λ k d. ground (arith, s.done_not_queued k);
    done_not_carried = λ j k d. ground (arith, s.done_not_queued k, s.done_not_carried j k);
    somewhere = λ k d. elim (s.somewhere k d) [
      | inl q ↦ elim (Bool-cases (e.checksum == k)) [
        | inl same ↦ inr (inl (i, h, ground arith))
        | inr other ↦ inl (ground arith)
      ]
      | inr (inl (j, l, c)) ↦ elim (Bool-cases (eqb i j)) [
        | inl same ↦ absurd (ground arith)
        | inr other ↦ inr (inl (j, l, ground arith))
      ]
      | inr (inr q) ↦ inr (inr q)
    ];
  }

  -- A worker goes on with its entry.
  pub keep-IsApart :
      (i : ℕ) (w : Worker) (queue : List Entry) (workers : ℕ → Worker) (lines : List Line)
      → ((k : Bytes) → carries k w ≡ carries k (workers i))
      → IsApart n es queue workers lines
      → IsApart n es queue (set_worker i w workers) lines
  keep-IsApart i w queue workers lines same s = record {
    distinct = s.distinct;
    alone = λ j j' k c c'. ground (arith, same k, s.alone j j' k);
    not_queued = λ j k c. ground (arith, same k, s.not_queued j k);
    done_not_queued = s.done_not_queued;
    done_not_carried = λ j k d. ground (arith, same k, s.done_not_carried j k);
    somewhere = λ k d. elim (s.somewhere k d) [
      | inl q ↦ inl q
      | inr (inl (j, l, c)) ↦ inr (inl (j, l, ground (arith, same k)))
      | inr (inr q) ↦ inr (inr q)
    ];
  }

  -- A worker is done with its entry.
  pub note-IsApart :
      (i : ℕ) (e : Entry) (o : Outcome) (queue : List Entry) (workers : ℕ → Worker)
      (lines : List Line)
      → ((k : Bytes) → carries k (workers i) ≡ (e.checksum == k))
      → IsApart n es queue workers lines
      → IsApart n es queue (set_worker i idle workers) (line e o ∷ lines)
  unfolding carries
  note-IsApart i e o queue workers lines same s = record {
    distinct = s.distinct;
    alone = λ j j' k c c'. ground (arith, s.alone j j' k);
    not_queued = λ j k c. ground (arith, s.not_queued j k);
    done_not_queued = λ k d. ground (arith, same k, s.not_queued i k, s.done_not_queued k);
    done_not_carried = λ j k d. elim (Bool-cases (carries k (workers j))) [
      | inl c ↦ ground (arith, same k, s.done_not_carried j k, s.alone i j k)
      | inr c ↦ ground arith
    ];
    somewhere = λ k d. elim (s.somewhere k d) [
      | inl q ↦ inl q
      | inr (inl (j, l, c)) ↦ elim (Bool-cases (eqb i j)) [
        | inl here ↦ inr (inr (ground (arith, same k)))
        | inr other ↦ inr (inl (j, l, ground arith))
      ]
      | inr (inr q) ↦ inr (inr (ground arith))
    ];
  }
