-- ===== src/Singleflight/Sharing.antt =====
-- The states that a singleflight group comes to.
use cache_proxyfy.Prelude.{
  true, ℕ, ◌≡◌, ◌<◌, inl, inr, refl, Bytes, Bool, none, some, arith, ==_iff, Option-cases,
}
use cache_proxyfy.Singleflight.{
  Phase, entering, waiting, running, closing, returned, Group, new_group, Step, joins, opens,
  finishes, closes, leaves, Reach, at_start, after_step, join_call, open_call, finish_call,
  close_call, leave_call,
}

module _ {A : Type 0} where
  -- The key and the call that an invocation runs or closes.
  unfoldable pub Leads : Phase A → Bytes → ℕ → Type 0
  Leads entering k c = ⊥
  Leads (waiting j d) k c = ⊥
  Leads (running j d) k c = (j ≡ k) × (d ≡ c)
  Leads (closing j d a) k c = (j ≡ k) × (d ≡ c)
  Leads (returned d a s) k c = ⊥

  -- The result that an invocation has, or is about to return.
  unfoldable pub Has : Phase A → ℕ → A → Type 0
  Has entering c a = ⊥
  Has (waiting j d) c a = ⊥
  Has (running j d) c a = ⊥
  Has (closing j d b) c a = (d ≡ c) × (b ≡ a)
  Has (returned d b s) c a = (d ≡ c) × (b ≡ a)

  -- The call that an invocation opened.
  unfoldable pub Opened : Phase A → ℕ → Type 0
  Opened entering c = ⊥
  Opened (waiting j d) c = ⊥
  Opened (running j d) c = d ≡ c
  Opened (closing j d a) c = d ≡ c
  Opened (returned d a s) c = (d ≡ c) × (s ≡ true)

  pub record IsSound (g : Group A) : Type 0 where
    pub owned : (i : ℕ) (k : Bytes) (c : ℕ) → Leads (g.phases i) k c → g.calls k ≡ some c
    pub alone :
        (i j : ℕ) (k l : Bytes) (c : ℕ) → Leads (g.phases i) k c → Leads (g.phases j) l c → i ≡ j
    pub known : (k : Bytes) (c : ℕ) → g.calls k ≡ some c → c < g.next_call
    pub fresh : (c : ℕ) (a : A) → g.results c ≡ some a → c < g.next_call
    pub open_result : (i : ℕ) (k : Bytes) (c : ℕ) → g.phases i ≡ running k c → g.results c ≡ none
    pub kept : (i : ℕ) (c : ℕ) (a : A) → Has (g.phases i) c a → g.results c ≡ some a
    pub opened_known : (i c : ℕ) → Opened (g.phases i) c → c < g.next_call
    pub one_opener : (i j c : ℕ) → Opened (g.phases i) c → Opened (g.phases j) c → i ≡ j

  start-IsSound : IsSound new_group
  unfolding Leads Has Opened
  start-IsSound = record {
    owned = λ i k c h. absurd h;
    alone = λ i j k l c h h'. absurd h;
    known = λ k c h. absurd (cc);
    fresh = λ c a h. absurd (cc);
    open_result = λ i k c h. refl;
    kept = λ i c a h. absurd h;
    opened_known = λ i c h. absurd h;
    one_opener = λ i j c h h'. absurd h;
  }

  joins-IsSound :
      (g : Group A) (i : ℕ) (k : Bytes) (c : ℕ)
      → g.phases i ≡ entering
      → IsSound g
      → IsSound (join_call i k c g)
  unfolding Leads Has Opened
  joins-IsSound g i k c e s = record {
    owned = λ j l d h. ground (arith, s.owned j l d);
    alone = λ j j' l l' d h h'. ground (arith, s.alone j j' l l' d);
    known = s.known;
    fresh = s.fresh;
    open_result = λ j l d h. ground (arith, s.open_result j l d);
    kept = λ j d a h. ground (arith, s.kept j d a);
    opened_known = λ j d h. ground (arith, s.opened_known j d);
    one_opener = λ j j' d h h'. ground (arith, s.one_opener j j' d);
  }

  leaves-IsSound :
      (g : Group A) (i c : ℕ) (a : A)
      → g.results c ≡ some a
      → IsSound g
      → IsSound (leave_call i c a g)
  unfolding Leads Has Opened
  leaves-IsSound g i c a e s = record {
    owned = λ j l d h. ground (arith, s.owned j l d);
    alone = λ j j' l l' d h h'. ground (arith, s.alone j j' l l' d);
    known = s.known;
    fresh = s.fresh;
    open_result = λ j l d h. ground (arith, s.open_result j l d);
    kept = λ j d b h. ground (arith, s.kept j d b);
    opened_known = λ j d h. ground (arith, s.opened_known j d);
    one_opener = λ j j' d h h'. ground (arith, s.one_opener j j' d);
  }

  opens-IsSound :
      (g : Group A) (i : ℕ) (k : Bytes)
      → g.phases i ≡ entering
      → g.calls k ≡ none
      → IsSound g
      → IsSound (open_call i k g)
  unfolding Leads Has Opened
  opens-IsSound g i k e q s = record {
    owned = λ j l d h. ground (arith, ==_iff k l, s.owned j l d);
    alone = λ j j' l l' d h h'.
        ground
          (arith, s.alone j j' l l' d, s.owned j l d, s.owned j' l' d, s.known l d, s.known l' d);
    known = λ l d h. ground (arith, s.known l d);
    fresh = λ d a h. ground (arith, s.fresh d a);
    open_result = λ j l d h. elim (Option-cases (g.results d)) [
      | inl none_yet ↦ none_yet
      | inr (a, q') ↦ absurd (ground (arith, s.fresh d a q', s.open_result j l d))
    ];
    kept = λ j d b h. ground (arith, s.kept j d b);
    opened_known = λ j d h. ground (arith, s.opened_known j d);
    one_opener =
        λ j j' d h h'. ground (arith, s.one_opener j j' d, s.opened_known j d, s.opened_known j' d);
  }

  finishes-IsSound :
      (g : Group A) (i : ℕ) (k : Bytes) (c : ℕ) (a : A)
      → g.phases i ≡ running k c
      → IsSound g
      → IsSound (finish_call i k c a g)
  unfolding Leads Has Opened
  finishes-IsSound g i k c a e s = record {
    owned = λ j l d h. ground (arith, s.owned j l d, s.owned i k c);
    alone = λ j j' l l' d h h'.
        ground (arith, s.alone j j' l l' d, s.alone i j' k l' c, s.alone i j k l c);
    known = s.known;
    fresh = λ d b h. ground (arith, s.fresh d b, s.known k c, s.owned i k c);
    open_result = λ j l d h. ground (arith, s.open_result j l d, s.alone i j k l c);
    kept = λ j d b h. ground (arith, s.kept j d b, s.open_result i k c e);
    opened_known = λ j d h. ground (arith, s.opened_known j d, s.opened_known i c);
    one_opener =
        λ j j' d h h'. ground (arith, s.one_opener j j' d, s.one_opener i j' c, s.one_opener j i c);
  }

  closes-IsSound :
      (g : Group A) (i : ℕ) (k : Bytes) (c : ℕ) (a : A)
      → g.phases i ≡ closing k c a
      → IsSound g
      → IsSound (close_call i k c a g)
  unfolding Leads Has Opened
  closes-IsSound g i k c a e s = record {
    owned = λ j l d h. ground (arith, ==_iff k l, s.owned j l d, s.owned i k c, s.alone i j k l c);
    alone = λ j j' l l' d h h'. ground (arith, s.alone j j' l l' d);
    known = λ l d h. ground (arith, s.known l d);
    fresh = s.fresh;
    open_result = λ j l d h. ground (arith, s.open_result j l d);
    kept = λ j d b h. ground (arith, s.kept j d b, s.kept i c a);
    opened_known = λ j d h. ground (arith, s.opened_known j d, s.opened_known i c);
    one_opener =
        λ j j' d h h'. ground (arith, s.one_opener j j' d, s.one_opener i j' c, s.one_opener j i c);
  }

  Step-IsSound : {g g' : Group A} → Step g g' → IsSound g → IsSound g'
  Step-IsSound (joins g i k c e q) s = joins-IsSound g i k c e s
  Step-IsSound (opens g i k e q) s = opens-IsSound g i k e q s
  Step-IsSound (finishes g i k c a e) s = finishes-IsSound g i k c a e s
  Step-IsSound (closes g i k c a e) s = closes-IsSound g i k c a e s
  Step-IsSound (leaves g i k c a e q) s = leaves-IsSound g i c a q s

  pub Reach-IsSound : {g : Group A} → Reach g → IsSound g
  Reach-IsSound at_start = start-IsSound
  Reach-IsSound (after_step r t) = Step-IsSound t (Reach-IsSound r)

  -- In every state that a group can come to, two invocations that run `fn` for the same key are the
  -- same one: there is never a second fetch of a key in flight.
  pub run-once :
      {g : Group A}
      → Reach g
      → (i j : ℕ) (k : Bytes) (c d : ℕ) → g.phases i ≡ running k c
      → g.phases j ≡ running k d
      → i ≡ j
  unfolding Leads
  run-once {g = g} r i j k c d e e' =
      let s = Reach-IsSound r in ground (arith, s.owned i k c, s.owned j k d, s.alone i j k k c)

  -- All invocations that returned from the same call returned the same result.
  pub return-same :
      {g : Group A}
      → Reach g
      → (i j : ℕ) (c : ℕ) (a b : A) (s t : Bool) → g.phases i ≡ returned c a s
      → g.phases j ≡ returned c b t
      → a ≡ b
  unfolding Has
  return-same {g = g} r i j c a b s t e e' =
      let sound = Reach-IsSound r in ground (arith, sound.kept i c a, sound.kept j c b)

  -- At most one of the invocations that return from the same call returns as the one that ran `fn`.
  pub return-once :
      {g : Group A}
      → Reach g
      → (i j : ℕ) (c : ℕ) (a b : A) → g.phases i ≡ returned c a true
      → g.phases j ≡ returned c b true
      → i ≡ j
  unfolding Opened
  return-once {g = g} r i j c a b e e' =
      let sound = Reach-IsSound r in ground (arith, sound.one_opener i j c)
