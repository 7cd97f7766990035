-- ===== src/Singleflight/Progress.antt =====
-- internal/singleflight/singleflight.go: no invocation of `Do` is left waiting for a call that nobody
-- runs.
use cache_proxyfy.Prelude.{
  true, false, ℕ, ◌≡◌, ◌⊎◌, inl, inr, refl, Bytes, Bool, some, arith, ◌==◌, ==_iff, Option-cases,
  Bool-cases, eqb,
}
use cache_proxyfy.Singleflight.{
  Phase, entering, waiting, running, closing, returned, Group, new_group, Step, joins, opens,
  finishes, closes, leaves, Reach, at_start, after_step, join_call, open_call, finish_call,
  close_call, leave_call,
}
use cache_proxyfy.Singleflight.Sharing.{Leads, Has, IsSound, Reach-IsSound}

module _ {A : Type 0} where
  -- The call has a result, or an invocation runs it.
  unfoldable pub IsServed : Group A → Bytes → ℕ → Type 0
  IsServed g k c = ((a : A) × (g.results c ≡ some a)) ⊎ ((j : ℕ) × (g.phases j ≡ running k c))

  pub record IsLive (g : Group A) : Type 0 where
    pub led : (k : Bytes) (c : ℕ) → g.calls k ≡ some c → (j : ℕ) × Leads (g.phases j) k c
    pub served : (i : ℕ) (k : Bytes) (c : ℕ) → g.phases i ≡ waiting k c → IsServed g k c

  start-IsLive : IsLive new_group
  start-IsLive = record {
    led = λ k c h. absurd (ground arith);
    served = λ i k c h. absurd (ground arith);
  }

  Leads-IsServed :
      (g : Group A) (j : ℕ) (k : Bytes) (c : ℕ) (p : Phase A)
      → IsSound g
      → g.phases j ≡ p
      → Leads p k c
      → IsServed g k c
  unfolding Leads IsServed Has
  Leads-IsServed g j k c entering s e h = absurd h
  Leads-IsServed g j k c (waiting l d) s e h = absurd h
  Leads-IsServed g j k c (running l d) s e h = inr (j, ground arith)
  Leads-IsServed g j k c (closing l d a) s e h = inl (a, ground (arith, s.kept j c a))
  Leads-IsServed g j k c (returned d a b) s e h = absurd h

  joins-IsLive :
      (g : Group A) (i : ℕ) (k : Bytes) (c : ℕ)
      → g.phases i ≡ entering
      → g.calls k ≡ some c
      → IsSound g
      → IsLive g
      → IsLive (join_call i k c g)
  unfolding Leads IsServed
  joins-IsLive g i k c e q s v = record {
    led = λ l d h. let (j, leads) = v.led l d h in (j, ground arith);
    served = λ i' l d h. elim (Bool-cases (eqb i i')) [
      | inl same ↦
          let (j, leads) = v.led k c q in
          elim (Leads-IsServed g j k c (g.phases j) s refl leads) [
            | inl (a, r) ↦ inl (a, ground arith)
            | inr (j', r) ↦ inr (j', ground arith)
          ]
      | inr other ↦ elim (v.served i' l d (ground arith)) [
        | inl done ↦ inl done
        | inr (j, r) ↦ inr (j, ground arith)
      ]
    ];
  }

  opens-IsLive :
      (g : Group A) (i : ℕ) (k : Bytes)
      → g.phases i ≡ entering
      → IsLive g
      → IsLive (open_call i k g)
  unfolding Leads IsServed
  opens-IsLive g i k e v = record {
    led = λ l d h. elim (Bool-cases (k == l)) [
      | inl same ↦ (i, ground (arith, ==_iff k l))
      | inr other ↦ let (j, leads) = v.led l d (ground arith) in (j, ground arith)
    ];
    served = λ i' l d h. elim (v.served i' l d (ground arith)) [
      | inl done ↦ inl done
      | inr (j, r) ↦ inr (j, ground arith)
    ];
  }

  finishes-IsLive :
      (g : Group A) (i : ℕ) (k : Bytes) (c : ℕ) (a : A)
      → g.phases i ≡ running k c
      → IsLive g
      → IsLive (finish_call i k c a g)
  unfolding Leads IsServed
  finishes-IsLive g i k c a e v = record {
    led = λ l d h. let (j, leads) = v.led l d h in (j, ground arith);
    served = λ i' l d h. elim (Bool-cases (eqb c d)) [
      | inl same ↦ inl (a, ground arith)
      | inr other ↦ elim (v.served i' l d (ground arith)) [
        | inl (b, r) ↦ inl (b, ground arith)
        | inr (j, r) ↦ inr (j, ground arith)
      ]
    ];
  }

  closes-IsLive :
      (g : Group A) (i : ℕ) (k : Bytes) (c : ℕ) (a : A)
      → g.phases i ≡ closing k c a
      → IsLive g
      → IsLive (close_call i k c a g)
  unfolding Leads IsServed
  closes-IsLive g i k c a e v = record {
    led = λ l d h. let (j, leads) = v.led l d (ground arith) in (j, ground (arith, ==_iff k l));
    served = λ i' l d h. elim (v.served i' l d (ground arith)) [
      | inl done ↦ inl done
      | inr (j, r) ↦ inr (j, ground arith)
    ];
  }

  leaves-IsLive :
      (g : Group A) (i : ℕ) (k : Bytes) (c : ℕ) (a : A)
      → g.phases i ≡ waiting k c
      → IsLive g
      → IsLive (leave_call i c a g)
  unfolding Leads IsServed
  leaves-IsLive g i k c a e v = record {
    led = λ l d h. let (j, leads) = v.led l d h in (j, ground arith);
    served = λ i' l d h. elim (v.served i' l d (ground arith)) [
      | inl done ↦ inl done
      | inr (j, r) ↦ inr (j, ground arith)
    ];
  }

  Step-IsLive : {g g' : Group A} → Step g g' → IsSound g → IsLive g → IsLive g'
  Step-IsLive (joins g i k c e q) s v = joins-IsLive g i k c e q s v
  Step-IsLive (opens g i k e q) s v = opens-IsLive g i k e v
  Step-IsLive (finishes g i k c a e) s v = finishes-IsLive g i k c a e v
  Step-IsLive (closes g i k c a e) s v = closes-IsLive g i k c a e v
  Step-IsLive (leaves g i k c a e q) s v = leaves-IsLive g i k c a e v

  pub Reach-IsLive : {g : Group A} → Reach g → IsLive g
  Reach-IsLive at_start = start-IsLive
  Reach-IsLive (after_step r t) = Step-IsLive t (Reach-IsSound r) (Reach-IsLive r)

module _ {A : Type 0} where
  -- Any number of steps on.
  pub data Later : Group A → Group A → Type 0 where
    now : {g : Group A} → Later g g
    next : {g g' g'' : Group A} → Later g g' → Step g' g'' → Later g g''

  -- A later state in which the invocation has returned.
  abbrev pub Returns : Group A → ℕ → Type 0
  Returns g i =
      (g' : Group A) × (c : ℕ) × (a : A) × (shared : Bool) × Later g g'
      × (g'.phases i ≡ returned c a shared)

  closing-Returns :
      {h : Group A} (g : Group A) (i : ℕ) (k : Bytes) (c : ℕ) (a : A)
      → Later h g
      → g.phases i ≡ closing k c a
      → Returns h i
  closing-Returns g i k c a l e =
      (close_call i k c a g, c, a, true, next l (closes g i k c a e), ground arith)

  running-Returns :
      {h : Group A} (g : Group A) (i : ℕ) (k : Bytes) (c : ℕ) (a : A)
      → Later h g
      → g.phases i ≡ running k c
      → Returns h i
  running-Returns g i k c a l e =
      closing-Returns (finish_call i k c a g) i k c a (next l (finishes g i k c a e)) (ground arith)

  waiting-Returns :
      {h : Group A} (g : Group A) (i : ℕ) (k : Bytes) (c : ℕ) (a : A)
      → IsLive g
      → Later h g
      → g.phases i ≡ waiting k c
      → Returns h i
  unfolding IsServed
  waiting-Returns g i k c a v l e = elim (v.served i k c e) [
    | inl (b, r) ↦ (leave_call i c b g, c, b, false, next l (leaves g i k c b e r), ground arith)
    | inr (j, r) ↦
        let g' : Group A = finish_call j k c a g in
        (
          leave_call i c a g',
          c,
          a,
          false,
          next (next l (finishes g j k c a r)) (leaves g' i k c a (ground arith) (ground arith)),
          ground arith,
        )
  ]

  entering-Returns :
      (g : Group A) (i : ℕ) (k : Bytes) (a : A) → Reach g → g.phases i ≡ entering → Returns g i
  entering-Returns g i k a r e = elim (Option-cases (g.calls k)) [
    | inl q ↦
        running-Returns (open_call i k g) i k g.next_call a (next now (opens g i k e q))
          (ground arith)
    | inr (c, q) ↦
        let t : Step g (join_call i k c g) = joins g i k c e q in
        waiting-Returns (join_call i k c g) i k c a (Reach-IsLive (after_step r t)) (next now t)
          (ground arith)
  ]

  Phase-Returns :
      (g : Group A) (i : ℕ) (k : Bytes) (a : A) (p : Phase A)
      → Reach g
      → g.phases i ≡ p
      → Returns g i
  Phase-Returns g i k a entering r e = entering-Returns g i k a r e
  Phase-Returns g i k a (waiting l c) r e = waiting-Returns g i l c a (Reach-IsLive r) now e
  Phase-Returns g i k a (running l c) r e = running-Returns g i l c a now e
  Phase-Returns g i k a (closing l c b) r e = closing-Returns g i l c b now e
  Phase-Returns g i k a (returned c b s) r e = (g, c, b, s, now, e)

  -- No deadlock: from every state that a group can come to, every invocation of `Do`, for whatever
  -- key, can be brought to its return by steps of the invocations that there are, where `fn` returns.
  -- So nobody waits for a call that was dropped from the map before it was finished.
  pub invocation-Returns : {g : Group A} → Reach g → (i : ℕ) (k : Bytes) (a : A) → Returns g i
  invocation-Returns {g = g} r i k a = Phase-Returns g i k a (g.phases i) r refl
