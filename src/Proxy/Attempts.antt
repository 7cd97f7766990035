-- ===== src/Proxy/Attempts.antt =====
-- How many requests a fetch makes, which of them decides, and how long it waits.
use cache_proxyfy.Prelude.{
  ℕ, zero, suc, ◌+◌, ◌*◌, ◌%◌, ◌-◌, ◌≤◌, ◌<◌, ◌≡◌, refl, ap, ◌⊎◌, inl, inr, Bytes, true, false,
  ◌||◌, Option, none, some, [], arith, eqb, if◌then◌else◌, Result, ok, err, length, Bool-cases,
  Result-cases, Option-cases, subst, dec_lt,
}
use cache_proxyfy.Prelude.Integers.{mul64, signed_lt, sign_bit, int_mod}
use cache_proxyfy.Proxy.Retry.{
  Cause, FetchError, context_done, Reply, do_fetch, is_retryable, RetryConfig, hint, shift64,
  retry_delay, Fetched, waited, after_failure, fetch_loop, fetch_from_upstream,
}

module _ (jitter : ℕ → ℕ) (cfg : RetryConfig) (replies : ℕ → Reply) (ended : ℕ → Option Cause) where
  -- Attempt `i` failed in a way that is tried again, and its wait was not cut short.
  abbrev pub IsTransient : ℕ → Type 0
  IsTransient i =
      (e : FetchError) × (do_fetch (replies i) ≡ err e) × (is_retryable e ≡ true) × (ended i ≡ none)

  -- What attempt `n` and the result have to do with one another if the fetch ends there.
  pub data Decides (n : ℕ) (r : Result FetchError Bytes) : Type 0 where
    success : (body : Bytes) → do_fetch (replies n) ≡ ok body → r ≡ ok body → Decides n r
    exhausted :
        (e : FetchError)
        → do_fetch (replies n) ≡ err e
        → suc n ≡ cfg.max_attempts
        → r ≡ err e
        → Decides n r
    permanent :
        (e : FetchError)
        → do_fetch (replies n) ≡ err e
        → is_retryable e ≡ false
        → r ≡ err e
        → Decides n r
    interrupted :
        (e : FetchError) (c : Cause)
        → do_fetch (replies n) ≡ err e
        → is_retryable e ≡ true
        → ended n ≡ some c
        → r ≡ err (context_done c)
        → Decides n r

  -- A fetch that starts at attempt `from` ends at attempt `n`.
  pub record Ends (from n : ℕ) (f : Fetched) : Type 0 where
    pub counted : f.attempts ≡ suc n
    pub starts : from ≤ n
    pub bounded : n < cfg.max_attempts
    pub waits : length f.delays + from ≤ n + 1
    pub few_waits : length f.delays + from < cfg.max_attempts
    pub transient : (i : ℕ) → from ≤ i → i < n → IsTransient i
    pub decides : Decides n f.result

  Ends-at :
      (a : ℕ) (f : Fetched)
      → f.attempts ≡ suc a
      → f.delays ≡ []
      → a < cfg.max_attempts
      → Decides a f.result
      → Ends a a f
  Ends-at a f counted no_delays bounded d = record {
    counted = counted;
    starts = omega arith;
    bounded = bounded;
    waits = omega (arith, ap length no_delays);
    few_waits = omega (arith, ap length no_delays);
    transient = λ i p q. absurd (omega arith);
    decides = d;
  }

  -- A failed attempt that is tried again comes in front of the rest of the loop.
  Ends-waited :
      (a n delay : ℕ) (again : Fetched)
      → IsTransient a
      → Ends (a + 1) n again
      → Ends a n (waited delay again)
  Ends-waited a n delay again t r = record {
    counted = r.counted;
    starts = omega arith;
    bounded = r.bounded;
    waits = omega arith;
    few_waits = omega arith;
    transient = λ i p q. elim (dec_lt a i) [
      | yes past ↦ r.transient i (omega arith) q
      | no here ↦ subst IsTransient (omega arith) t
    ];
    decides = r.decides;
  }

  failure-Ends :
      (a : ℕ) (e : FetchError) (again : Fetched)
      → do_fetch (replies a) ≡ err e
      → a < cfg.max_attempts
      → (suc a < cfg.max_attempts → (n : ℕ) × Ends (a + 1) n again)
      → (n : ℕ) × Ends a n (after_failure jitter cfg replies ended a e again)
  unfolding after_failure
  failure-Ends a e again q lt more = elim (Bool-cases (eqb a (cfg.max_attempts - 1))) [
    | inl last ↦
        (a, rw (last, ◌||◌) (Ends-at a _ (omega arith) refl lt (exhausted e q (ground arith) refl)))
    | inr early ↦ elim (Bool-cases (is_retryable e)) [
      | inr gone ↦
          (a, rw (early, gone, ◌||◌) (Ends-at a _ (omega arith) refl lt (permanent e q gone refl)))
      | inl again_ok ↦ elim (Option-cases (ended a)) [
        | inl on ↦
            let (n, r) = more (ground arith) in
            (n, rw (early, again_ok, on, ◌||◌) (Ends-waited a n _ again (e, q, again_ok, on) r))
        | inr (c, off) ↦ (
          a,
          rw (early, again_ok, off, ◌||◌)
              (record {
                counted = omega arith;
                starts = omega arith;
                bounded = lt;
                waits = omega arith;
                few_waits = ground arith;
                transient = λ i p r. absurd (omega arith);
                decides = interrupted e c q again_ok off refl;
              }),
        )
      ]
    ]
  ]

  loop-Ends :
      (left a : ℕ) (last : Option FetchError)
      → left + a ≡ cfg.max_attempts
      → a < cfg.max_attempts
      → (n : ℕ) × Ends a n (fetch_loop jitter cfg replies ended left a last)
  unfolding fetch_loop
  loop-Ends zero a last h lt = absurd (omega arith)
  loop-Ends (suc left) a last h lt = elim (Result-cases (do_fetch (replies a))) [
    | inl (body, e) ↦
        (a, rw (e, fetch_loop) (Ends-at a _ (omega arith) refl lt (success body e refl)))
    | inr (e, q) ↦
        let (n, r) =
          failure-Ends a e (fetch_loop jitter cfg replies ended left (a + 1) (some e)) q lt
            (λ more. loop-Ends left (a + 1) (some e) (omega arith) (omega arith)) in
        (n, rw (q, fetch_loop) r)
  ]

-- With at least one attempt allowed, a fetch ends, after at most that many requests and fewer
-- waits: at an attempt n every earlier attempt failed transiently, and attempt n succeeded, or it
-- failed and was the last one allowed, or failed permanently, or the context ended in its wait. The
-- result is what that attempt gave, or the error of the context.
pub fetch_from_upstream-Ends :
    (jitter : ℕ → ℕ) (cfg : RetryConfig) (replies : ℕ → Reply) (ended : ℕ → Option Cause)
    → 0 < cfg.max_attempts
    → (n : ℕ) × Ends jitter cfg replies ended 0 n (fetch_from_upstream jitter cfg replies ended)
unfolding fetch_from_upstream
fetch_from_upstream-Ends jitter cfg replies ended h =
    loop-Ends jitter cfg replies ended cfg.max_attempts 0 none (omega arith) h

-- For a jitter that moves a delay by at most a quarter, and where the exponential delay does not
-- overflow, the delay before any retry is at most 5/4 of the configured maximum, and a Retry-After
-- hint, where there is one, is kept to the maximum itself.
pub retry_delay_bounds :
    (jitter : ℕ → ℕ) (cfg : RetryConfig) (attempt : ℕ) (e : FetchError)
    → ((d : ℕ) → 4 * jitter d ≤ 5 * d)
    → cfg.max_delay < sign_bit
    → hint e < int_mod
    → cfg.base_delay * shift64 attempt < sign_bit
    → (4 * retry_delay jitter cfg attempt e ≤ 5 * cfg.max_delay)
      × ((signed_lt 0 (hint e) ≡ false) ⊎ (retry_delay jitter cfg attempt e ≤ cfg.max_delay))
unfolding retry_delay
retry_delay_bounds jitter cfg attempt e quarter small pattern fits =
    ground (arith, quarter cfg.max_delay, quarter (mul64 cfg.base_delay (shift64 attempt)))

not_hinted : (h : ℕ) → h ≡ 0 → signed_lt 0 h ≡ false
not_hinted h e = ground arith

capped :
    (max d : ℕ)
    → max < sign_bit
    → d < sign_bit
    → max ≤ d
    → (if signed_lt max (d % int_mod) then max else (d % int_mod)) ≡ max
capped max d small fits reached = ground arith

-- The configured maximum bounds the delay before the jitter, not after it: once the exponential
-- delay has reached the maximum, a jitter that lengthens it exceeds the maximum.
pub retry_delay-exceeds_max :
    (jitter : ℕ → ℕ) (cfg : RetryConfig) (attempt : ℕ) (e : FetchError)
    → cfg.max_delay < jitter cfg.max_delay
    → cfg.max_delay < sign_bit
    → cfg.base_delay * shift64 attempt < sign_bit
    → cfg.max_delay ≤ cfg.base_delay * shift64 attempt
    → hint e ≡ 0
    → cfg.max_delay < retry_delay jitter cfg attempt e
unfolding retry_delay
retry_delay-exceeds_max jitter cfg attempt e longer small fits reached none_given =
    rw
      (
        not_hinted (hint e) none_given,
        capped cfg.max_delay (cfg.base_delay * shift64 attempt) small fits reached,
      )
      longer
