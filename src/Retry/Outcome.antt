-- ===== src/Retry/Outcome.antt =====
-- src/services/ai/retry.rs: which attempts retry_with_backoff makes, what it returns, how it pauses.
use subx_core.Prelude.{
  ℕ, zero, suc, ◌+◌, ◌-◌, ◌*◌, min, ◌≡◌, refl, sym, ap, subst, ◌∙◌, ◌≤◌, ◌<◌, ◌⊎◌, inl, inr, List,
  [], ◌∷◌, Option, none, ltb, arith, false, lt→ltb, ltb→lt, Bool-cases, Result, ok, err,
}
use subx_core.Retry.{
  RetryConfig, Attempted, RetryErrors, from_millis, delay_of, paused, after_attempt, last_of,
  last_or, attempts_from, attempt_all, retry_with_backoff,
}

-- The pauses after as many attempts from a number on: the milliseconds that the back-off gives, in
-- nanoseconds, and never more than max_delay.
unfoldable pub delays : RetryConfig → ℕ → ℕ → List ℕ
delays config attempt zero = []
delays config attempt (suc n) =
    min (config.backoff attempt * 1000000) config.max_delay ∷ delays config (suc attempt) n

no_attempt : (a : ℕ) → zero ≡ a - a
no_attempt a = omega arith

one_more : (a k : ℕ) → suc a ≤ k → k - a ≡ suc (k - suc a)
one_more a k le = omega arith

module _ {ℓ} {E : Type 0} {T : Type ℓ} (errors : RetryErrors E) (operation : ℕ → Result E T)
    (config : RetryConfig) where
  unfoldable pub Fails : ℕ → Type ℓ
  Fails attempt = (e : E) × (operation attempt ≡ err e)

  unfoldable pub Succeeds : ℕ → Type ℓ
  Succeeds attempt = (value : T) × (operation attempt ≡ ok value)

  -- Attempts from `first` on: the last made is the first that succeeds or the last that is allowed.
  unfoldable pub RunsFrom : ℕ → Attempted E T → Type ℓ
  unfolding Fails Succeeds delays
  RunsFrom first run =
      (k : ℕ) × (first ≤ k)
      × (k < config.max_attempts)
      × (run.calls ≡ suc k)
      × (run.result ≡ operation k)
      × ((j : ℕ) → first ≤ j → j < k → Fails j)
      × (run.pauses ≡ delays config first (k - first))
      × ((suc k ≡ config.max_attempts) ⊎ Succeeds k)

  stops_at :
      (a : ℕ) (r : Result E T)
      → operation a ≡ r
      → a < config.max_attempts
      → (suc a ≡ config.max_attempts) ⊎ Succeeds a
      → RunsFrom a (record { result = r; calls = suc a; pauses = [] })
  unfolding RunsFrom
  stops_at a r h below last = (
    a,
    omega arith,
    below,
    refl,
    sym h,
    (λ j le lt. absurd (omega arith)),
    ap (delays config a) (no_attempt a),
    last,
  )

  earlier_attempts :
      (a k : ℕ)
      → Fails a
      → ((j : ℕ) → suc a ≤ j → j < k → Fails j)
      → (j : ℕ) → a ≤ j
      → j < k
      → Fails j
  earlier_attempts a k here later j le lt = elim (Bool-cases (ltb a j)) [
    | inl c ↦ later j (ltb→lt a j c) lt
    | inr c ↦ subst Fails (the_same c) here
  ]
    where
      the_same : ltb a j ≡ false → a ≡ j
      the_same c = ground (arith, c, le)

  goes_on :
      (a : ℕ) (e : E) (rest : Attempted E T)
      → operation a ≡ err e
      → RunsFrom (suc a) rest
      → RunsFrom a (paused (delay_of config a) rest)
  unfolding RunsFrom paused delay_of from_millis
  goes_on a e rest h (k, le, below, calls, result, fails, pauses, last) = (
    k,
    omega arith,
    below,
    calls,
    result,
    (λ j le' lt. earlier_attempts a k (e, h) fails j le' lt),
    ap (λ ds. min (config.backoff a * 1000000) config.max_delay ∷ ds) pauses
        ∙ sym (ap (delays config a) (one_more a k le)),
    last,
  )

  last_attempt :
      (a : ℕ) (r : Result E T) (last_error : Option E)
      → operation a ≡ r
      → suc a ≡ config.max_attempts
      → RunsFrom a (
          after_attempt config a r
            (attempts_from errors operation config zero (suc a) (last_of r last_error)))
  unfolding after_attempt attempts_from last_of last_or Succeeds
  last_attempt a (ok value) last_error h sum =
      stops_at a (ok value) h (omega arith) (inr (value, h))
  last_attempt a (err e) last_error h sum =
      rw (not_before a sum) (stops_at a (err e) h (omega arith) (inl sum))
    where
      not_before : (a : ℕ) → suc a ≡ config.max_attempts → ltb a (config.max_attempts - 1) ≡ false
      not_before a sum = ground (arith, sum)

  next_attempt :
      (a left : ℕ) (r : Result E T) (rest : Attempted E T)
      → operation a ≡ r
      → suc a + suc left ≡ config.max_attempts
      → RunsFrom (suc a) rest
      → RunsFrom a (after_attempt config a r rest)
  unfolding after_attempt Succeeds
  next_attempt a left (ok value) rest h sum more =
      stops_at a (ok value) h (omega arith) (inr (value, h))
  next_attempt a left (err e) rest h sum more =
      rw (lt→ltb a (config.max_attempts - 1) (omega arith)) (goes_on a e rest h more)

  attempts_from-RunsFrom :
      (left a : ℕ) (last_error : Option E)
      → suc a + left ≡ config.max_attempts
      → RunsFrom a (attempts_from errors operation config (suc left) a last_error)
  unfolding attempts_from
  attempts_from-RunsFrom zero a last_error sum =
      last_attempt a (operation a) last_error refl (omega arith)
  attempts_from-RunsFrom (suc left) a last_error sum =
      next_attempt a left (operation a) _ refl sum
        (attempts_from-RunsFrom left (suc a) (last_of (operation a) last_error) (omega arith))

  attempt_all-RunsFrom :
      (n : ℕ) → n ≡ config.max_attempts → 1 ≤ n → RunsFrom 0 (attempt_all errors operation config n)
  unfolding attempt_all
  attempt_all-RunsFrom zero same some_attempt = absurd (omega arith)
  attempt_all-RunsFrom (suc left) same some_attempt =
      attempts_from-RunsFrom left 0 none (omega arith)

  -- With at least one attempt allowed, retry_with_backoff returns the result of its last call, every
  -- earlier call failed, it stopped at the first success or after max_attempts calls, and it paused
  -- once between two calls, for the milliseconds that the back-off gives for the number of the attempt,
  -- or for max_delay where that is shorter.
  pub retry_with_backoff-RunsFrom :
      1 ≤ config.max_attempts → RunsFrom 0 (retry_with_backoff errors operation config)
  unfolding retry_with_backoff
  retry_with_backoff-RunsFrom some_attempt =
      attempt_all-RunsFrom config.max_attempts refl some_attempt
