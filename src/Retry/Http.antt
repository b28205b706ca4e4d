-- ===== src/Retry/Http.antt =====
-- src/services/ai/retry.rs: the loop of the HTTP requests ends, and is retry_with_backoff with one delay.
use subx_core.Prelude.{
  ℕ, zero, suc, ◌+◌, ◌-◌, ◌*◌, ◌≡◌, refl, sym, ap, ◌∙◌, ◌≤◌, max, Bool, true, false, if◌then◌else◌,
  Option, none, some, ltb, arith, lt→ltb, le→leb, lt→leb, Result, ok, err,
}
use subx_core.Retry.{
  RetryConfig, Attempted, RetryErrors, from_millis, delay_of, last_or, after_attempt, last_of,
  attempts_from, attempt_all, retry_with_backoff, Request, status_of, after_send, request_loop,
  make_http_request_with_retry_impl,
}

-- The request as an operation: the errors of the client are converted.
unfoldable pub converted {ℓ} : {H E : Type 0} {T : Type ℓ} → (H → E) → Result H T → Result E T
converted into_error (ok value) = ok value
converted into_error (err e) = err (into_error e)

unfoldable pub as_operation {ℓ} : {H E : Type 0} {T : Type ℓ} → Request H E T → ℕ → Result E T
unfolding status_of converted
as_operation request n =
    converted request.into_error (status_of request.error_for_status (request.send n))

-- One delay between all attempts, of which there is at least one.
abbrev pub with_one_delay : ℕ → ℕ → RetryConfig
with_one_delay retry_attempts retry_delay_ms = record {
  max_attempts = max 1 retry_attempts;
  backoff = λ attempt. retry_delay_ms;
  max_delay = retry_delay_ms * 1000000;
}

when_true {ℓ} : {A : Type ℓ} (b : Bool) (x y : A) → b ≡ true → (if b then x else y) ≡ x
when_true true x y h = refl
when_true false x y h = absurd (ground (arith, h))

module _ {ℓ} {H E : Type 0} {T : Type ℓ} (errors : RetryErrors E) (request : Request H E T)
    (retry_attempts retry_delay_ms : ℕ) where
  abbrev expected : ℕ → ℕ → Option E → Attempted E T
  expected =
      attempts_from errors (as_operation request) (with_one_delay retry_attempts retry_delay_ms)

  one_delay :
      (a : ℕ)
      → delay_of (with_one_delay retry_attempts retry_delay_ms) a ≡ from_millis retry_delay_ms
  unfolding delay_of from_millis
  one_delay a = omega arith

  last_round :
      (a : ℕ) (r : Result H T) (rest : Option (Attempted E T)) (last_error : Option E)
      → suc a ≡ max 1 retry_attempts
      → after_send request retry_attempts retry_delay_ms a r rest
        ≡ some (
            after_attempt
              (with_one_delay retry_attempts retry_delay_ms)
              a
              (converted request.into_error r)
              (expected zero (suc a) (last_of (converted request.into_error r) last_error)))
  unfolding after_send after_attempt attempts_from last_of last_or converted
  last_round a (ok value) rest last_error sum = refl
  last_round a (err e) rest last_error sum =
      rw (le→leb retry_attempts (suc a) (omega arith), not_before a sum) refl
    where
      not_before : (a : ℕ) → suc a ≡ max 1 retry_attempts → ltb a (max 1 retry_attempts - 1) ≡ false
      not_before a sum = ground (arith, sum)

  next_round :
      (a left : ℕ) (r : Result H T) (rest : Option (Attempted E T)) (more : Attempted E T)
      → suc a + suc left ≡ max 1 retry_attempts
      → rest ≡ some more
      → after_send request retry_attempts retry_delay_ms a r rest
        ≡ some (
            after_attempt
              (with_one_delay retry_attempts retry_delay_ms)
              a
              (converted request.into_error r)
              more)
  unfolding after_send after_attempt converted
  next_round a left (ok value) rest more sum h = refl
  next_round a left (err e) rest more sum h =
      rw
        (
          lt→leb retry_attempts (suc a) (omega arith),
          lt→ltb a (max 1 retry_attempts - 1) (omega arith),
          h,
          one_delay a,
        )
        refl

  request_loop-attempts_from :
      (left fuel a : ℕ) (last_error : Option E)
      → request.can_clone ≡ true
      → left ≤ fuel
      → suc a + left ≡ max 1 retry_attempts
      → request_loop request retry_attempts retry_delay_ms (suc fuel) a
        ≡ some (expected (suc left) a last_error)
  unfolding request_loop attempts_from as_operation
  request_loop-attempts_from zero fuel a last_error clone enough sum =
      when_true request.can_clone _ _ clone
      ∙ last_round a (status_of request.error_for_status (request.send a)) _ last_error
          (omega arith)
  request_loop-attempts_from (suc left) zero a last_error clone enough sum = absurd (omega arith)
  request_loop-attempts_from (suc left) (suc fuel) a last_error clone enough sum =
      when_true request.can_clone _ _ clone
      ∙ next_round a left (status_of request.error_for_status (request.send a)) _ _ sum (
          request_loop-attempts_from left fuel (suc a) (last_of (as_operation request a) last_error)
            clone (omega arith) (omega arith))

  attempt_all-attempts_from :
      (n left : ℕ)
      → n ≡ suc left
      → attempt_all errors (as_operation request) (with_one_delay retry_attempts retry_delay_ms) n
        ≡ expected (suc left) 0 none
  unfolding attempt_all
  attempt_all-attempts_from zero left h = absurd (omega arith)
  attempt_all-attempts_from (suc n) left h = ap (λ m. expected (suc m) 0 none) (the_same n left h)
    where
      the_same : (n left : ℕ) → suc n ≡ suc left → n ≡ left
      the_same n left h = omega arith

  -- When the request can be cloned, the loop ends within max(1, retry_attempts) rounds, and its result,
  -- its calls and its pauses are those of retry_with_backoff with max(1, retry_attempts) attempts and
  -- the same delay of retry_delay_ms milliseconds after each of them but the last.
  pub make_http_request_with_retry_impl-retry_with_backoff :
      (fuel : ℕ)
      → request.can_clone ≡ true
      → max 1 retry_attempts ≤ fuel
      → make_http_request_with_retry_impl request retry_attempts retry_delay_ms fuel
        ≡ some (
            retry_with_backoff errors
              (as_operation request)
              (with_one_delay retry_attempts retry_delay_ms))
  unfolding make_http_request_with_retry_impl retry_with_backoff
  make_http_request_with_retry_impl-retry_with_backoff zero clone enough = absurd (omega arith)
  make_http_request_with_retry_impl-retry_with_backoff (suc fuel) clone enough =
      request_loop-attempts_from (max 1 retry_attempts - 1) fuel 0 none clone (omega arith)
        (omega arith)
      ∙ sym (
          ap some (
            attempt_all-attempts_from (max 1 retry_attempts) (max 1 retry_attempts - 1)
              (omega arith)))
