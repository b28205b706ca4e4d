-- ===== src/Retry.antt =====
-- src/services/ai/retry.rs: the attempts of an operation with growing pauses, and of an HTTP request.
-- An operation is a function of the number of the attempt, a pause is in nanoseconds. Floating point,
-- the cloning of a request and the sending of it are not of the repository and are parameters.
pub mod Outcome
pub mod Http
mod Tests
use subx_core.Prelude.{
  ℕ, zero, suc, ◌+◌, ◌-◌, ◌*◌, ◌^◌, min, Bool, List, [], ◌∷◌, Option, none, some, ltb, leb,
  if◌then◌else◌, Result, ok, err,
}

-- `backoff n` stands for `(base_delay * backoff_multiplier ^ n) as u64`, in milliseconds.
pub record RetryConfig : Type 0 where
  pub max_attempts : ℕ
  pub backoff : ℕ → ℕ
  pub max_delay : ℕ

-- The result, the number of calls, and the pauses between them.
pub record Attempted {ℓ} (E : Type 0) (T : Type ℓ) : Type ℓ where
  pub result : Result E T
  pub calls : ℕ
  pub pauses : List ℕ

unfoldable pub from_millis : ℕ → ℕ
from_millis millis = millis * 1000000

unfoldable pub delay_of : RetryConfig → ℕ → ℕ
unfolding from_millis
delay_of config attempt = min (from_millis (config.backoff attempt)) config.max_delay

unfoldable pub paused {ℓ} : {E : Type 0} {T : Type ℓ} → ℕ → Attempted E T → Attempted E T
paused delay rest = record rest { pauses = delay ∷ rest.pauses }

-- The two errors that the function makes itself.
pub record RetryErrors (E : Type 0) : Type 0 where
  pub no_attempts : E
  pub no_error_state : E

unfoldable pub last_or : {E : Type 0} → E → Option E → E
last_or default none = default
last_or default (some e) = e

-- What one attempt makes of the rest of the loop.
unfoldable pub after_attempt {ℓ} :
    {E : Type 0} {T : Type ℓ} → RetryConfig → ℕ → Result E T → Attempted E T → Attempted E T
unfolding delay_of paused
after_attempt config attempt (ok value) rest = record {
  result = ok value;
  calls = suc attempt;
  pauses = [];
}
after_attempt config attempt (err e) rest =
    if ltb attempt (config.max_attempts - 1) then paused (delay_of config attempt) rest else rest

unfoldable pub last_of {ℓ} : {E : Type 0} {T : Type ℓ} → Result E T → Option E → Option E
last_of (ok value) last_error = last_error
last_of (err e) last_error = some e

module _ {ℓ} {E : Type 0} {T : Type ℓ} (errors : RetryErrors E) (operation : ℕ → Result E T)
    (config : RetryConfig) where
  -- The attempts from a number on, as many as are left.
  unfoldable pub attempts_from : ℕ → ℕ → Option E → Attempted E T
  unfolding after_attempt last_or last_of
  attempts_from zero attempt last_error = record {
    result = err (last_or errors.no_error_state last_error);
    calls = attempt;
    pauses = [];
  }
  attempts_from (suc left) attempt last_error =
      after_attempt config attempt (operation attempt)
        (attempts_from left (suc attempt) (last_of (operation attempt) last_error))

  unfoldable pub attempt_all : ℕ → Attempted E T
  unfolding attempts_from
  attempt_all zero = record { result = err errors.no_attempts; calls = 0; pauses = [] }
  attempt_all (suc left) = attempts_from (suc left) 0 none

  unfoldable pub retry_with_backoff : Attempted E T
  unfolding attempt_all
  retry_with_backoff = attempt_all config.max_attempts

-- An HTTP request: whether its body can be cloned, what the n-th sending of it answers, the test of
-- the status, and the conversion of the client's error.
pub record Request {ℓ} (H E : Type 0) (T : Type ℓ) : Type ℓ where
  pub can_clone : Bool
  pub send : ℕ → Result H T
  pub error_for_status : T → Result H T
  pub into_error : H → E
  pub not_cloneable : E

unfoldable pub status_of {ℓ} :
    {H : Type 0} {T : Type ℓ} → (T → Result H T) → Result H T → Result H T
status_of error_for_status (ok resp) = error_for_status resp
status_of error_for_status (err e) = err e

module _ {ℓ} {H E : Type 0} {T : Type ℓ} (request : Request H E T)
    (retry_attempts retry_delay_ms : ℕ) where
  -- One round of the loop: the end of it, or a pause and the rest, which has no end when the fuel is out.
  unfoldable pub after_send : ℕ → Result H T → Option (Attempted E T) → Option (Attempted E T)
  unfolding paused from_millis
  after_send attempts (ok success) rest =
      some (record { result = ok success; calls = suc attempts; pauses = [] })
  after_send attempts (err e) rest =
      if leb retry_attempts (suc attempts)
      then some (record { result = err (request.into_error e); calls = suc attempts; pauses = [] })
      else elim rest [ none ↦ none | some more ↦ some (paused (from_millis retry_delay_ms) more) ]

  unfoldable pub request_loop : ℕ → ℕ → Option (Attempted E T)
  unfolding after_send status_of
  request_loop zero attempts = none
  request_loop (suc fuel) attempts =
      if request.can_clone
      then after_send attempts (status_of request.error_for_status (request.send attempts))
          (request_loop fuel (suc attempts))
      else some (record { result = err request.not_cloneable; calls = attempts; pauses = [] })

  unfoldable pub make_http_request_with_retry_impl : ℕ → Option (Attempted E T)
  unfolding request_loop
  make_http_request_with_retry_impl fuel = request_loop fuel 0
