-- ===== src/Retry/Tests.antt =====
-- Runs of src/services/ai/retry.rs.
use subx_core.Prelude.{ℕ, zero, suc, ◌≡◌, refl, true, [], ◌∷◌, some, Result, ok, err, arith}
use subx_core.Retry.{
  RetryConfig, RetryErrors, retry_with_backoff, Request, make_http_request_with_retry_impl,
}
use subx_core.Retry.Outcome.{RunsFrom, retry_with_backoff-RunsFrom}
use subx_core.Retry.Http.{
  as_operation, with_one_delay, make_http_request_with_retry_impl-retry_with_backoff,
}

abbrev errors : RetryErrors ℕ
errors = record { no_attempts = 900; no_error_state = 901 }

-- The third attempt succeeds.
abbrev third : ℕ → Result ℕ ℕ
third zero = err 500
third (suc zero) = err 501
third (suc (suc n)) = ok 7

abbrev doubling : RetryConfig
doubling = record {
  max_attempts = 3;
  backoff = λ n. elim n [ zero ↦ 1000 | suc m ↦ 2000 ];
  max_delay = 1500000000;
}

third_succeeds :
    retry_with_backoff errors third doubling
    ≡ record { result = ok 7; calls = 3; pauses = 1000000000 ∷ 1500000000 ∷ [] }
unfolding retry_with_backoff
third_succeeds = refl

retry_with_backoff-RunsFrom_example :
    RunsFrom errors third doubling 0 (retry_with_backoff errors third doubling)
retry_with_backoff-RunsFrom_example =
    retry_with_backoff-RunsFrom errors third doubling (omega arith)

abbrev request : Request ℕ ℕ ℕ
request = record {
  can_clone = true;
  send = third;
  error_for_status = λ resp. ok resp;
  into_error = λ e. e;
  not_cloneable = 902;
}

-- No attempts still make one request.
no_attempts_one_request :
    make_http_request_with_retry_impl request 0 100 1
    ≡ some (record { result = err 500; calls = 1; pauses = [] })
unfolding make_http_request_with_retry_impl
no_attempts_one_request = refl

make_http_request_with_retry_impl-retry_with_backoff_example :
    make_http_request_with_retry_impl request 5 100 9
    ≡ some (retry_with_backoff errors (as_operation request) (with_one_delay 5 100))
make_http_request_with_retry_impl-retry_with_backoff_example =
    make_http_request_with_retry_impl-retry_with_backoff errors request 5 100 9 refl (omega arith)
