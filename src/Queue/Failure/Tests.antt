-- ===== src/Queue/Failure/Tests.antt =====
-- Runs of isRetryableError.
use ncore.Common.{◌≡◌, refl, some, [], ◌∷◌, true, false, ◌↔◌}
use ncore.Queue.Failure.Retried.{IsRetried, is_retryable_error_iff}
use ncore.Queue.Failure.{
  unnamed, task_timeout, no_methods, has_temporary, Failure, is_any_retryable, as_retryable,
  as_net_error, by_message, is_retryable_error,
}

abbrev refused : Failure
refused = record {
  chain = record { value = unnamed; methods = no_methods } ∷ [];
  message = "dial: connection refused";
}

abbrev wrapped_timeout : Failure
wrapped_timeout = record {
  chain =
      record { value = unnamed; methods = has_temporary false }
      ∷ record { value = task_timeout; methods = no_methods }
      ∷ [];
  message = "step 3";
}

retried :
    (is_retryable_error (some refused) ≡ true) × (is_retryable_error (some wrapped_timeout) ≡ true)
unfolding is_retryable_error is_any_retryable as_retryable as_net_error by_message
retried = (refl, refl)

is_retryable_error_iff_example :
    (is_retryable_error (some wrapped_timeout) ≡ true) ↔ IsRetried wrapped_timeout
is_retryable_error_iff_example = is_retryable_error_iff wrapped_timeout
