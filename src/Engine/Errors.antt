-- ===== src/Engine/Errors.antt =====
-- The retry classification of runner.go: `RetryableError`, `MarkRetryable` and `IsRetryable`.
use chamicore.Prelude.{◌≡◌, Bool, true, false, ◌||◌, Option, none, some, arith, if◌then◌else◌, ◌↔◌}
use chamicore.GoError.{
  GoError, retryable, canceled, deadline_exceeded, errors_is, as_retryable, as_net_error,
}

-- `MarkRetryable`; `none` is the nil error.
unfoldable pub mark_retryable : Option GoError → Option GoError
mark_retryable none = none
mark_retryable (some e) = some (retryable e)

-- A deadline or a cancellation that reached the error.
abbrev pub is_context_error : GoError → Bool
is_context_error e = errors_is e canceled || errors_is e deadline_exceeded

abbrev timed_out : Option Bool → Bool
timed_out none = false
timed_out (some timeout) = timeout

-- `IsRetryable` of an error that is not nil.
unfoldable pub is_retryable_error : GoError → Bool
is_retryable_error e =
    if is_context_error e
    then false
    else if as_retryable e
    then true
    else timed_out (as_net_error e)

-- `IsRetryable`.
unfoldable pub is_retryable : Option GoError → Bool
unfolding is_retryable_error
is_retryable none = false
is_retryable (some e) = is_retryable_error e

-- Marking an error makes it retryable exactly when no cancellation or deadline stands inside it.
pub is_retryable-mark_retryable :
    (e : GoError) → (is_retryable (mark_retryable (some e)) ≡ true) ↔ (is_context_error e ≡ false)
unfolding is_retryable mark_retryable errors_is as_retryable
is_retryable-mark_retryable e = ground arith
