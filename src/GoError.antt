-- ===== src/GoError.antt =====
-- Go's `error` values as the services build them: sentinels, messages, `%w` wrapping, and the two
-- wrapper types that `errors.As` looks for. `errors.Is` and `errors.As` walk the chain.
use chamicore.Prelude.{Bool, true, false, ◌≡◌, arith, [], ◌++◌, Option, none, some, Result, ok, err}
use chamicore.Text.{Text, codes}

pub data Sentinel : Type 0 where
  canceled : Sentinel
  deadline_exceeded : Sentinel
  runner_not_started : Sentinel
  no_target_nodes : Sentinel
  transition_not_found : Sentinel
  queue_closed : Sentinel
  unsupported_operation : Sentinel
  verification_timeout : Sentinel
  group_not_found : Sentinel
  group_resolver_unavailable : Sentinel
  not_found : Sentinel

-- `wrapped before e after` is `fmt.Errorf("before%wafter", e)`. `net_error` is a value with a
-- `Timeout()` method, its text and the error inside; `retryable` is `*RetryableError`.
pub data GoError : Type 0 where
  sentinel : Sentinel → GoError
  message : Text → GoError
  wrapped : Text → GoError → Text → GoError
  retryable : GoError → GoError
  retryable_nil : GoError
  net_error : (timeout : Bool) → Text → GoError → GoError

unfoldable pub same_sentinel : Sentinel → Sentinel → Bool
same_sentinel canceled canceled = true
same_sentinel deadline_exceeded deadline_exceeded = true
same_sentinel runner_not_started runner_not_started = true
same_sentinel no_target_nodes no_target_nodes = true
same_sentinel transition_not_found transition_not_found = true
same_sentinel queue_closed queue_closed = true
same_sentinel unsupported_operation unsupported_operation = true
same_sentinel verification_timeout verification_timeout = true
same_sentinel group_not_found group_not_found = true
same_sentinel group_resolver_unavailable group_resolver_unavailable = true
same_sentinel not_found not_found = true
same_sentinel _ _ = false

-- `errors.Is(err, target)` for a sentinel.
unfoldable pub errors_is : GoError → Sentinel → Bool
unfolding same_sentinel
errors_is (sentinel s) target = same_sentinel s target
errors_is (message m) target = false
errors_is (wrapped m e n) target = errors_is e target
errors_is (retryable e) target = errors_is e target
errors_is retryable_nil target = false
errors_is (net_error t m e) target = errors_is e target

-- `errors.As(err, &retryable)`.
unfoldable pub as_retryable : GoError → Bool
as_retryable (sentinel s) = false
as_retryable (message m) = false
as_retryable (wrapped m e n) = as_retryable e
as_retryable (retryable e) = true
as_retryable retryable_nil = true
as_retryable (net_error t m e) = as_retryable e

-- `errors.As(err, &netErr)` and `netErr.Timeout()`: the outermost one counts. The deadline error of
-- `context` is a `net.Error` too.
unfoldable pub as_net_error : GoError → Option Bool
as_net_error (sentinel deadline_exceeded) = some true
as_net_error (sentinel _) = none
as_net_error (message m) = none
as_net_error (wrapped m e n) = as_net_error e
as_net_error (retryable e) = as_net_error e
as_net_error retryable_nil = none
as_net_error (net_error t m e) = some t

unfoldable pub sentinel_text : Sentinel → Text
sentinel_text canceled = codes "context canceled"
sentinel_text deadline_exceeded = codes "context deadline exceeded"
sentinel_text runner_not_started = codes "runner not started"
sentinel_text no_target_nodes = codes "at least one node is required"
sentinel_text transition_not_found = codes "transition not found"
sentinel_text queue_closed = codes "engine queue closed"
sentinel_text unsupported_operation = codes "unsupported operation"
sentinel_text verification_timeout = codes "verification timed out"
sentinel_text group_not_found = codes "group not found"
sentinel_text group_resolver_unavailable = codes "group resolver is not configured"
sentinel_text not_found = codes "not found"

-- `err.Error()`.
unfoldable pub error_text : GoError → Text
unfolding sentinel_text
error_text (sentinel s) = sentinel_text s
error_text (message m) = m
error_text (wrapped before e after) = before ++ (error_text e ++ after)
error_text (retryable e) = error_text e
error_text retryable_nil = codes "retryable error"
error_text (net_error t m e) = m

-- `if err != nil { return ..., fmt.Errorf("before%w", err) }`.
abbrev pub prefixed {ℓ} : {A : Type ℓ} → Text → Result GoError A → Result GoError A
prefixed before (err e) = err (wrapped before e [])
prefixed before (ok a) = ok a

pub prefixed-ok {ℓ} :
    {A : Type ℓ} (before : Text) (r : Result GoError A) {a : A}
    → prefixed before r ≡ ok a
    → r ≡ ok a
prefixed-ok before (ok b) h = h
prefixed-ok before (err e) h = absurd (ground (arith, h))
