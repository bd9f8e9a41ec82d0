-- ===== src/Engine/Redfish/Classified.antt =====
-- Which errors of a power action the runner retries.
use chamicore.Prelude.{
  ◌≡◌, refl, Bool, false, not, ◌&&◌, ◌||◌, [], Option, none, some, arith, Result, ok, err,
}
use chamicore.Text.{Text, codes}
use chamicore.Text.Fold.{to_lower}
use chamicore.Dict.{Dict}
use chamicore.GoError.{GoError, wrapped, errors_is, as_retryable, as_net_error, error_text}
use chamicore.Engine.Errors.{is_context_error, is_retryable, is_retryable_error}
use chamicore.Engine.Types.{ExecutionRequest}
use chamicore.Engine.Redfish.{
  RedfishApi, RedfishExecutor, retryable_patterns, has_pattern, classify_execution_error,
  classified, reset_at, reset_with, resolve_path, execute_power_action,
}

-- An error that names one of the patterns, or could be retried without that.
abbrev pub names_pattern : GoError → Bool
names_pattern e = has_pattern (to_lower (error_text e)) retryable_patterns

abbrev pub may_retry : GoError → Bool
may_retry e = not (is_context_error e) && (names_pattern e || is_retryable_error e)

classify-retryable : (e : GoError) → is_retryable_error (classify_execution_error e) ≡ may_retry e
unfolding classify_execution_error is_retryable_error errors_is as_retryable
classify-retryable e = ground arith

-- Whether the runner tries again, by how far the action came: an error of the credentials only by
-- itself, the others also by their text.
abbrev pub retries_reset : Option GoError → Bool
retries_reset none = false
retries_reset (some x) = may_retry (wrapped (codes "issuing Redfish reset action: ") x [])

abbrev pub retries_at :
    {C : Type 0} → RedfishApi C → ExecutionRequest → C → Result GoError Text × Dict Text → Bool
retries_at api req cred (err x, cache) =
    may_retry (wrapped (codes "resolving Redfish system path: ") x [])
retries_at api req cred (ok path, cache) =
    retries_reset (api.reset_system req.endpoint path cred req.operation)

abbrev pub retries :
    {C : Type 0} → RedfishApi C → ExecutionRequest → Dict Text → Result GoError C → Bool
retries api req cache (err x) = is_retryable_error x
retries api req cache (ok cred) =
    retries_at api req cred (resolve_path api req.endpoint req.node_id cred cache)

classified-retries : (o : Option GoError) → is_retryable (classified o) ≡ retries_reset o
unfolding is_retryable
classified-retries none = refl
classified-retries (some x) =
    classify-retryable (wrapped (codes "issuing Redfish reset action: ") x [])

reset_at-retries :
    {C : Type 0} (api : RedfishApi C) (req : ExecutionRequest) (cred : C)
    (r : Result GoError Text × Dict Text)
    → is_retryable (reset_at api req cred r).0 ≡ retries_at api req cred r
unfolding is_retryable
reset_at-retries api req cred (err x, cache) =
    classify-retryable (wrapped (codes "resolving Redfish system path: ") x [])
reset_at-retries api req cred (ok path, cache) =
    classified-retries (api.reset_system req.endpoint path cred req.operation)

reset_with-retries :
    {C : Type 0} (api : RedfishApi C) (req : ExecutionRequest) (cache : Dict Text)
    (r : Result GoError C)
    → is_retryable (reset_with api req cache r).0 ≡ retries api req cache r
unfolding is_retryable is_retryable_error errors_is as_retryable as_net_error
reset_with-retries api req cache (err x) = refl
reset_with-retries api req cache (ok cred) =
    reset_at-retries api req cred (resolve_path api req.endpoint req.node_id cred cache)

-- The runner tries a power action again after an error of the credentials exactly where that error
-- may be retried by itself; after an error of the search for the system or of the reset itself exactly
-- where no cancellation and no deadline stands inside it and it may be retried by itself or its text,
-- in lower case, has one of the patterns; and never after an action that went well.
pub execute_power_action-retries :
    {C : Type 0} (e : RedfishExecutor C) (req : ExecutionRequest) (cache : Dict Text)
    → is_retryable (execute_power_action e req cache).0
      ≡ retries
          (e.client req.insecure_skip_verify)
          req
          cache
          (e.resolve_credential req.credential_id)
unfolding execute_power_action
execute_power_action-retries e req cache =
    reset_with-retries (e.client req.insecure_skip_verify) req cache
      (e.resolve_credential req.credential_id)
