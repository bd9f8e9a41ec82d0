-- ===== src/Engine/Redfish.antt =====
-- redfish_executor.go and noop.go: how a power action finds the Redfish system of a node, and which of
-- its errors may be retried. The Redfish client and the credentials are arguments.
pub mod Named
pub mod Paths
pub mod Cached
pub mod Classified
mod Tests
use chamicore.Prelude.{
  ℕ, Bool, true, false, ◌&&◌, ◌||◌, List, [], ◌∷◌, ◌++◌, Option, none, some, Result, ok, err,
  is_empty, not, ◌==◌, if◌then◌else◌,
}
use chamicore.Text.{Text, codes}
use chamicore.Text.Trim.{trim_space}
use chamicore.Text.Fold.{equal_fold_by, to_lower}
use chamicore.Text.Affix.{has_infix}
use chamicore.Text.Order.{sort_strings}
use chamicore.Text.Quote.{quoted}
use chamicore.Text.Split.{split_on}
use chamicore.Dict.{Dict, lookup, insert}
use chamicore.GoError.{GoError, message, prefixed, wrapped, retryable, error_text}
use chamicore.Engine.Errors.{is_context_error}
use chamicore.Engine.Types.{ResetOperation, ExecutionRequest}
use chamicore.Engine.Verify.{expected_final_power_state}

-- `RedfishAPI`, with the normalisation of endpoints of the same package, and with the case orbits of
-- Go's package unicode, of which `orbit` picks a representative for each code point.
pub record RedfishApi (Credential : Type 0) : Type 0 where
  pub orbit : ℕ → ℕ
  pub normalized : Text → Result GoError Text
  pub list_system_paths : Text → Credential → Result GoError (List Text)
  pub reset_system : Text → Text → Credential → ResetOperation → Option GoError
  pub get_system_power_state : Text → Text → Credential → Result GoError Text

abbrev pub last_of : List Text → Text
last_of [] = []
last_of (p ∷ []) = p
last_of (p ∷ q ∷ ps) = last_of (q ∷ ps)

-- `strings.TrimSuffix(s, "/")`.
unfoldable pub trim_slash : Text → Text
trim_slash [] = []
trim_slash (c ∷ []) = if c == b'/' then [] else c ∷ []
trim_slash (c ∷ d ∷ cs) = c ∷ trim_slash (d ∷ cs)

-- `systemIDFromPath`.
unfoldable pub system_id_from_path : Text → Text
unfolding trim_slash
system_id_from_path system_path =
    let trimmed = trim_slash (trim_space system_path) in
    if is_empty trimmed then [] else trim_space (last_of (split_on b'/' trimmed))

-- The first path whose system has the name of the node.
abbrev pub is_match : (ℕ → ℕ) → Text → Text → Bool
is_match orbit node path =
    not (is_empty path) && equal_fold_by orbit (system_id_from_path path) node

unfoldable pub first_match : (ℕ → ℕ) → Text → List Text → Option Text
unfolding system_id_from_path
first_match orbit node [] = none
first_match orbit node (path ∷ paths) =
    let rest = first_match orbit node paths in
    if is_match orbit node (trim_space path) then some (trim_space path) else rest

-- The paths that are not blank, trimmed.
unfoldable pub filled_paths : List Text → List Text
filled_paths [] = []
filled_paths (path ∷ paths) =
    let rest = filled_paths paths in
    if is_empty (trim_space path) then rest else trim_space path ∷ rest

abbrev pub first_of : List Text → Text
first_of [] = []
first_of (p ∷ ps) = p

abbrev pub or_smallest : Option Text → List Text → Text
or_smallest (some path) paths = path
or_smallest none paths = first_of (sort_strings (filled_paths paths))

-- `selectSystemPath`.
unfoldable pub select_system_path : (ℕ → ℕ) → List Text → Text → Text
unfolding first_match filled_paths
select_system_path orbit paths node_id =
    or_smallest
      (if is_empty (trim_space node_id) then none else first_match orbit (trim_space node_id) paths)
      paths

unfoldable pub cache_key : Text → Text → Text
cache_key endpoint node_id = trim_space endpoint ++ (codes "|" ++ trim_space node_id)

abbrev pub cached_path : Option Text → Option Text
cached_path none = none
cached_path (some path) = if is_empty (trim_space path) then none else some path

-- After a listing: the chosen path goes into the cache.
abbrev pub choose :
    (ℕ → ℕ)
    → Text
    → Text
    → Text
    → Dict Text
    → Result GoError (List Text)
    → Result GoError Text × Dict Text
choose orbit endpoint key node_id cache (err e) = (err e, cache)
choose orbit endpoint key node_id cache (ok []) = (
  err (message (codes "endpoint " ++ (quoted endpoint ++ codes " has no Redfish systems"))),
  cache,
)
choose orbit endpoint key node_id cache (ok (p ∷ ps)) =
    let chosen = select_system_path orbit (p ∷ ps) node_id in (ok chosen, insert key chosen cache)

abbrev pub or_list :
    {C : Type 0}
    → RedfishApi C
    → Text
    → Text
    → C
    → Dict Text
    → Option Text
    → Result GoError Text × Dict Text
or_list api endpoint node_id cred cache (some path) = (ok path, cache)
or_list api endpoint node_id cred cache none =
    choose api.orbit endpoint (cache_key endpoint node_id) node_id cache
      (api.list_system_paths endpoint cred)

abbrev pub at_endpoint :
    {C : Type 0}
    → RedfishApi C
    → Text
    → C
    → Dict Text
    → Result GoError Text
    → Result GoError Text × Dict Text
at_endpoint api node_id cred cache (err e) = (err e, cache)
at_endpoint api node_id cred cache (ok endpoint) =
    or_list api endpoint node_id cred cache
      (cached_path (lookup (cache_key endpoint node_id) cache))

-- `SystemPathResolver.Resolve`: the answer, and the cache after it.
unfoldable pub resolve_path :
    {C : Type 0} → RedfishApi C → Text → Text → C → Dict Text → Result GoError Text × Dict Text
unfolding select_system_path cache_key
resolve_path api endpoint node_id cred cache =
    at_endpoint api node_id cred cache (api.normalized endpoint)

abbrev pub retryable_patterns : List Text
retryable_patterns =
    codes "unexpected status 408"
    ∷ codes "unexpected status 429"
    ∷ codes "unexpected status 500"
    ∷ codes "unexpected status 502"
    ∷ codes "unexpected status 503"
    ∷ codes "unexpected status 504"
    ∷ codes "timeout"
    ∷ codes "temporary"
    ∷ codes "connection refused"
    ∷ codes "connection reset"
    ∷ codes "no such host"
    ∷ []

unfoldable pub has_pattern : Text → List Text → Bool
has_pattern lower [] = false
has_pattern lower (pattern ∷ patterns) = has_infix pattern lower || has_pattern lower patterns

-- `classifyExecutionError` of an error that is not nil.
unfoldable pub classify_execution_error : GoError → GoError
unfolding has_pattern
classify_execution_error e =
    if is_context_error e
    then e
    else if has_pattern (to_lower (error_text e)) retryable_patterns
    then retryable e
    else e

-- `RedfishExecutor` and `RedfishStateReader`: the client for each choice of the check of
-- certificates, and the credentials.
pub record RedfishExecutor (Credential : Type 0) : Type 0 where
  pub client : Bool → RedfishApi Credential
  pub resolve_credential : Text → Result GoError Credential

abbrev pub credential_error : Text → Text
credential_error id = codes "resolving credential " ++ (quoted id ++ codes ": ")

abbrev pub classified : Option GoError → Option GoError
classified none = none
classified (some e) =
    some (classify_execution_error (wrapped (codes "issuing Redfish reset action: ") e []))

abbrev pub reset_at :
    {C : Type 0}
    → RedfishApi C
    → ExecutionRequest
    → C
    → Result GoError Text × Dict Text
    → Option GoError × Dict Text
reset_at api req cred (err e, cache) = (
  some (classify_execution_error (wrapped (codes "resolving Redfish system path: ") e [])),
  cache,
)
reset_at api req cred (ok path, cache) =
    (classified (api.reset_system req.endpoint path cred req.operation), cache)

abbrev pub reset_with :
    {C : Type 0}
    → RedfishApi C
    → ExecutionRequest
    → Dict Text
    → Result GoError C
    → Option GoError × Dict Text
reset_with api req cache (err e) = (some (wrapped (credential_error req.credential_id) e []), cache)
reset_with api req cache (ok cred) =
    reset_at api req cred (resolve_path api req.endpoint req.node_id cred cache)

-- `RedfishExecutor.ExecutePowerAction`: its error, and the cache after it.
unfoldable pub execute_power_action :
    {C : Type 0} → RedfishExecutor C → ExecutionRequest → Dict Text → Option GoError × Dict Text
unfolding resolve_path classify_execution_error
execute_power_action e req cache =
    reset_with (e.client req.insecure_skip_verify) req cache
      (e.resolve_credential req.credential_id)

abbrev pub trimmed_state : Result GoError Text → Result GoError Text
trimmed_state (err e) = err (wrapped (codes "reading Redfish power state: ") e [])
trimmed_state (ok state) = ok (trim_space state)

abbrev pub read_at :
    {C : Type 0}
    → RedfishApi C
    → ExecutionRequest
    → C
    → Result GoError Text × Dict Text
    → Result GoError Text × Dict Text
read_at api req cred (err e, cache) =
    (err (wrapped (codes "resolving Redfish system path: ") e []), cache)
read_at api req cred (ok path, cache) =
    (trimmed_state (api.get_system_power_state req.endpoint path cred), cache)

abbrev pub read_with :
    {C : Type 0}
    → RedfishApi C
    → ExecutionRequest
    → Dict Text
    → Result GoError C
    → Result GoError Text × Dict Text
read_with api req cache (err e) = (err (wrapped (credential_error req.credential_id) e []), cache)
read_with api req cache (ok cred) =
    read_at api req cred (resolve_path api req.endpoint req.node_id cred cache)

-- `RedfishStateReader.ReadPowerState`.
unfoldable pub read_power_state :
    {C : Type 0}
    → RedfishExecutor C
    → ExecutionRequest
    → Dict Text
    → Result GoError Text × Dict Text
unfolding resolve_path
read_power_state e req cache =
    read_with (e.client req.insecure_skip_verify) req cache (e.resolve_credential req.credential_id)

-- `NoopExecutor` and `ExpectedStateReader`.
unfoldable pub execute_nothing : ExecutionRequest → Option GoError
execute_nothing req = none

unfoldable pub read_expected : (ResetOperation → Text) → ExecutionRequest → Result GoError Text
unfolding expected_final_power_state
read_expected name req = expected_final_power_state name req.operation
