-- ===== src/Server/Transitions.antt =====
-- handlers_transitions.go: the handlers that show and abort transitions. The runner, the store and what
-- the request holds are arguments; the store answers as it stands when it is asked. A time is a number.
pub mod Starting
pub mod Started
use chamicore.Prelude.{
  ℕ, Bool, true, false, ◌||◌, List, [], ◌∷◌, ◌++◌, Option, none, some, map, Result, ok, err,
  and_then, length, is_empty, if◌then◌else◌,
}
use chamicore.Prelude.Int.{ℤ, pos, ltb_ℤ}
use chamicore.Text.{Text, codes}
use chamicore.Text.Trim.{trim_space}
use chamicore.Text.Quote.{quoted}
use chamicore.GoError.{
  GoError, errors_is, error_text, no_target_nodes, runner_not_started, transition_not_found,
  not_found, group_not_found, group_resolver_unavailable,
}
use chamicore.Engine.Types.{
  Transition, Task, TransitionState, TaskState, StartRequest, ResetOperation,
}
use chamicore.Server.Targets.{resolve_targets, target_error_status}
use chamicore.Server.Pagination.{parse_list_pagination}

pub record TransitionStore : Type 0 where
  pub read_page : ℤ → ℤ → Result GoError (List Transition × ℕ)
  pub read_transition : Text → Result GoError Transition
  pub read_tasks : Text → Result GoError (List Task)

pub record TransitionRunner : Type 0 where
  pub start : StartRequest → Result GoError Transition
  pub abort : Text → Option GoError

pub record PowerServer : Type 0 where
  pub transition_store : Option TransitionStore
  pub transition_runner : Option TransitionRunner
  pub resolve_group_members : Option (Text → Result GoError (List Text))
  pub bulk_max_nodes : ℤ
  pub parse_operation : Text → Result GoError ResetOperation
  pub name : ResetOperation → Text

pub record TransitionTaskSpec : Type 0 where
  pub node_id : Text
  pub bmc_id : Text
  pub endpoint : Text
  pub operation : Text
  pub state : TaskState
  pub dry_run : Bool
  pub attempt_count : ℕ
  pub final_power_state : Text
  pub error_detail : Text
  pub queued_at : ℕ
  pub started_at : Option ℕ
  pub completed_at : Option ℕ

-- `httputil.Resource[transitionSpec]`; of the metadata, what varies.
pub record TransitionResource : Type 0 where
  pub id : Text
  pub created_at : ℕ
  pub updated_at : ℕ
  pub request_id : Text
  pub operation : Text
  pub state : TransitionState
  pub requested_by : Text
  pub dry_run : Bool
  pub target_count : ℕ
  pub success_count : ℕ
  pub failure_count : ℕ
  pub queued_at : ℕ
  pub started_at : Option ℕ
  pub completed_at : Option ℕ
  pub tasks : List TransitionTaskSpec

abbrev task_spec : Task → TransitionTaskSpec
task_spec t = record {
  node_id = trim_space t.node_id;
  bmc_id = trim_space t.bmc_id;
  endpoint = trim_space t.bmc_endpoint;
  operation = trim_space t.operation;
  state = t.state;
  dry_run = t.dry_run;
  attempt_count = t.attempt_count;
  final_power_state = trim_space t.final_power_state;
  error_detail = trim_space t.error_detail;
  queued_at = t.queued_at;
  started_at = t.started_at;
  completed_at = t.completed_at;
}

unfoldable pub to_transition_resource : Transition → List Task → TransitionResource
to_transition_resource t tasks = record {
  id = trim_space t.id;
  created_at = t.created_at;
  updated_at = t.updated_at;
  request_id = trim_space t.request_id;
  operation = trim_space t.operation;
  state = t.state;
  requested_by = trim_space t.requested_by;
  dry_run = t.dry_run;
  target_count = t.target_count;
  success_count = t.success_count;
  failure_count = t.failure_count;
  queued_at = t.queued_at;
  started_at = t.started_at;
  completed_at = t.completed_at;
  tasks = map task_spec tasks;
}

-- The detail of a problem: a text, or the two numbers of the limit on targets.
pub data Detail : Type 0 where
  says : Text → Detail
  too_many : (got : ℕ) (max : ℤ) → Detail

pub data Answer : Type 0 where
  problem : (status : ℕ) → Detail → Answer
  resource : (status : ℕ) → TransitionResource → Answer
  listing : (total : ℕ) (limit offset : ℤ) → List TransitionResource → Answer

abbrev pub unavailable : Answer
unavailable = problem 503 (says (codes "transition subsystem is not configured"))

-- `respondTargetResolutionError`; the detail of an error of a sentinel is the sentinel's.
unfoldable pub target_error : GoError → Answer
unfolding target_error_status
target_error e =
    let status = target_error_status e in
    problem status (
      says (
        if errors_is e no_target_nodes
        then codes "at least one node is required"
        else if errors_is e group_resolver_unavailable
        then codes "group resolver is not configured"
        else if errors_is e group_not_found
        then error_text e
        else codes "failed resolving targets: " ++ error_text e))

abbrev list_page : ℤ × ℤ → Result GoError (List Transition × ℕ) → Answer
list_page page (err e) = problem 500 (says (codes "failed to list transitions"))
list_page (limit, offset) (ok (items, total)) =
    listing total limit offset (map (λ t. to_transition_resource t []) items)

abbrev list_with : TransitionStore → Result GoError (ℤ × ℤ) → Answer
list_with store (err e) = problem 400 (says (error_text e))
list_with store (ok (limit, offset)) = list_page (limit, offset) (store.read_page limit offset)

-- `handleListTransitions`, given the two values of the query.
unfoldable pub handle_list_transitions : PowerServer → (Text → Option ℤ) → Text → Text → Answer
unfolding to_transition_resource parse_list_pagination
handle_list_transitions s atoi limit offset = elim s.transition_store [
  | none ↦ unavailable
  | some store ↦ list_with store (parse_list_pagination atoi limit offset)
]

-- `loadTransition`.
unfoldable pub load_transition : TransitionStore → Text → Result GoError (Transition × List Task)
load_transition store id =
    and_then (store.read_transition id)
      (λ t. and_then (store.read_tasks id) (λ tasks. ok (t, tasks)))

abbrev pub loaded : ℕ → Text → Result GoError (Transition × List Task) → Answer
loaded status id (ok (t, tasks)) = resource status (to_transition_resource t tasks)
loaded status id (err e) =
    if errors_is e not_found
    then problem 404 (says (codes "transition " ++ (quoted id ++ codes " not found")))
    else problem 500 (says (codes "failed to load transition"))

abbrev id_required : Answer
id_required = problem 400 (says (codes "transition id is required"))

-- `handleGetTransition`, given the parameter of the path.
unfoldable pub handle_get_transition : PowerServer → Text → Answer
unfolding load_transition to_transition_resource
handle_get_transition s param = elim s.transition_store [
  | none ↦ unavailable
  | some store ↦
      let id = trim_space param in
      if is_empty id then id_required else loaded 200 id (load_transition store id)
]

-- Whether an abort went wrong; there being no such running transition is no fault.
abbrev pub abort_failed : Option GoError → Bool
abort_failed none = false
abort_failed (some e) = if errors_is e transition_not_found then false else true

abbrev pub delete_with : Option TransitionRunner → Option TransitionStore → Text → Answer
delete_with none store id = unavailable
delete_with (some runner) none id = unavailable
delete_with (some runner) (some store) id =
    if is_empty id
    then id_required
    else if abort_failed (runner.abort id)
    then problem 500 (says (codes "failed to abort transition"))
    else loaded 202 id (load_transition store id)

unfoldable pub handle_delete_transition : PowerServer → Text → Answer
unfolding load_transition to_transition_resource
handle_delete_transition s param =
    delete_with s.transition_runner s.transition_store (trim_space param)

-- What comes of a request in front of a handler: it goes on, it is refused, or the index is out of range.
pub data Passage : Type 0 where
  passes panics : Passage
  refused : Answer → Passage

unfoldable pub has_any : (Text → Bool) → List Text → Bool
has_any has_scope [] = false
has_any has_scope (scope ∷ scopes) = has_scope scope || has_any has_scope scopes

abbrev pub refused_first : List Text → Passage
refused_first [] = panics
refused_first (scope ∷ scopes) =
    refused (problem 403 (says (codes "missing required scope: " ++ scope)))

-- `requireAnyScope`, given the scopes of the claims, if there are claims.
unfoldable pub require_any_scope : List Text → Option (Text → Bool) → Passage
unfolding has_any
require_any_scope scopes none = refused (problem 403 (says (codes "no claims in context")))
require_any_scope scopes (some has_scope) =
    if has_any has_scope scopes then passes else refused_first scopes
