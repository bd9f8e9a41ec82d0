-- ===== src/Server/Status.antt =====
-- handlers_status.go: the power status of nodes. A time is a number.
pub mod Asked
pub mod Recent
pub mod Shown
use chamicore.Prelude.{
  ℕ, Bool, true, false, List, [], ◌∷◌, ◌++◌, Option, none, some, Result, ok, err, length, is_empty,
  if◌then◌else◌,
}
use chamicore.Prelude.Int.{pos, ltb_ℤ}
use chamicore.Text.{Text, codes}
use chamicore.Text.Trim.{trim_space}
use chamicore.Dict.{Dict, lookup, insert}
use chamicore.GoError.{GoError}
use chamicore.Model.{NodePowerMapping, NodeMappingError}
use chamicore.Engine.Types.{
  Task, TaskState, ResetOperation, on, graceful_restart, force_restart, nmi, force_off,
  graceful_shutdown, other,
}
use chamicore.Server.Targets.{parse_target_list, resolve_targets}
use chamicore.Server.Transitions.{
  PowerServer, Detail, says, too_many, Answer, problem, unavailable, target_error,
}

-- The state of a node: a problem of its mapping, no task at all, or that of its latest task.
pub data NodeState : Type 0 where
  unresolved unknown : NodeState
  of_task : TaskState → NodeState

pub record PowerNodeStatus : Type 0 where
  pub node_id : Text
  pub bmc_id : Text
  pub transition_id : Text
  pub operation : Text
  pub state : NodeState
  pub power_state : Text
  pub error_detail : Text
  pub last_updated_at : Option ℕ
  pub last_completed_at : Option ℕ

abbrev pub bare_status : Text → NodeState → Text → PowerNodeStatus
bare_status node_id state error_detail = record {
  node_id = node_id;
  bmc_id = [];
  transition_id = [];
  operation = [];
  state = state;
  power_state = [];
  error_detail = error_detail;
  last_updated_at = none;
  last_completed_at = none;
}

abbrev inferred : Result GoError ResetOperation → Text
inferred (err e) = []
inferred (ok on) = codes "On"
inferred (ok graceful_restart) = codes "On"
inferred (ok force_restart) = codes "On"
inferred (ok nmi) = codes "On"
inferred (ok force_off) = codes "Off"
inferred (ok graceful_shutdown) = codes "Off"
inferred (ok (other name)) = []

unfoldable pub inferred_power_state : (Text → Result GoError ResetOperation) → Text → Text
inferred_power_state parse operation = inferred (parse operation)

-- The maps `missingByNode` and `taskByNode`, as the loops fill them.
unfoldable pub missing_details : Dict Text → List NodeMappingError → Dict Text
missing_details m [] = m
missing_details m (e ∷ es) =
    missing_details (insert (trim_space e.node_id) (trim_space e.detail) m) es

unfoldable pub task_by_node : Dict Task → List Task → Dict Task
task_by_node m [] = m
task_by_node m (t ∷ ts) =
    if is_empty (trim_space t.node_id)
    then task_by_node m ts
    else task_by_node (insert (trim_space t.node_id) t m) ts

abbrev pub task_status :
    (Text → Result GoError ResetOperation) → Text → Option Task → PowerNodeStatus
task_status parse node none = bare_status node unknown (codes "no transition history for node")
task_status parse node (some t) = record {
  node_id = node;
  bmc_id = trim_space t.bmc_id;
  transition_id = trim_space t.transition_id;
  operation = trim_space t.operation;
  state = of_task t.state;
  power_state =
      if is_empty (trim_space t.final_power_state)
      then inferred_power_state parse t.operation
      else trim_space t.final_power_state;
  error_detail = trim_space t.error_detail;
  last_updated_at = some t.updated_at;
  last_completed_at = t.completed_at;
}

abbrev pub status_with :
    (Text → Result GoError ResetOperation) → Text → Option Text → Option Task → PowerNodeStatus
status_with parse node (some detail) task = bare_status node unresolved detail
status_with parse node none task = task_status parse node task

-- The last loop.
unfoldable pub statuses :
    (Text → Result GoError ResetOperation)
    → Dict Text
    → Dict Task
    → List Text
    → List PowerNodeStatus
unfolding inferred_power_state
statuses parse missing tasks [] = []
statuses parse missing tasks (node ∷ nodes) =
    status_with parse node (lookup node missing) (lookup node tasks)
    ∷ statuses parse missing tasks nodes

-- What the stores answer.
pub record StatusStore : Type 0 where
  pub latest : List Text → Result GoError (List Task)
  pub resolve : List Text → Result GoError (List NodePowerMapping × List NodeMappingError)

-- `parseQueryTargets`, given the values under its keys.
abbrev pub parse_query_targets : List Text → List Text → List Text
parse_query_targets plural singular = parse_target_list (plural ++ singular)

abbrev pub status_failed : Text → Result Answer (List PowerNodeStatus)
status_failed detail = err (problem 500 (says detail))

abbrev pub with_mappings :
    PowerServer
    → List Text
    → List Task
    → Result GoError (List NodePowerMapping × List NodeMappingError)
    → Result Answer (List PowerNodeStatus)
with_mappings s nodes latest (err e) = status_failed (codes "failed to resolve topology mapping")
with_mappings s nodes latest (ok (resolved, missing)) =
    ok (statuses s.parse_operation (missing_details [] missing) (task_by_node [] latest) nodes)

abbrev pub with_latest :
    PowerServer
    → StatusStore
    → List Text
    → Result GoError (List Task)
    → Result Answer (List PowerNodeStatus)
with_latest s store nodes (err e) = status_failed (codes "failed to resolve power status")
with_latest s store nodes (ok latest) = with_mappings s nodes latest (store.resolve nodes)

abbrev pub status_unless :
    Bool → Answer → Result Answer (List PowerNodeStatus) → Result Answer (List PowerNodeStatus)
status_unless true refusal goes_on = err refusal
status_unless false refusal goes_on = goes_on

abbrev pub with_targets :
    PowerServer → StatusStore → Result GoError (List Text) → Result Answer (List PowerNodeStatus)
with_targets s store (err e) = err (target_error e)
with_targets s store (ok nodes) =
    status_unless (ltb_ℤ s.bulk_max_nodes (pos (length nodes)))
      (problem 400 (too_many (length nodes) s.bulk_max_nodes))
      (with_latest s store nodes (store.latest nodes))

-- `handleGetPowerStatus`, given the targets of the query: the statuses of a response, or a problem.
unfoldable pub handle_get_power_status :
    PowerServer → Option StatusStore → List Text → List Text → Result Answer (List PowerNodeStatus)
unfolding statuses missing_details task_by_node resolve_targets target_error
handle_get_power_status s none nodes groups = err unavailable
handle_get_power_status s (some store) nodes groups =
    with_targets s store (resolve_targets s.resolve_group_members nodes groups)
