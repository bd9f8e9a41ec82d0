-- ===== src/Server/Tests.antt =====
-- Requests of the transition handlers on concrete inputs.
use chamicore.Prelude.{
  ◌≡◌, refl, true, false, List, [], ◌∷◌, Option, none, some, Result, ok, err, if◌then◌else◌,
}
use chamicore.Prelude.Int.{ℤ, pos}
use chamicore.Text.{Text, codes, ◌=ₛ◌}
use chamicore.Text.Trim.{trim_space, trim_left, trim_right, is_space}
use chamicore.Text.Split.{split_on}
use chamicore.Text.Order.{sort_strings, insert_sorted, ◌<ₛ◌}
use chamicore.Text.Unique.{contains, add_unique}
use chamicore.GoError.{GoError, sentinel, group_not_found}
use chamicore.Server.Targets.{resolve_targets}
use chamicore.Server.Pagination.{parse_list_pagination}
use chamicore.Dict.{lookup, insert}
use chamicore.GoError.{message}
use chamicore.Model.{NodePowerMapping, NodeMappingError, mapping_not_found}
use chamicore.Engine.Types.{Task, TaskState, StartRequest, ResetOperation, force_off}
use chamicore.Store.Mappings.Query.{query_nodes}
use chamicore.Text.Unique.{normalized_unique, collect_unique}
use chamicore.Store.Transitions.{TransitionTables, TransitionSession}
use chamicore.Store.Transitions.Query.{
  latest_tasks, latest_task, list_latest_transition_tasks_by_node,
}
use chamicore.Server.Transitions.{PowerServer, TransitionRunner}
use chamicore.Server.Transitions.Starting.{
  TransitionRequest, serve_start, resolved_request_id, requested_by_from_context, handle_action_off,
  handle_action,
}
use chamicore.Server.Transitions.Started.{IsAsked, serve_start-IsAsked}
use chamicore.Server.Status.{
  PowerNodeStatus, bare_status, unknown, unresolved, of_task, handle_get_power_status, statuses,
  task_by_node, missing_details, inferred_power_state,
}
use chamicore.Server.Status.Shown.{status_store, IsShown, handle_get_power_status-IsShown}

-- Knows one group.
abbrev rack : Text → Result GoError (List Text)
rack name =
    if name =ₛ codes "r1" then ok (codes "n2" ∷ codes "n1" ∷ []) else err (sentinel group_not_found)

abbrev asked_nodes : List Text
asked_nodes = codes "n3, n1," ∷ []

abbrev asked_groups : List Text
asked_groups = codes " r1 " ∷ []

abbrev expected : List Text
expected = codes "n1" ∷ codes "n2" ∷ codes "n3" ∷ []

resolved_run : resolve_targets (some rack) asked_nodes asked_groups ≡ ok expected
unfolding resolve_targets trim_space trim_left trim_right is_space split_on sort_strings
    insert_sorted contains add_unique ◌=ₛ◌ ◌<ₛ◌
resolved_run = refl

-- Reads every text as a great number.
abbrev atoi_great : Text → Option ℤ
atoi_great value = some (pos 5000)

page_run : parse_list_pagination atoi_great (codes "5000") [] ≡ ok (pos 1000, pos 0)
unfolding parse_list_pagination trim_space trim_left trim_right is_space
page_run = refl

abbrev parse_operation : Text → Result GoError ResetOperation
parse_operation name =
    if name =ₛ codes "ForceOff" then ok force_off else err (message (codes "no such operation"))

-- Starts nothing.
abbrev idle_runner : TransitionRunner
idle_runner = record { start = λ request. err (sentinel group_not_found); abort = λ id. none }

abbrev power_server : PowerServer
power_server = record {
  transition_store = none;
  transition_runner = some idle_runner;
  resolve_group_members = some rack;
  bulk_max_nodes = pos 3;
  parse_operation = parse_operation;
  name = λ operation. codes "ForceOff";
}

abbrev off_request : TransitionRequest
off_request = record {
  request_id = [];
  operation = codes "ForceOff";
  nodes = asked_nodes;
  groups = asked_groups;
  dry_run = true;
  header_request_id = codes " req-1";
  claims_subject = none;
}

abbrev off_start : StartRequest
off_start = record {
  request_id = codes "req-1";
  requested_by = codes "unknown";
  operation = codes "ForceOff";
  node_ids = expected;
  dry_run = true;
}

off_run : (serve_start power_server off_request).asked ≡ some off_start
unfolding serve_start resolve_targets resolved_request_id requested_by_from_context trim_space
    trim_left trim_right is_space split_on sort_strings insert_sorted contains add_unique ◌=ₛ◌ ◌<ₛ◌
off_run = refl

serve_start-IsAsked_example : IsAsked power_server off_request off_start
serve_start-IsAsked_example = serve_start-IsAsked power_server off_request off_start off_run

-- The handler of the action sets the operation by itself.
action_run :
    (handle_action_off power_server (ok (record off_request { operation = codes "On" }))).asked
    ≡ some off_start
unfolding handle_action serve_start resolve_targets resolved_request_id requested_by_from_context
    trim_space trim_left trim_right is_space split_on sort_strings insert_sorted contains add_unique
    ◌=ₛ◌ ◌<ₛ◌
action_run = refl

abbrev session : TransitionSession
session = record {
  begin = none;
  search_path = none;
  clock = λ n. 7;
  statement = λ n. none;
  constraint = λ name. message name;
  new_id = λ n. codes "id";
  rows_affected = λ n. ok (pos n);
  random = λ n. ok [];
  marshal = λ body. ok [];
  json_content_type = [];
  write = λ n. none;
  commit = none;
  count = none;
  query = none;
}

abbrev older : Task
older = record {
  id = codes "k1";
  transition_id = codes "t-1";
  node_id = codes "n1";
  bmc_id = codes "b1";
  bmc_endpoint = codes "https://b1";
  credential_id = [];
  operation = codes "ForceOff";
  state = TaskState.failed;
  dry_run = false;
  insecure_skip_verify = false;
  attempt_count = 3;
  final_power_state = [];
  error_detail = codes "timeout";
  queued_at = 5;
  started_at = some 6;
  completed_at = some 7;
  created_at = 5;
  updated_at = 7;
}

abbrev newer : Task
newer = record older {
  id = codes "k2";
  transition_id = codes "t-2";
  state = TaskState.succeeded;
  attempt_count = 1;
  error_detail = [];
  completed_at = some 9;
  created_at = 8;
  updated_at = 9;
}

abbrev database : TransitionTables
database = record {
  transitions = [];
  tasks = (codes "k1", older) ∷ (codes "k2", newer) ∷ [];
  outbox = [];
}

-- The node n2 has no mapping.
abbrev resolve_mappings : List Text → Result GoError (List NodePowerMapping × List NodeMappingError)
resolve_mappings nodes = ok (
  [],
  record { node_id = codes "n2"; code = mapping_not_found; detail = codes "no mapping" } ∷ [],
)

abbrev newest_status : PowerNodeStatus
newest_status = record {
  node_id = codes "n1";
  bmc_id = codes "b1";
  transition_id = codes "t-2";
  operation = codes "ForceOff";
  state = of_task TaskState.succeeded;
  power_state = codes "Off";
  error_detail = [];
  last_updated_at = some 9;
  last_completed_at = some 9;
}

abbrev shown : List PowerNodeStatus
shown =
    newest_status
    ∷ bare_status (codes "n2") unresolved (codes "no mapping")
    ∷ bare_status (codes "n3") unknown (codes "no transition history for node")
    ∷ []

status_run :
    handle_get_power_status power_server
      (some (status_store session database resolve_mappings))
      asked_nodes
      asked_groups
    ≡ ok shown
unfolding handle_get_power_status statuses task_by_node missing_details inferred_power_state
    resolve_targets list_latest_transition_tasks_by_node latest_tasks latest_task query_nodes
    normalized_unique collect_unique lookup insert trim_space trim_left trim_right is_space split_on
    sort_strings insert_sorted contains add_unique ◌=ₛ◌ ◌<ₛ◌
status_run = refl

handle_get_power_status-IsShown_example :
    IsShown power_server database resolve_mappings
      (resolve_targets (some rack) asked_nodes asked_groups)
      shown
handle_get_power_status-IsShown_example =
    handle_get_power_status-IsShown power_server session database resolve_mappings asked_nodes
      asked_groups shown status_run
