-- ===== src/Store/Transitions/Tests.antt =====
-- The store of transitions on concrete inputs.
use chamicore.Prelude.{◌≡◌, refl, ◌⊎◌, true, false, List, [], ◌∷◌, ◌++◌, none, ok, err, arith}
use chamicore.Prelude.Int.{pos}
use chamicore.Text.{codes, ◌=ₛ◌}
use chamicore.Text.Trim.{trim_space, trim_left, trim_right, is_space}
use chamicore.Text.Order.{◌<ₛ◌, sort_strings, insert_sorted}
use chamicore.Text.Unique.{contains, normalized_unique, collect_unique}
use chamicore.Dict.{lookup, insert}
use chamicore.GoError.{message, sentinel, not_found}
use chamicore.Engine.Types.{Transition, Task, StartRequest, TransitionState, TaskState, on}
use chamicore.Engine.Start.{
  StartRun, start_transition, plan_for, planned_transition, launch, enqueue_all, normalize_node_ids,
}
use chamicore.Engine.Start.Registered.{IsQuiet, IsLaunched}
use chamicore.Store.Mappings.Transaction.{rows_affected_as_int}
use chamicore.Store.Mappings.Query.{query_nodes}
use chamicore.Store.Transitions.{TransitionTables, TransitionSession, is_terminal_task_state}
use chamicore.Store.Transitions.Events.{
  event_of, new_transition_event_id, encode_to_string, build_event, transition_lifecycle_event_type,
  transition_task_result_event_type, new_transition_lifecycle_event,
  new_transition_task_result_event,
}
use chamicore.Store.Transitions.Create.{
  insert_transition, insert_transition_task, insert_transition_tasks, has_pair, misplaced,
  write_event, write_task_event, write_task_events, write_lifecycle_event, creation,
  create_transition,
}
use chamicore.Store.Transitions.Update.{
  update_row, identified, transition_update, update_transition, identified_task,
  update_transition_task, get_transition,
}
use chamicore.Store.Transitions.Updated.{Updated, CountsRows, update_transition-Updated}
use chamicore.Store.Transitions.TaskUpdated.{TaskUpdated, update_transition_task-TaskUpdated}
use chamicore.Store.Transitions.Created.{Created, create_transition-Created}
use chamicore.Store.Transitions.Query.{
  normalize_transition_page_limit, latest_tasks, latest_task, list_latest_transition_tasks_by_node,
  values,
}
use chamicore.Store.Transitions.Listed.{pages, IsWhole, list_transitions-pages}
use chamicore.Store.Transitions.Latest.{IsLatestByNode, list_latest-IsLatestByNode}
use chamicore.Store.Transitions.Runner.{
  get_transition-create_transition, on_store, on_store-Outcome,
}

abbrev healthy : TransitionSession
healthy = record {
  begin = none;
  search_path = none;
  clock = λ n. 7;
  statement = λ n. none;
  constraint = λ name. message (codes "duplicate key value violates unique constraint");
  new_id = λ n. codes "d-" ++ (n ∷ []);
  rows_affected = λ n. ok (pos n);
  random = λ n. ok (171 ∷ n ∷ []);
  marshal = λ body. ok (codes "{}");
  json_content_type = codes "application/json";
  write = λ n. none;
  commit = none;
  count = none;
  query = none;
}

healthy-CountsRows : CountsRows healthy
healthy-CountsRows z h = ground (arith, h)

abbrev asked : Transition
asked = record {
  id = codes " t-1 ";
  request_id = codes "r";
  operation = codes "On";
  state = TransitionState.pending;
  requested_by = codes "ops";
  dry_run = false;
  target_count = 2;
  success_count = 0;
  failure_count = 1;
  queued_at = 5;
  started_at = none;
  completed_at = none;
  created_at = 0;
  updated_at = 0;
}

abbrev waiting : Task
waiting = record {
  id = [];
  transition_id = [];
  node_id = codes "n1";
  bmc_id = codes "b1";
  bmc_endpoint = codes "https://b1";
  credential_id = codes "c1";
  operation = codes "On";
  state = TaskState.pending;
  dry_run = false;
  insecure_skip_verify = true;
  attempt_count = 0;
  final_power_state = [];
  error_detail = [];
  queued_at = 5;
  started_at = none;
  completed_at = none;
  created_at = 0;
  updated_at = 0;
}

abbrev unresolved : Task
unresolved = record waiting { node_id = codes "n2"; state = TaskState.failed }

abbrev nothing : TransitionTables
nothing = record { transitions = []; tasks = []; outbox = [] }

create_transition-Created_example :
    Created healthy nothing asked
      (waiting ∷ unresolved ∷ [])
      (create_transition healthy asked (waiting ∷ unresolved ∷ []) nothing)
create_transition-Created_example =
    create_transition-Created healthy asked (waiting ∷ unresolved ∷ []) nothing

-- The tables after that: one row, two tasks, and the events of the transition and of the failed task.
abbrev row : Transition
row = record asked { id = codes "t-1"; created_at = 7; updated_at = 7 }

abbrev first_task : Task
first_task = record waiting {
  id = codes "d-" ++ (1 ∷ []);
  transition_id = codes "t-1";
  created_at = 7;
  updated_at = 7;
}

abbrev second_task : Task
second_task = record unresolved {
  id = codes "d-" ++ (2 ∷ []);
  transition_id = codes "t-1";
  created_at = 7;
  updated_at = 7;
}

abbrev unsafe_row : Task → Task
unsafe_row t = record t { credential_id = []; insecure_skip_verify = false }

abbrev created_tables : TransitionTables
created_tables = record {
  transitions = (codes "t-1", row) ∷ [];
  tasks = (first_task.id, unsafe_row first_task) ∷ (second_task.id, unsafe_row second_task) ∷ [];
  outbox =
      event_of healthy (codes "evt-ab00") transition_lifecycle_event_type (codes "t-1") (codes "{}")
      ∷ event_of healthy (codes "evt-ab02") transition_task_result_event_type (codes "n2")
          (codes "{}")
      ∷ [];
}

created_run :
    create_transition healthy asked (waiting ∷ unresolved ∷ []) nothing
    ≡ (ok (row, first_task ∷ second_task ∷ []), created_tables)
unfolding create_transition insert_transition insert_transition_tasks insert_transition_task
    misplaced has_pair write_lifecycle_event write_event write_task_events write_task_event
    new_transition_lifecycle_event new_transition_task_result_event build_event
    new_transition_event_id encode_to_string is_terminal_task_state creation lookup insert
    trim_space trim_left trim_right is_space ◌=ₛ◌
created_run = refl

get_transition-create_transition_example :
    get_transition healthy (codes "t-1") created_tables ≡ ok row
unfolding trim_space trim_left trim_right is_space
get_transition-create_transition_example =
    get_transition-create_transition healthy healthy asked (waiting ∷ unresolved ∷ []) nothing
      created_tables row (first_task ∷ second_task ∷ []) refl refl created_run

update_transition-Updated_example :
    Updated healthy (identified 7 row) created_tables (update_transition healthy row created_tables)
update_transition-Updated_example =
    update_transition-Updated healthy row created_tables healthy-CountsRows

update_transition_task-TaskUpdated_example :
    TaskUpdated healthy
      (identified_task 7 first_task)
      created_tables
      (update_transition_task healthy first_task created_tables)
update_transition_task-TaskUpdated_example =
    update_transition_task-TaskUpdated healthy first_task created_tables healthy-CountsRows

missing_run : update_transition healthy row nothing ≡ (err (sentinel not_found), nothing)
unfolding update_transition transition_update update_row rows_affected_as_int lookup trim_space
    trim_left trim_right is_space
missing_run = refl

list_transitions-pages_example :
    (all : List Transition) × (pages healthy (pos 1) 1 0 created_tables ≡ ok all)
    × IsWhole created_tables.transitions all
unfolding normalize_transition_page_limit
list_transitions-pages_example =
    list_transitions-pages healthy (pos 1) 1 created_tables refl refl (omega arith)

latest_run :
    list_latest_transition_tasks_by_node healthy (codes " n2" ∷ codes "n3" ∷ []) created_tables
    ≡ ok (unsafe_row second_task ∷ [])
unfolding list_latest_transition_tasks_by_node latest_tasks latest_task query_nodes
    normalized_unique collect_unique sort_strings insert_sorted ◌<ₛ◌ ◌=ₛ◌ contains trim_space
    trim_left trim_right is_space
latest_run = refl

list_latest-IsLatestByNode_example :
    IsLatestByNode
      (codes " n2" ∷ codes "n3" ∷ [])
      (values created_tables.tasks)
      (unsafe_row second_task ∷ [])
list_latest-IsLatestByNode_example =
    list_latest-IsLatestByNode healthy (codes " n2" ∷ codes "n3" ∷ []) created_tables
      (unsafe_row second_task ∷ []) latest_run

-- A runner on the empty tables, for one node that has a mapping.
abbrev fresh_run : StartRun
fresh_run = record {
  running = true;
  parse = λ s. ok on;
  name = λ o. codes "On";
  resolve = λ ns. ok (
    record {
      node_id = codes "n1";
      bmc_id = codes "b1";
      endpoint = codes "https://b1";
      credential_id = codes "c1";
      insecure_skip_verify = false;
    }
        ∷ [],
    [],
  );
  now = 5;
  later = 6;
  create = λ t ts. err (sentinel not_found);
  update = λ t. ok t;
  enqueue = λ n. none;
}

abbrev request : StartRequest
request = record {
  request_id = codes "r";
  requested_by = codes "ops";
  operation = codes "on";
  node_ids = codes "n1" ∷ [];
  dry_run = false;
}

abbrev started : Transition
started = record asked {
  id = codes "d-" ++ (0 ∷ []);
  target_count = 1;
  failure_count = 0;
  created_at = 5;
  updated_at = 5;
}

request_answer :
    (start_transition (on_store healthy nothing fresh_run) request []).answer ≡ ok started
unfolding start_transition normalize_node_ids plan_for planned_transition launch enqueue_all
    create_transition insert_transition insert_transition_tasks insert_transition_task misplaced
    has_pair write_lifecycle_event write_event write_task_events write_task_event
    new_transition_lifecycle_event new_transition_task_result_event build_event
    new_transition_event_id encode_to_string is_terminal_task_state creation lookup insert
    normalized_unique collect_unique contains sort_strings insert_sorted ◌<ₛ◌ trim_space trim_left
    trim_right is_space ◌=ₛ◌
request_answer = refl

on_store-Outcome_example :
    IsQuiet [] (start_transition (on_store healthy nothing fresh_run) request [])
    ⊎ IsLaunched started (start_transition (on_store healthy nothing fresh_run) request [])
on_store-Outcome_example =
    on_store-Outcome healthy nothing fresh_run request [] started request_answer
