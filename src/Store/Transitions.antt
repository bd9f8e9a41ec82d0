-- ===== src/Store/Transitions.antt =====
-- services/chamicore-power/internal/store/postgres_transition.go and events_transition.go: the
-- tables of transitions, tasks and events. What the database, the clock, the source of random bytes
-- and the JSON encoder answer is the argument `TransitionSession`. A time counts microseconds, which
-- the columns keep, and 0 is Go's zero time.
pub mod Events
pub mod Create
pub mod Told
pub mod Inserted
pub mod Created
pub mod Update
pub mod Updated
pub mod TaskUpdated
pub mod Query
pub mod Listed
pub mod Latest
pub mod Runner
mod Tests
use chamicore.Prelude.{
  ℕ, Bool, true, false, List, Option, none, some, Result, ◌==◌, is_empty, if◌then◌else◌,
}
use chamicore.Prelude.Int.{ℤ}
use chamicore.Text.{Text, codes}
use chamicore.Text.Trim.{trim_space}
use chamicore.Dict.{Dict}
use chamicore.GoError.{GoError}
use chamicore.Engine.Types.{
  Transition, Task, TransitionState, TaskState, succeeded, failed, canceled, planned,
}

pub record TransitionEventSnapshot : Type 0 where
  pub id : Text
  pub request_id : Text
  pub operation : Text
  pub state : TransitionState
  pub requested_by : Text
  pub dry_run : Bool
  pub target_count : ℕ
  pub success_count : ℕ
  pub failure_count : ℕ
  pub queued_at : ℕ
  pub started_at : Option ℕ
  pub completed_at : Option ℕ
  pub created_at : ℕ
  pub updated_at : ℕ

pub record TransitionTaskEventSnapshot : Type 0 where
  pub id : Text
  pub transition_id : Text
  pub node_id : Text
  pub bmc_id : Text
  pub bmc_endpoint : Text
  pub credential_id : Text
  pub operation : Text
  pub state : TaskState
  pub dry_run : Bool
  pub attempt_count : ℕ
  pub final_power_state : Text
  pub error_detail : Text
  pub queued_at : ℕ
  pub started_at : Option ℕ
  pub completed_at : Option ℕ
  pub created_at : ℕ
  pub updated_at : ℕ
  pub insecure_skip_verify : Bool

pub record TransitionLifecycleEventData : Type 0 where
  pub transition_id : Text
  pub snapshot : TransitionEventSnapshot

pub record TransitionTaskResultEventData : Type 0 where
  pub transition_id : Text
  pub node_id : Text
  pub task_id : Text
  pub snapshot : TransitionTaskEventSnapshot

-- What the JSON encoder is given.
pub data Payload : Type 0 where
  lifecycle : TransitionLifecycleEventData → Payload
  task_result : TransitionTaskResultEventData → Payload

-- `events.Event`, as far as the store fills it.
pub record Event : Type 0 where
  pub id : Text
  pub source : Text
  pub event_type : Text
  pub subject : Text
  pub data_content_type : Text
  pub payload : Text

-- power.transitions and power.transition_tasks by their keys, and power.outbox in the order of the
-- writes. The tables have no column for two fields of a task.
pub record TransitionTables : Type 0 where
  pub transitions : Dict Transition
  pub tasks : Dict Task
  pub outbox : List Event

-- The inserts, and the events, of one call are numbered from 0.
pub record TransitionSession : Type 0 where
  pub begin : Option GoError
  pub search_path : Option GoError
  pub clock : ℕ → ℕ
  pub statement : ℕ → Option GoError
  -- The error for a row that a key of the table or a reference of it rules out.
  pub constraint : Text → GoError
  -- `gen_random_uuid()::text`.
  pub new_id : ℕ → Text
  -- `RowsAffected` of an update of so many rows.
  pub rows_affected : ℕ → Result GoError ℤ
  pub random : ℕ → Result GoError (List ℕ)
  pub marshal : Payload → Result GoError Text
  pub json_content_type : Text
  -- `outbox.WriteContext`, which inserts the event into power.outbox.
  pub write : ℕ → Option GoError
  pub commit : Option GoError
  -- The error of a count, and that of a query, of a scan or of the iteration, with its prefix.
  pub count : Option GoError
  pub query : Option GoError

-- `if t.IsZero() { t = d }`.
abbrev pub or_time : ℕ → ℕ → ℕ
or_time t d = if t == 0 then d else t

-- The fields of a row of power.transitions as `insertTransitionTx` sets them.
abbrev pub clean_transition : ℕ → Transition → Transition
clean_transition now t = record t {
  id = trim_space t.id;
  request_id = trim_space t.request_id;
  operation = trim_space t.operation;
  requested_by = trim_space t.requested_by;
  queued_at = or_time t.queued_at now;
  created_at = or_time t.created_at now;
  updated_at = or_time t.updated_at (or_time t.created_at now);
}

-- The texts of a task, trimmed, as inserts and updates do.
abbrev pub trimmed_task : Task → Task
trimmed_task t = record t {
  id = trim_space t.id;
  transition_id = trim_space t.transition_id;
  node_id = trim_space t.node_id;
  bmc_id = trim_space t.bmc_id;
  bmc_endpoint = trim_space t.bmc_endpoint;
  operation = trim_space t.operation;
  final_power_state = trim_space t.final_power_state;
  error_detail = trim_space t.error_detail;
}

abbrev pub clean_task : ℕ → Task → Task
clean_task now t = record (trimmed_task t) {
  queued_at = or_time t.queued_at now;
  created_at = or_time t.created_at now;
  updated_at = or_time t.updated_at (or_time t.created_at now);
}

-- The column `id`, which the database makes where the insert has none.
abbrev pub or_new_id : Text → Text → Text
or_new_id id made = if is_empty id then made else id

-- The row that a task is read back as.
abbrev pub task_row : Task → Task
task_row t = record t { credential_id = codes ""; insecure_skip_verify = false }

unfoldable pub is_terminal_task_state : TaskState → Bool
is_terminal_task_state succeeded = true
is_terminal_task_state failed = true
is_terminal_task_state canceled = true
is_terminal_task_state planned = true
is_terminal_task_state _ = false
