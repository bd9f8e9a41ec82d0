-- ===== src/Engine/Tasks.antt =====
-- `executeTask` and `completeTask` of runner.go: one worker carrying out one task. What the store,
-- the contexts, the executor, the reader and the updater answer on the way is the argument `TaskRun`.
pub mod Outcome
use chamicore.Prelude.{
  ℕ, Bool, true, false, not, ◌&&◌, ◌++◌, [], Option, none, some, Result, ok, err, is_empty,
  if◌then◌else◌,
}
use chamicore.Prelude.Int.{ℤ}
use chamicore.Text.{Text, codes}
use chamicore.Text.Trim.{trim_space}
use chamicore.GoError.{GoError, errors_is, canceled, deadline_exceeded, error_text}
use chamicore.Engine.Errors.{is_context_error}
use chamicore.Engine.Config.{RuntimeConfig}
use chamicore.Engine.Backoff.{Machine}
use chamicore.Engine.Retry.{Attempts, execute_with_retry}
use chamicore.Engine.Verify.{PowerReads, verify}
use chamicore.Engine.Types.{Task, TaskState, ResetOperation, ExecutionRequest, succeeded, failed}

pub record TaskRun : Type 0 where
  -- That of the queued task.
  pub transition_id : Text
  -- What `markTransitionRunning` returns, its write included.
  pub marked : Option GoError
  -- `Err()` of the context of the transition when the task begins.
  pub context_error : Option GoError
  pub started_at : ℕ
  pub persist_running : Task → Result GoError Task
  -- Waiting for a slot of a named BMC ends with the slot, or with the error of the context.
  pub slot : Option GoError
  pub attempts : ExecutionRequest → Attempts
  pub jitter : ℤ → ℤ
  pub reads : ExecutionRequest → PowerReads
  pub completed_at : ℕ
  -- The updater of SMD, if there is one: `UpdateNodePowerState(node, state)`.
  pub updater : Option (Text → Text → Option GoError)
  pub persist_completed : Task → Result GoError Task

-- `if updated, err := store.UpdateTransitionTask(...); err == nil { task = updated }`.
abbrev pub or_unchanged : Task → Result GoError Task → Task
or_unchanged task (ok updated) = updated
or_unchanged task (err e) = task

abbrev pub update_error : Option (Text → Text → Option GoError) → Text → Text → Option GoError
update_error none node state = none
update_error (some update) node state = update node state

abbrev after_update : Task → Option GoError → Task
after_update task none = record task { state = succeeded }
after_update task (some e) = record task {
  state = failed;
  error_detail = trim_space (codes "updating SMD state: " ++ error_text e);
}

-- The switch over the result in `completeTask`.
unfoldable pub settle : TaskRun → Task → Option GoError → Task
settle run task none =
    if not task.dry_run
    then after_update task (update_error run.updater task.node_id task.final_power_state)
    else record task { state = succeeded }
settle run task (some e) = record task {
  state = if is_context_error e then TaskState.canceled else failed;
  error_detail = trim_space (error_text e);
}

-- `completeTask`: the task whose state `recordTaskOutcome` is then given.
unfoldable pub complete_task : TaskRun → Task → ℕ → Text → Option GoError → Task
unfolding settle
complete_task run task attempts final_power_state result =
    let settled =
      settle run
        (record task {
          attempt_count = attempts;
          final_power_state = trim_space final_power_state;
          completed_at = some run.completed_at;
          updated_at = run.completed_at;
        })
        result in
    or_unchanged settled (run.persist_completed settled)

-- How a worker leaves `executeTask`: without having completed the task, by completing it, or not at
-- all within the rounds of the verifier that it was given.
pub data Ending : Type 0 where
  dropped : Ending
  completed : Task → Ending
  unfinished : Ending

-- The arguments that a path of `executeTask` passes to `completeTask`.
pub data Completion : Type 0 where
  result : (attempts : ℕ) (final_power_state : Text) → Option GoError → Completion

abbrev pub verified : ℕ → Option (Text × Option GoError) → Option Completion
verified attempts none = none
verified attempts (some (final_power_state, e)) = some (result attempts final_power_state e)

abbrev pub after_execution :
    (ResetOperation → Text)
    → TaskRun
    → ℕ
    → ExecutionRequest
    → ℕ × Option GoError
    → Option Completion
after_execution name run fuel request (attempts, some e) = some (result attempts [] (some e))
after_execution name run fuel request (attempts, none) =
    verified attempts (verify name (run.reads request) fuel request.operation)

-- What the executor and the verifier are given.
abbrev pub execution_request : TaskRun → ResetOperation → Task → ExecutionRequest
execution_request run operation task = record {
  transition_id = run.transition_id;
  task_id = task.id;
  node_id = task.node_id;
  bmc_id = task.bmc_id;
  endpoint = task.bmc_endpoint;
  credential_id = task.credential_id;
  insecure_skip_verify = task.insecure_skip_verify;
  operation = operation;
}

abbrev pub slot_error : TaskRun → Task → Option GoError
slot_error run task = if is_empty (trim_space task.bmc_id) then none else run.slot

-- From the limiter on.
unfoldable pub carry_out :
    Machine
    → RuntimeConfig
    → (ResetOperation → Text)
    → TaskRun
    → ℕ
    → ResetOperation
    → Task
    → Option Completion
carry_out machine rc name run fuel operation task = elim (slot_error run task) [
  | some e ↦ some (result 0 [] (some e))
  | none ↦
      let request = execution_request run operation task in
      after_execution name run fuel request
        (execute_with_retry machine rc run.jitter (run.attempts request))
]

-- The task as it is stored when its execution begins.
unfoldable pub begin_task : TaskRun → Task → Task
begin_task run task =
    let begun = record task {
      state = TaskState.running;
      started_at = some run.started_at;
      updated_at = run.started_at;
    } in
    or_unchanged begun (run.persist_running begun)

abbrev pub completed_by : TaskRun → Task → Option Completion → Ending
completed_by run task none = unfinished
completed_by run task (some (result attempts final_power_state e)) =
    completed (complete_task run task attempts final_power_state e)

-- `executeTask`.
unfoldable pub execute_task :
    Machine → RuntimeConfig → (ResetOperation → Text) → TaskRun → ℕ → ResetOperation → Task → Ending
execute_task machine rc name run fuel operation task = elim run.marked [
  | some e ↦ dropped
  | none ↦ elim run.context_error [
    | some e ↦ completed (complete_task run task 0 [] (some e))
    | none ↦
        completed_by run (begin_task run task)
          (carry_out machine rc name run fuel operation (begin_task run task))
  ]
]
