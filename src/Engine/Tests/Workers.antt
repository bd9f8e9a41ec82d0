-- ===== src/Engine/Tests/Workers.antt =====
-- One worker carrying out one task.
use chamicore.Prelude.{◌≡◌, refl, false, [], none, some, ok, ltb}
use chamicore.Prelude.Int.{pos}
use chamicore.Text.{Text, codes}
use chamicore.Text.Trim.{is_space, trim_left, trim_right, trim_space}
use chamicore.Text.Fold.{equal_fold}
use chamicore.Engine.Config.{RuntimeConfig}
use chamicore.Engine.Backoff.{amd64}
use chamicore.Engine.Retry.{execute_with_retry}
use chamicore.Engine.Types.{Task, TaskState, ResetOperation, on, succeeded}
use chamicore.Engine.Verify.{expected_final_power_state, verify_from, verify}
use chamicore.Engine.Tasks.{TaskRun, completed, complete_task, carry_out, begin_task, execute_task}
use chamicore.Engine.Tasks.Outcome.{KeepsState, WentThrough, execute_task-succeeded}

abbrev limits : RuntimeConfig
limits = record {
  global_concurrency = pos 1;
  per_bmc_concurrency = pos 1;
  retry_attempts = pos 1;
  retry_backoff_base = pos 1;
  retry_backoff_max = pos 1;
  transition_deadline = pos 1;
  queue_size = pos 1;
}

abbrev node_task : Task
node_task = record {
  id = codes "k-1";
  transition_id = codes "t-1";
  node_id = codes "n1";
  bmc_id = codes "b1";
  bmc_endpoint = codes "https://b1";
  credential_id = codes "c1";
  operation = codes "On";
  state = TaskState.pending;
  dry_run = false;
  insecure_skip_verify = false;
  attempt_count = 0;
  final_power_state = [];
  error_detail = [];
  queued_at = 5;
  started_at = none;
  completed_at = none;
  created_at = 5;
  updated_at = 5;
}

-- The executor works at once, the node is on at the first read, and SMD takes the state.
abbrev smooth : TaskRun
smooth = record {
  marked = none;
  context_error = none;
  started_at = 6;
  persist_running = λ t. ok t;
  slot = none;
  transition_id = codes "t-1";
  attempts = λ request. record { execute = λ n. none; sleep = λ n d. none };
  jitter = λ d. pos 0;
  reads =
      λ request. record { read = λ n. ok (codes "on"); expired = λ n. none; ticks = λ n. ltb n 2 };
  completed_at = 7;
  updater = some (λ node state. none);
  persist_completed = λ t. ok t;
}

smooth-KeepsState : KeepsState smooth
smooth-KeepsState t u e = cc

abbrev no_name : ResetOperation → Text
no_name operation = codes "op"

abbrev done : Task
done = record node_task {
  state = succeeded;
  attempt_count = 1;
  final_power_state = codes "on";
  started_at = some 6;
  completed_at = some 7;
  updated_at = 7;
}

smooth_result : execute_task amd64 limits no_name smooth 3 on node_task ≡ completed done
unfolding execute_task verify_from carry_out complete_task begin_task execute_with_retry verify
    expected_final_power_state trim_space trim_left trim_right is_space equal_fold
smooth_result = refl

execute_task-succeeded_example : WentThrough amd64 limits no_name smooth 3 on node_task
execute_task-succeeded_example =
    execute_task-succeeded amd64 limits no_name smooth 3 on node_task smooth-KeepsState
      smooth_result refl
