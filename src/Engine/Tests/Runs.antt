-- ===== src/Engine/Tests/Runs.antt =====
-- One transition of two tasks, from the request to its end.
use chamicore.Prelude.{
  ◌+◌, ◌<◌, ◌≡◌, refl, ◌⊎◌, true, false, [], ◌∷◌, none, some, arith, ok, count_if,
}
use chamicore.Prelude.Int.{pos}
use chamicore.Text.{codes, ◌=ₛ◌}
use chamicore.Text.Trim.{is_space, trim_left, trim_right, trim_space}
use chamicore.Text.Order.{◌<ₛ◌, insert_sorted, sort_strings}
use chamicore.Text.Unique.{contains, collect_unique, normalized_unique}
use chamicore.Dict.{lookup, insert}
use chamicore.Model.{NodePowerMapping}
use chamicore.Engine.Config.{RuntimeConfig}
use chamicore.Engine.Types.{
  Task, TaskState, Transition, TransitionState, Progress, StartRequest, on,
}
use chamicore.Engine.Progress.{final_transition_state, count_down, record_task_outcome}
use chamicore.Engine.Progress.Accounts.{IsAccounted}
use chamicore.Engine.Progress.Final.{record_task_outcome-last}
use chamicore.Engine.System.{
  System, QueuedTask, new_progress, initial, belongs_to, works_on, Reach, start, give_up, here,
  next, cancel_context,
}
use chamicore.Engine.System.Outstanding.{outstanding}
use chamicore.Engine.System.Traces.{Reach-accounts, lost_never_ends}
use chamicore.Engine.Start.{
  normalize_node_ids, Request, plan_for, StartRun, start_transition, planned_transition, launch,
  enqueue_all,
}
use chamicore.Engine.Start.Registered.{KeepsCreated, IsQuiet, IsLaunched, start_transition-Outcome}

abbrev two_targets : Transition
two_targets = record {
  id = codes "t-1";
  request_id = [];
  operation = codes "On";
  state = TransitionState.pending;
  requested_by = codes "ops";
  dry_run = false;
  target_count = 2;
  success_count = 0;
  failure_count = 0;
  queued_at = 5;
  started_at = none;
  completed_at = none;
  created_at = 5;
  updated_at = 5;
}

-- One target succeeded and one is open.
abbrev half_done : Progress
half_done = record {
  transition = record two_targets { success_count = 1 };
  remaining = 1;
  executable_total = 2;
  canceled_count = 0;
  started = true;
  aborted = false;
  context_canceled = false;
}

half_done-IsAccounted : IsAccounted half_done
half_done-IsAccounted = omega arith

record_task_outcome-last_example :
    let r = record_task_outcome 9 (codes "t-1") TaskState.failed ((codes "t-1", half_done) ∷ []) in
    ((1 < 1)
      × (r.1 ≡ none)
      × (lookup (codes "t-1") r.0 ≡ some (count_down TaskState.failed half_done))
      × ((count_down TaskState.failed half_done).remaining + 1 ≡ 1))
    ⊎ ((half_done.remaining ≡ 1)
        × (lookup (codes "t-1") r.0 ≡ none)
        × ((t : Transition) × (r.1 ≡ some t)
            × (t.completed_at ≡ some 9)
            × (t.success_count + t.failure_count ≡ t.target_count)
            × (t.state ≡ final_transition_state (count_down TaskState.failed half_done))))
unfolding lookup ◌=ₛ◌
record_task_outcome-last_example =
    record_task_outcome-last 9 (codes "t-1") TaskState.failed ((codes "t-1", half_done) ∷ [])
      half_done refl half_done-IsAccounted (omega arith)

abbrev all_done : Progress
all_done = record half_done {
  transition = record two_targets { success_count = 1; failure_count = 1 };
  remaining = 0;
}

abbrev limits : RuntimeConfig
limits = record {
  global_concurrency = pos 1;
  per_bmc_concurrency = pos 1;
  retry_attempts = pos 1;
  retry_backoff_base = pos 1;
  retry_backoff_max = pos 1;
  transition_deadline = pos 1;
  queue_size = pos 1;
}

abbrev node_task : Task
node_task = record {
  id = codes "k-1";
  transition_id = codes "t-1";
  node_id = codes "n1";
  bmc_id = codes "b1";
  bmc_endpoint = codes "https://b1";
  credential_id = codes "c1";
  operation = codes "On";
  state = TaskState.pending;
  dry_run = false;
  insecure_skip_verify = false;
  attempt_count = 0;
  final_power_state = [];
  error_detail = [];
  queued_at = 5;
  started_at = none;
  completed_at = none;
  created_at = 5;
  updated_at = 5;
}

abbrev item : QueuedTask
item = record { operation = on; transition_id = codes "t-1"; task = node_task }

abbrev one_target : Transition
one_target = record two_targets { target_count = 1 }

abbrev registered : System
registered = record {
  progress = (codes "t-1", new_progress one_target 1) ∷ [];
  waiting = item ∷ [];
  queue = [];
  busy = [];
  lost = [];
  closed = false;
}

to_registered : Reach limits initial registered
unfolding initial lookup insert
to_registered =
    next here (
      start one_target (item ∷ []) refl (refl, refl, refl, refl) (refl, tt) (omega arith) refl refl)

Reach-accounts_example :
    ((outstanding (codes "t-1") registered ≡ 0) × (lookup (codes "t-1") registered.progress ≡ none))
    ⊎ ((0 < outstanding (codes "t-1") registered)
        × ((p : Progress) × (lookup (codes "t-1") registered.progress ≡ some p)
            × IsAccounted p
            × (p.remaining ≡ outstanding (codes "t-1") registered)))
Reach-accounts_example = Reach-accounts to_registered (codes "t-1")

-- The request's context ends before its task is in the queue.
abbrev abandoned : System
abandoned = record registered {
  progress = cancel_context (codes "t-1") registered.progress;
  waiting = [];
  lost = item ∷ [];
}

to_abandoned : Reach limits registered abandoned
unfolding belongs_to ◌=ₛ◌
to_abandoned = next here (give_up (codes "t-1"))

lost_never_ends_example :
    (p : Progress) × (lookup (codes "t-1") abandoned.progress ≡ some p)
    × (count_if (belongs_to (codes "t-1")) abandoned.waiting
          + count_if (belongs_to (codes "t-1")) abandoned.queue
          + count_if (works_on (codes "t-1")) abandoned.busy
        < p.remaining)
unfolding belongs_to works_on ◌=ₛ◌
lost_never_ends_example =
    lost_never_ends (codes "t-1") (next to_registered (give_up (codes "t-1"))) (omega arith) here

node_ids_sorted :
    normalize_node_ids (codes "n2" ∷ codes " n1" ∷ codes "n2 " ∷ []) ≡ codes "n1" ∷ codes "n2" ∷ []
unfolding normalize_node_ids normalized_unique collect_unique contains sort_strings insert_sorted
    ◌<ₛ◌ ◌=ₛ◌ trim_space trim_left trim_right is_space
node_ids_sorted = refl

abbrev known : NodePowerMapping
known = record {
  node_id = codes "n1";
  bmc_id = codes "b1";
  endpoint = codes "https://b1";
  credential_id = codes "c1";
  insecure_skip_verify = false;
}

abbrev wet : Request
wet = record { operation = codes "On"; dry_run = false; now = 5 }

-- A store that returns what it is given under a new identifier.
abbrev fresh_run : StartRun
fresh_run = record {
  running = true;
  parse = λ s. ok on;
  name = λ o. codes "On";
  resolve = λ ns. ok (known ∷ [], []);
  now = 5;
  later = 6;
  create = λ t ts. ok (record t { id = codes "t-1" }, ts);
  update = λ t. ok t;
  enqueue = λ n. none;
}

fresh_run-KeepsCreated : KeepsCreated fresh_run
fresh_run-KeepsCreated t u ts us e = (cc, cc, cc, cc)

abbrev request : StartRequest
request = record {
  request_id = codes "r";
  requested_by = codes "ops";
  operation = codes "on";
  node_ids = codes "n1" ∷ [];
  dry_run = false;
}

abbrev started : Transition
started = record one_target { request_id = codes "r" }

request_answer : (start_transition fresh_run request []).answer ≡ ok started
unfolding start_transition normalize_node_ids normalized_unique collect_unique contains sort_strings
    insert_sorted ◌<ₛ◌ ◌=ₛ◌ trim_space trim_left trim_right is_space lookup insert plan_for
    planned_transition launch enqueue_all
request_answer = refl

start_transition-Outcome_example :
    IsQuiet [] (start_transition fresh_run request [])
    ⊎ IsLaunched started (start_transition fresh_run request [])
start_transition-Outcome_example =
    start_transition-Outcome fresh_run request [] started fresh_run-KeepsCreated request_answer
