-- ===== src/Engine/Start.antt =====
-- `StartTransition` and `normalizeNodeIDs` of runner.go: from a request to the stored transition, its
-- entry, and the tasks in the queue. What the store and the queue answer is the argument `StartRun`.
pub mod Counts
pub mod Registered
use chamicore.Prelude.{
  ℕ, zero, suc, ◌+◌, Bool, true, false, not, ◌||◌, List, [], ◌∷◌, ◌++◌, Option, none, some, Result,
  ok, err, length, is_empty, keep_if, ◌==◌, if◌then◌else◌,
}
use chamicore.Text.{Text, codes}
use chamicore.Text.Trim.{trim_space}
use chamicore.Text.Order.{sort_strings}
use chamicore.Text.Unique.{normalized_unique}
use chamicore.Dict.{Dict, lookup, insert}
use chamicore.GoError.{GoError, sentinel, wrapped, runner_not_started, no_target_nodes}
use chamicore.Model.{NodePowerMapping, NodeMappingError, missing_node_mapping_error}
use chamicore.Engine.Types.{
  Task, TaskState, Transition, TransitionState, ResetOperation, Progress, StartRequest,
}
use chamicore.Engine.System.{QueuedTask, new_progress, cancel_context}

unfoldable pub normalize_node_ids : List Text → List Text
normalize_node_ids node_ids = sort_strings (normalized_unique node_ids)

-- What the node's task is made of.
pub record Request : Type 0 where
  pub operation : Text
  pub dry_run : Bool
  pub now : ℕ

abbrev new_task : Request → Text → Task
new_task q node_id = record {
  id = [];
  transition_id = [];
  node_id = node_id;
  bmc_id = [];
  bmc_endpoint = [];
  credential_id = [];
  operation = q.operation;
  state = TaskState.pending;
  dry_run = q.dry_run;
  insecure_skip_verify = false;
  attempt_count = 0;
  final_power_state = [];
  error_detail = [];
  queued_at = q.now;
  started_at = none;
  completed_at = none;
  created_at = q.now;
  updated_at = q.now;
}

abbrev failed_task : Request → Text → Text → Task
failed_task q node_id detail = record (new_task q node_id) {
  state = TaskState.failed;
  error_detail = detail;
  completed_at = some q.now;
}

abbrev mapped_task : Request → Text → NodePowerMapping → Task
mapped_task q node_id mapping = record (new_task q node_id) {
  bmc_id = trim_space mapping.bmc_id;
  bmc_endpoint = trim_space mapping.endpoint;
  credential_id = trim_space mapping.credential_id;
  insecure_skip_verify = mapping.insecure_skip_verify;
  state = if q.dry_run then TaskState.planned else TaskState.pending;
  completed_at = if q.dry_run then some q.now else none;
}

-- The task of one node: failed where the store reported an error or no mapping.
unfoldable pub plan_task : Request → Text → Option NodeMappingError → Option NodePowerMapping → Task
plan_task q node_id (some missing) mapping = failed_task q node_id (trim_space missing.detail)
plan_task q node_id none none = failed_task q node_id (missing_node_mapping_error node_id).detail
plan_task q node_id none (some mapping) = mapped_task q node_id mapping

abbrev pub is_pending : TaskState → Bool
is_pending TaskState.pending = true
is_pending _ = false

abbrev pub is_failed : TaskState → Bool
is_failed TaskState.failed = true
is_failed _ = false

pub record Plan : Type 0 where
  pub tasks : List Task
  pub failure_count : ℕ
  pub pending_count : ℕ

-- One round of the loop over the nodes.
unfoldable pub add_task : Plan → Task → Plan
add_task plan task = record {
  tasks = plan.tasks ++ task ∷ [];
  failure_count = if is_failed task.state then plan.failure_count + 1 else plan.failure_count;
  pending_count = if is_pending task.state then plan.pending_count + 1 else plan.pending_count;
}

unfoldable pub plan_tasks :
    Request → Dict NodePowerMapping → Dict NodeMappingError → Plan → List Text → Plan
unfolding add_task plan_task
plan_tasks q mappings missing plan [] = plan
plan_tasks q mappings missing plan (node_id ∷ node_ids) =
    plan_tasks q mappings missing
      (add_task plan (plan_task q node_id (lookup node_id missing) (lookup node_id mappings)))
      node_ids

unfoldable pub mapping_by_node :
    Dict NodePowerMapping → List NodePowerMapping → Dict NodePowerMapping
mapping_by_node m [] = m
mapping_by_node m (x ∷ xs) = mapping_by_node (insert (trim_space x.node_id) x m) xs

unfoldable pub missing_by_node :
    Dict NodeMappingError → List NodeMappingError → Dict NodeMappingError
missing_by_node m [] = m
missing_by_node m (x ∷ xs) = missing_by_node (insert (trim_space x.node_id) x m) xs

abbrev pub no_plan : Plan
no_plan = record { tasks = []; failure_count = 0; pending_count = 0 }

-- The transition and its tasks, before they are stored.
unfoldable pub plan_for : Request → List NodePowerMapping → List NodeMappingError → List Text → Plan
unfolding plan_tasks mapping_by_node missing_by_node
plan_for q mappings missing node_ids =
    plan_tasks q (mapping_by_node [] mappings) (missing_by_node [] missing) no_plan node_ids

abbrev pub ends_at_once : StartRequest → Plan → Bool
ends_at_once req plan = req.dry_run || plan.pending_count == 0

unfoldable pub planned_transition : StartRequest → Request → List Text → Plan → Transition
planned_transition req q node_ids plan = record {
  id = [];
  request_id = trim_space req.request_id;
  operation = q.operation;
  state =
      if req.dry_run
      then TransitionState.planned
      else if plan.pending_count == 0
      then TransitionState.failed
      else TransitionState.pending;
  requested_by = trim_space req.requested_by;
  dry_run = req.dry_run;
  target_count = length node_ids;
  success_count = 0;
  failure_count = plan.failure_count;
  queued_at = q.now;
  started_at = none;
  completed_at = if ends_at_once req plan then some q.now else none;
  created_at = q.now;
  updated_at = q.now;
}

-- `enqueue n` is what the queue answers to the n-th task of this request.
pub record StartRun : Type 0 where
  pub running : Bool
  pub parse : Text → Result GoError ResetOperation
  pub name : ResetOperation → Text
  pub resolve : List Text → Result GoError (List NodePowerMapping × List NodeMappingError)
  pub now : ℕ
  pub later : ℕ
  pub create : Transition → List Task → Result GoError (Transition × List Task)
  pub update : Transition → Result GoError Transition
  pub enqueue : ℕ → Option GoError

-- The answer, the entries, and the tasks that went into the queue.
pub record Started : Type 0 where
  pub answer : Result GoError Transition
  pub progress : Dict Progress
  pub enqueued : List QueuedTask

abbrev pub refused : Dict Progress → GoError → Started
refused m e = record { answer = err e; progress = m; enqueued = [] }

-- The enqueue loop: the tasks that went in, and the error that ended it.
unfoldable pub enqueue_all :
    (ℕ → Option GoError) → ℕ → List QueuedTask → List QueuedTask × Option GoError
enqueue_all enqueue n [] = ([], none)
enqueue_all enqueue n (q ∷ qs) = elim (enqueue n) [
  | some e ↦ ([], some e)
  | none ↦ let (entered, e) = enqueue_all enqueue (suc n) qs in (q ∷ entered, e)
]

abbrev pub after_enqueue : Transition → Dict Progress → List QueuedTask × Option GoError → Started
after_enqueue t m (entered, none) = record { answer = ok t; progress = m; enqueued = entered }
after_enqueue t m (entered, some e) = record {
  answer = err (wrapped (codes "enqueueing transition task: ") e []);
  progress = cancel_context t.id m;
  enqueued = entered;
}

abbrev pub queued_tasks : ResetOperation → Text → List Task → List QueuedTask
queued_tasks operation id [] = []
queued_tasks operation id (task ∷ tasks) =
    (record { operation = operation; transition_id = id; task = task })
    ∷ queued_tasks operation id tasks

-- A transition with tasks to carry out: its entry, and its tasks one after the other.
unfoldable pub launch : StartRun → ResetOperation → Dict Progress → Transition → List Task → Started
launch run operation m t tasks =
    let pending_tasks = keep_if (λ (task : Task). is_pending task.state) tasks in
    after_enqueue t (insert t.id (new_progress t (length pending_tasks)) m)
      (enqueue_all run.enqueue 0 (queued_tasks operation t.id pending_tasks))

abbrev pub updated : Dict Progress → Result GoError Transition → Started
updated m (err e) = refused m (wrapped (codes "updating terminal transition record: ") e [])
updated m (ok t) = record { answer = ok t; progress = m; enqueued = [] }

abbrev pub created :
    StartRun
    → ResetOperation
    → Bool
    → Dict Progress
    → Result GoError (Transition × List Task)
    → Started
created run operation at_once m (err e) =
    refused m (wrapped (codes "creating transition record: ") e [])
created run operation at_once m (ok (t, tasks)) =
    if at_once
    then updated m (run.update (record t { updated_at = run.later }))
    else launch run operation m t tasks

abbrev pub resolved :
    StartRun
    → StartRequest
    → ResetOperation
    → List Text
    → Dict Progress
    → Result GoError (List NodePowerMapping × List NodeMappingError)
    → Started
resolved run req operation node_ids m (err e) =
    refused m (wrapped (codes "resolving node mappings: ") e [])
resolved run req operation node_ids m (ok (mappings, missing)) =
    let q : Request = record {
      operation = run.name operation;
      dry_run = req.dry_run;
      now = run.now;
    } in
    let plan = plan_for q mappings missing node_ids in
    created run operation (ends_at_once req plan) m
      (run.create (planned_transition req q node_ids plan) plan.tasks)

abbrev pub parsed :
    StartRun → StartRequest → Dict Progress → Result GoError ResetOperation → Started
parsed run req m (err e) = refused m (wrapped (codes "parsing operation: ") e [])
parsed run req m (ok operation) =
    let node_ids = normalize_node_ids req.node_ids in
    if is_empty node_ids
    then refused m (sentinel no_target_nodes)
    else resolved run req operation node_ids m (run.resolve node_ids)

-- `StartTransition`.
unfoldable pub start_transition : StartRun → StartRequest → Dict Progress → Started
start_transition run req m =
    if not run.running
    then refused m (sentinel runner_not_started)
    else parsed run req m (run.parse req.operation)
