-- ===== src/Store/Transitions/Events.antt =====
-- events_transition.go: the events that the store writes to the outbox.
use chamicore.Prelude.{
  ℕ, ◌/◌, ◌%◌, List, [], ◌∷◌, ◌++◌, Result, ok, err, and_then, is_empty, if◌then◌else◌,
}
use chamicore.Text.{Text, codes}
use chamicore.Text.Quote.{hex_digit}
use chamicore.Text.Trim.{trim_space}
use chamicore.GoError.{GoError, message, prefixed}
use chamicore.Engine.Types.{Transition, Task}
use chamicore.Store.Transitions.{
  TransitionLifecycleEventData, TransitionTaskResultEventData, Payload, lifecycle, task_result,
  Event, TransitionSession,
}

abbrev pub transition_lifecycle_event_type : Text
transition_lifecycle_event_type = codes "chamicore.power.transitions.lifecycle"

abbrev pub transition_task_result_event_type : Text
transition_task_result_event_type = codes "chamicore.power.transitions.task-result"

abbrev pub transition_event_source : Text
transition_event_source = codes "chamicore-power"

-- `hex.EncodeToString`, with lower-case digits.
unfoldable pub encode_to_string : List ℕ → Text
encode_to_string [] = []
encode_to_string (b ∷ bs) = hex_digit (b / 16) ∷ hex_digit (b % 16) ∷ encode_to_string bs

unfoldable pub new_transition_event_id : Result GoError (List ℕ) → Result GoError Text
unfolding encode_to_string
new_transition_event_id random =
    and_then (prefixed (codes "generating event id: ") random)
      (λ id. ok (codes "evt-" ++ encode_to_string id))

abbrev pub lifecycle_data : Transition → TransitionLifecycleEventData
lifecycle_data t = record {
  transition_id = trim_space t.id;
  snapshot = record {
    id = trim_space t.id;
    request_id = trim_space t.request_id;
    operation = trim_space t.operation;
    state = t.state;
    requested_by = trim_space t.requested_by;
    dry_run = t.dry_run;
    target_count = t.target_count;
    success_count = t.success_count;
    failure_count = t.failure_count;
    queued_at = t.queued_at;
    started_at = t.started_at;
    completed_at = t.completed_at;
    created_at = t.created_at;
    updated_at = t.updated_at;
  };
}

abbrev pub task_result_data : Task → TransitionTaskResultEventData
task_result_data t = record {
  transition_id = trim_space t.transition_id;
  node_id = trim_space t.node_id;
  task_id = trim_space t.id;
  snapshot = record {
    id = trim_space t.id;
    transition_id = trim_space t.transition_id;
    node_id = trim_space t.node_id;
    bmc_id = trim_space t.bmc_id;
    bmc_endpoint = trim_space t.bmc_endpoint;
    credential_id = trim_space t.credential_id;
    operation = trim_space t.operation;
    state = t.state;
    dry_run = t.dry_run;
    attempt_count = t.attempt_count;
    final_power_state = trim_space t.final_power_state;
    error_detail = trim_space t.error_detail;
    queued_at = t.queued_at;
    started_at = t.started_at;
    completed_at = t.completed_at;
    created_at = t.created_at;
    updated_at = t.updated_at;
    insecure_skip_verify = t.insecure_skip_verify;
  };
}

abbrev pub event_of : TransitionSession → Text → Text → Text → Text → Event
event_of session id kind subject payload = record {
  id = id;
  source = transition_event_source;
  event_type = kind;
  subject = subject;
  data_content_type = session.json_content_type;
  payload = payload;
}

-- The n-th event of a call: its random identifier, then its payload.
unfoldable pub build_event :
    TransitionSession → ℕ → Text → Text → Text → Payload → Result GoError Event
unfolding new_transition_event_id
build_event session n kind subject what body =
    and_then (new_transition_event_id (session.random n)) (λ id.
      and_then
        (prefixed (codes "marshaling transition " ++ (what ++ codes " payload: "))
          (session.marshal body))
        (λ payload. ok (event_of session id kind subject payload)))

unfoldable pub new_transition_lifecycle_event :
    TransitionSession → ℕ → Transition → Result GoError Event
unfolding build_event
new_transition_lifecycle_event session n t =
    if is_empty (trim_space t.id)
    then err (message (codes "transition id is required"))
    else build_event session n transition_lifecycle_event_type (trim_space t.id) (codes "lifecycle")
        (lifecycle (lifecycle_data t))

unfoldable pub new_transition_task_result_event :
    TransitionSession → ℕ → Task → Result GoError Event
unfolding build_event
new_transition_task_result_event session n t =
    if is_empty (trim_space t.id)
    then err (message (codes "task id is required"))
    else if is_empty (trim_space t.transition_id)
    then err (message (codes "transition id is required"))
    else if is_empty (trim_space t.node_id)
    then err (message (codes "node id is required"))
    else build_event session n transition_task_result_event_type (trim_space t.node_id)
        (codes "task") (task_result (task_result_data t))
