-- ===== src/Server/Transitions/Starting.antt =====
-- handlers_transitions.go and handlers_actions.go: the handlers that start a transition. The parser of
-- operations is an argument. Of the headers of a response nothing is kept.
use chamicore.Prelude.{
  Bool, true, false, List, [], ◌++◌, Option, none, some, Result, ok, err, length, is_empty,
  if◌then◌else◌,
}
use chamicore.Prelude.Int.{pos, ltb_ℤ}
use chamicore.Text.{Text, codes}
use chamicore.Text.Trim.{trim_space}
use chamicore.Text.Quote.{quoted}
use chamicore.GoError.{GoError, errors_is, error_text, no_target_nodes, runner_not_started}
use chamicore.Engine.Types.{Transition, Task, StartRequest, ResetOperation}
use chamicore.Server.Targets.{resolve_targets}
use chamicore.Server.Transitions.{
  TransitionStore, TransitionRunner, PowerServer, to_transition_resource, says, too_many, Answer,
  problem, resource, unavailable, target_error,
}

-- `transitionRequest`, with the X-Request-ID header and the subject of the claims beside it.
pub record TransitionRequest : Type 0 where
  pub request_id : Text
  pub operation : Text
  pub nodes : List Text
  pub groups : List Text
  pub dry_run : Bool
  pub header_request_id : Text
  pub claims_subject : Option Text

unfoldable pub resolved_request_id : TransitionRequest → Text
resolved_request_id req =
    if is_empty (trim_space req.request_id)
    then trim_space req.header_request_id
    else trim_space req.request_id

abbrev or_unknown : Text → Text
or_unknown subject = if is_empty subject then codes "unknown" else subject

abbrev subject_of : Option Text → Text
subject_of none = codes "unknown"
subject_of (some subject) = or_unknown (trim_space subject)

unfoldable pub requested_by_from_context : TransitionRequest → Text
requested_by_from_context req = subject_of req.claims_subject

-- The answer, and what the runner was asked to start.
pub record Start : Type 0 where
  pub answer : Answer
  pub asked : Option StartRequest

abbrev pub stopped : Answer → Start
stopped answer = record { answer = answer; asked = none }

-- `respondStartTransitionError`.
unfoldable pub start_error : GoError → Answer
start_error e =
    if errors_is e runner_not_started
    then problem 503 (says (codes "runner not started"))
    else if errors_is e no_target_nodes
    then problem 400 (says (codes "at least one node is required"))
    else problem 500 (says (codes "failed to create transition: " ++ error_text e))

abbrev with_tasks : Transition → Result GoError (List Task) → Answer
with_tasks t (err e) = problem 500 (says (codes "failed to load transition tasks"))
with_tasks t (ok tasks) = resource 202 (to_transition_resource t tasks)

abbrev load_tasks : Option TransitionStore → Transition → Answer
load_tasks none t = resource 202 (to_transition_resource t [])
load_tasks (some store) t = with_tasks t (store.read_tasks t.id)

abbrev answer_start : Option TransitionStore → Result GoError Transition → Answer
answer_start store (err e) = start_error e
answer_start store (ok t) = load_tasks store t

abbrev pub request_of : PowerServer → TransitionRequest → ResetOperation → List Text → StartRequest
request_of s req operation node_ids = record {
  request_id = resolved_request_id req;
  requested_by = requested_by_from_context req;
  operation = s.name operation;
  node_ids = node_ids;
  dry_run = req.dry_run;
}

abbrev pub ask : Option TransitionStore → TransitionRunner → StartRequest → Start
ask store runner request = record {
  answer = answer_start store (runner.start request);
  asked = some request;
}

abbrev pub unless_over : Bool → Start → Start → Start
unless_over true refusal goes_on = refusal
unless_over false refusal goes_on = goes_on

abbrev pub limited :
    PowerServer
    → TransitionRunner
    → TransitionRequest
    → ResetOperation
    → Result GoError (List Text)
    → Start
limited s runner req operation (err e) = stopped (target_error e)
limited s runner req operation (ok node_ids) =
    unless_over (ltb_ℤ s.bulk_max_nodes (pos (length node_ids)))
      (stopped (problem 400 (too_many (length node_ids) s.bulk_max_nodes)))
      (ask s.transition_store runner (request_of s req operation node_ids))

abbrev pub start_parsed :
    PowerServer → TransitionRunner → TransitionRequest → Result GoError ResetOperation → Start
start_parsed s runner req (err e) =
    stopped (problem 400 (says (codes "invalid operation " ++ quoted req.operation)))
start_parsed s runner req (ok operation) =
    limited s runner req operation (resolve_targets s.resolve_group_members req.nodes req.groups)

-- `startTransition`.
unfoldable pub serve_start : PowerServer → TransitionRequest → Start
unfolding resolve_targets target_error start_error resolved_request_id requested_by_from_context
    to_transition_resource
serve_start s req = elim s.transition_runner [
  | none ↦ stopped unavailable
  | some runner ↦ start_parsed s runner req (s.parse_operation req.operation)
]

abbrev pub decoded_start :
    PowerServer → (TransitionRequest → TransitionRequest) → Result GoError TransitionRequest → Start
decoded_start s adapt (err e) =
    stopped (problem 400 (says (codes "invalid request body: " ++ error_text e)))
decoded_start s adapt (ok req) = serve_start s (adapt req)

-- The handlers that start a transition, given the decoded body: `handleCreateTransition` and
-- `handleActionReset` take its operation, the others have one.
unfoldable pub handle_create_transition : PowerServer → Result GoError TransitionRequest → Start
unfolding serve_start
handle_create_transition s body =
    decoded_start s
      (λ req. record req {
        request_id = trim_space req.request_id;
        operation = trim_space req.operation;
      })
      body

unfoldable pub handle_action : Text → PowerServer → Result GoError TransitionRequest → Start
unfolding serve_start
handle_action operation s body =
    decoded_start s
      (λ req. record req { request_id = trim_space req.request_id; operation = operation }) body

abbrev pub handle_action_on : PowerServer → Result GoError TransitionRequest → Start
handle_action_on s body = handle_action (codes "On") s body

abbrev pub handle_action_off : PowerServer → Result GoError TransitionRequest → Start
handle_action_off s body = handle_action (codes "ForceOff") s body

abbrev pub handle_action_reboot : PowerServer → Result GoError TransitionRequest → Start
handle_action_reboot s body = handle_action (codes "ForceRestart") s body

abbrev pub handle_action_reset : PowerServer → Result GoError TransitionRequest → Start
handle_action_reset s body = handle_create_transition s body
