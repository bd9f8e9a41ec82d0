-- ===== src/Server/Transitions/Started.antt =====
-- What a request must pass before the runner is asked to start a transition.
use chamicore.Prelude.{
  ◌≡◌, refl, Bool, true, false, ◌||◌, List, none, some, arith, Result, ok, err, length, is_empty,
  inl, inr, Option-cases,
}
use chamicore.Prelude.Int.{pos, ltb_ℤ}
use chamicore.Text.{Text}
use chamicore.Text.Order.{IsAscending}
use chamicore.Text.Unique.{contains}
use chamicore.GoError.{GoError}
use chamicore.Engine.Types.{StartRequest, ResetOperation}
use chamicore.Server.Targets.{resolve_targets, parse_target_list, in_groups, resolve_targets-exact}
use chamicore.Server.Transitions.{PowerServer, TransitionRunner}
use chamicore.Server.Transitions.Starting.{
  TransitionRequest, Start, request_of, unless_over, limited, start_parsed, serve_start,
}

-- The targets of a request that is started.
abbrev pub IsTargeted : PowerServer → TransitionRequest → List Text → Type 0
IsTargeted s req targets =
    IsAscending targets
    × (is_empty targets ≡ false)
    × (ltb_ℤ s.bulk_max_nodes (pos (length targets)) ≡ false)
    × ((t : Text)
        → contains targets t ≡ (
            contains (parse_target_list req.nodes) t
            || in_groups s.resolve_group_members (parse_target_list req.groups) t))

abbrev pub IsAsked : PowerServer → TransitionRequest → StartRequest → Type 0
IsAsked s req asked =
    (operation : ResetOperation) × (targets : List Text) × (s.parse_operation req.operation
      ≡ ok operation)
    × IsTargeted s req targets
    × (some (request_of s req operation targets) ≡ some asked)

unless_over-asked :
    (over : Bool) (refusal goes_on : Start) (asked : StartRequest)
    → refusal.asked ≡ none
    → (unless_over over refusal goes_on).asked ≡ some asked
    → (over ≡ false) × (goes_on.asked ≡ some asked)
unless_over-asked true refusal goes_on asked r h = absurd (ground (arith, h, r))
unless_over-asked false refusal goes_on asked r h = (refl, h)

limited-asked :
    (s : PowerServer) (runner : TransitionRunner) (req : TransitionRequest)
    (operation : ResetOperation) (r : Result GoError (List Text)) (asked : StartRequest)
    → (limited s runner req operation r).asked ≡ some asked
    → (targets : List Text) × (r ≡ ok targets)
      × (ltb_ℤ s.bulk_max_nodes (pos (length targets)) ≡ false)
      × (some (request_of s req operation targets) ≡ some asked)
limited-asked s runner req operation (err e) asked h = absurd (ground (arith, h))
limited-asked s runner req operation (ok targets) asked h =
    let (within, same) =
      unless_over-asked (ltb_ℤ s.bulk_max_nodes (pos (length targets))) _ _ asked refl h in
    (targets, refl, within, same)

start_parsed-asked :
    (s : PowerServer) (runner : TransitionRunner) (req : TransitionRequest)
    (r : Result GoError ResetOperation) (asked : StartRequest)
    → (start_parsed s runner req r).asked ≡ some asked
    → (operation : ResetOperation) × (r ≡ ok operation)
      × ((limited s runner req operation
            (resolve_targets s.resolve_group_members req.nodes req.groups)).asked
          ≡ some asked)
start_parsed-asked s runner req (err e) asked h = absurd (ground (arith, h))
start_parsed-asked s runner req (ok operation) asked h = (operation, refl, h)

runner-IsAsked :
    (s : PowerServer) (runner : TransitionRunner) (req : TransitionRequest) (asked : StartRequest)
    → (start_parsed s runner req (s.parse_operation req.operation)).asked ≡ some asked
    → IsAsked s req asked
runner-IsAsked s runner req asked h =
    let (operation, parsed, h1) =
      start_parsed-asked s runner req (s.parse_operation req.operation) asked h in
    let (targets, resolved, within, same) =
      limited-asked s runner req operation
        (resolve_targets s.resolve_group_members req.nodes req.groups) asked h1 in
    let (ascending, filled, exact) =
      resolve_targets-exact s.resolve_group_members req.nodes req.groups resolved in
    (operation, targets, parsed, (ascending, filled, within, exact), same)

-- The runner is asked to start a transition only for a request whose operation parses and whose
-- targets, which are the nodes that it lists and the members of the groups that it lists, are at least
-- one and no more than the limit; it is asked for them in ascending order, each once, under the name
-- of the operation, with the identifier, the subject and the mark of a dry run of the request.
pub serve_start-IsAsked :
    (s : PowerServer) (req : TransitionRequest) (asked : StartRequest)
    → (serve_start s req).asked ≡ some asked
    → IsAsked s req asked
unfolding serve_start
serve_start-IsAsked s req asked h = elim (Option-cases s.transition_runner) [
  | inl e ↦ absurd (ground (arith, h, e))
  | inr (runner, e) ↦ runner-IsAsked s runner req asked (ground (arith, h, e))
]
