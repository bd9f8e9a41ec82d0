-- ===== src/Server/Status/Shown.antt =====
-- The statuses that are shown, with the store of transitions behind them.
use chamicore.Prelude.{
  ◌≡◌, refl, sym, ◌∙◌, ap, subst, Bool, true, false, List, [], ◌∷◌, map, Option, none, some, arith,
  Result, ok, err, All, ok-injective, length,
}
use chamicore.Prelude.Int.{pos, ltb_ℤ}
use chamicore.Text.{Text, =ₛ_iff}
use chamicore.Text.Unique.{contains}
use chamicore.Dict.{Dict, lookup}
use chamicore.GoError.{GoError}
use chamicore.Model.{NodePowerMapping, NodeMappingError}
use chamicore.Engine.Types.{Task, ResetOperation}
use chamicore.Store.Transitions.{TransitionTables, TransitionSession}
use chamicore.Store.Transitions.Query.{values, list_latest_transition_tasks_by_node}
use chamicore.Store.Transitions.Latest.{IsLatest, list_latest-IsLatestByNode}
use chamicore.Server.Targets.{resolve_targets}
use chamicore.Server.Transitions.{PowerServer, Answer}
use chamicore.Server.Status.{
  PowerNodeStatus, StatusStore, missing_details, task_by_node, status_with, statuses, status_unless,
  with_mappings, with_latest, with_targets, handle_get_power_status,
}
use chamicore.Server.Status.Asked.{resolve_targets-IsClean}
use chamicore.Server.Status.Recent.{task_by_node-IsLatest}

status_with-node_id :
    (parse : Text → Result GoError ResetOperation) (n : Text) (detail : Option Text)
    (task : Option Task)
    → (status_with parse n detail task).node_id ≡ n
status_with-node_id parse n (some detail) task = refl
status_with-node_id parse n none none = refl
status_with-node_id parse n none (some t) = refl

module _ (parse : Text → Result GoError ResetOperation) (missing : List NodeMappingError)
    (rows : List Task) where
  -- The status of a node: of the problem of its mapping if there is one, and of its latest row.
  abbrev pub IsStatus : PowerNodeStatus → Type 0
  IsStatus status =
      (latest : Option Task) × IsLatest status.node_id rows latest
      × (status
          ≡ status_with parse status.node_id (lookup status.node_id (missing_details [] missing))
              latest)

  status_with-IsStatus :
      (n : Text) (task : Option Task)
      → IsLatest n rows task
      → IsStatus (status_with parse n (lookup n (missing_details [] missing)) task)
  status_with-IsStatus n task latest =
      let status = status_with parse n (lookup n (missing_details [] missing)) task in
      let same : n ≡ status.node_id =
        sym (status_with-node_id parse n (lookup n (missing_details [] missing)) task) in
      (
        task,
        subst (λ m. IsLatest m rows task) same latest,
        ap (λ m. status_with parse m (lookup m (missing_details [] missing)) task) same,
      )

  statuses-IsStatus :
      (tasks : Dict Task) (nodes : List Text)
      → ((n : Text) → contains nodes n ≡ true → IsLatest n rows (lookup n tasks))
      → All IsStatus (statuses parse (missing_details [] missing) tasks nodes)
  unfolding statuses contains
  statuses-IsStatus tasks [] latest = tt
  statuses-IsStatus tasks (n ∷ nodes) latest = (
    status_with-IsStatus n (lookup n tasks) (latest n (ground (arith, (=ₛ_iff n n).1 refl))),
    statuses-IsStatus tasks nodes (λ m there. latest m (ground (arith, there))),
  )

statuses-nodes :
    (parse : Text → Result GoError ResetOperation) (missing : Dict Text) (tasks : Dict Task)
    (nodes : List Text)
    → map (λ status. status.node_id) (statuses parse missing tasks nodes) ≡ nodes
unfolding statuses
statuses-nodes parse missing tasks [] = refl
statuses-nodes parse missing tasks (n ∷ nodes) =
    ap (λ x. x ∷ map (λ status. status.node_id) (statuses parse missing tasks nodes))
      (status_with-node_id parse n (lookup n missing) (lookup n tasks))
    ∙ ap (λ xs. n ∷ xs) (statuses-nodes parse missing tasks nodes)

-- What a response comes from: its targets, which are not over the limit, the tasks that the one store
-- answered for them and the problems of mappings that the other did.
abbrev IsAnswered :
    PowerServer → StatusStore → Result GoError (List Text) → List PowerNodeStatus → Type 0
IsAnswered s store resolved shown =
    (targets : List Text) × (latest : List Task) × (mapped : List NodePowerMapping)
    × (missing : List NodeMappingError) × (resolved ≡ ok targets)
    × (ltb_ℤ s.bulk_max_nodes (pos (length targets)) ≡ false)
    × (store.latest targets ≡ ok latest)
    × (store.resolve targets ≡ ok (mapped, missing))
    × (statuses s.parse_operation (missing_details [] missing) (task_by_node [] latest) targets
        ≡ shown)

status_unless-ok :
    (over : Bool) (refusal : Answer) (goes_on : Result Answer (List PowerNodeStatus))
    (shown : List PowerNodeStatus)
    → status_unless over refusal goes_on ≡ ok shown
    → (over ≡ false) × (goes_on ≡ ok shown)
status_unless-ok true refusal goes_on shown h = absurd (ground (arith, h))
status_unless-ok false refusal goes_on shown h = (refl, h)

with_mappings-ok :
    (s : PowerServer) (targets : List Text) (latest : List Task)
    (r : Result GoError (List NodePowerMapping × List NodeMappingError))
    (shown : List PowerNodeStatus)
    → with_mappings s targets latest r ≡ ok shown
    → (mapped : List NodePowerMapping) × (missing : List NodeMappingError) × (r
        ≡ ok (mapped, missing))
      × (statuses s.parse_operation (missing_details [] missing) (task_by_node [] latest) targets
          ≡ shown)
with_mappings-ok s targets latest (err e) shown h = absurd (ground (arith, h))
with_mappings-ok s targets latest (ok (mapped, missing)) shown h =
    (mapped, missing, refl, ok-injective h)

with_latest-ok :
    (s : PowerServer) (store : StatusStore) (targets : List Text) (r : Result GoError (List Task))
    (shown : List PowerNodeStatus)
    → with_latest s store targets r ≡ ok shown
    → (latest : List Task) × (r ≡ ok latest)
      × (with_mappings s targets latest (store.resolve targets) ≡ ok shown)
with_latest-ok s store targets (err e) shown h = absurd (ground (arith, h))
with_latest-ok s store targets (ok latest) shown h = (latest, refl, h)

with_targets-ok :
    (s : PowerServer) (store : StatusStore) (r : Result GoError (List Text))
    (shown : List PowerNodeStatus)
    → with_targets s store r ≡ ok shown
    → IsAnswered s store r shown
with_targets-ok s store (err e) shown h = absurd (ground (arith, h))
with_targets-ok s store (ok targets) shown h =
    let (within, h1) =
      status_unless-ok (ltb_ℤ s.bulk_max_nodes (pos (length targets))) _
        (with_latest s store targets (store.latest targets)) shown h in
    let (latest, read, h2) = with_latest-ok s store targets (store.latest targets) shown h1 in
    let (mapped, missing, told, same) =
      with_mappings-ok s targets latest (store.resolve targets) shown h2 in
    (targets, latest, mapped, missing, refl, within, read, told, same)

-- The stores of a server whose transitions are in a database.
abbrev pub status_store :
    TransitionSession
    → TransitionTables
    → (List Text → Result GoError (List NodePowerMapping × List NodeMappingError))
    → StatusStore
status_store session db resolve = record {
  latest = λ nodes. list_latest_transition_tasks_by_node session nodes db;
  resolve = resolve;
}

-- What is shown for the targets of a request.
abbrev pub IsShown :
    PowerServer
    → TransitionTables
    → (List Text → Result GoError (List NodePowerMapping × List NodeMappingError))
    → Result GoError (List Text)
    → List PowerNodeStatus
    → Type 0
IsShown s db resolve resolved shown =
    (targets : List Text) × (mapped : List NodePowerMapping) × (missing : List NodeMappingError)
    × (resolved ≡ ok targets)
    × (ltb_ℤ s.bulk_max_nodes (pos (length targets)) ≡ false)
    × (resolve targets ≡ ok (mapped, missing))
    × (map (λ status. status.node_id) shown ≡ targets)
    × All (IsStatus s.parse_operation missing (values db.tasks)) shown

-- Where the transitions are in the database, a response with statuses has one for each target of the
-- request, in their order, and no more targets than the limit; each is the status with the problem
-- that the mapping of its node was answered with, and where there is none, the status of the node's
-- latest row of the database, than which none was updated later, nor at the same time and created
-- later, or the unknown status where the node has no row.
pub handle_get_power_status-IsShown :
    (s : PowerServer) (session : TransitionSession) (db : TransitionTables)
    (resolve : List Text → Result GoError (List NodePowerMapping × List NodeMappingError))
    (nodes groups : List Text) (shown : List PowerNodeStatus)
    → handle_get_power_status s (some (status_store session db resolve)) nodes groups ≡ ok shown
    → IsShown s db resolve (resolve_targets s.resolve_group_members nodes groups) shown
unfolding handle_get_power_status
handle_get_power_status-IsShown s session db resolve nodes groups shown h =
    let (targets, latest, mapped, missing, resolved, within, read, told, same) =
      with_targets-ok s (status_store session db resolve)
        (resolve_targets s.resolve_group_members nodes groups) shown h in
    let rows = list_latest-IsLatestByNode session targets db latest read in
    (
      targets,
      mapped,
      missing,
      resolved,
      within,
      told,
      ap (map (λ status. status.node_id)) (sym same)
          ∙ statuses-nodes s.parse_operation (missing_details [] missing) (task_by_node [] latest)
              targets,
      subst (All (IsStatus s.parse_operation missing (values db.tasks))) same (
          statuses-IsStatus s.parse_operation missing (values db.tasks) (task_by_node [] latest)
            targets
            (λ n there.
              task_by_node-IsLatest targets (values db.tasks) latest n rows
                (resolve_targets-IsClean s.resolve_group_members nodes groups targets n resolved
                  there)
                there)),
    )
