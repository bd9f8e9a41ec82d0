-- ===== src/Engine/Start/Counts.antt =====
-- The plan of a transition: a task for every node, and its counters.
use chamicore.Prelude.{
  ◌+◌, ◌≡◌, refl, sym, ◌∙◌, true, false, List, [], ◌∷◌, ◌++◌, Option, none, some, map, arith,
  length, count_if, length-append, count_if-append, not, ◌&&◌, is_empty, ap, if◌then◌else◌,
}
use mathlib.Core.List.{append_assoc, map-append, append-nil}
use chamicore.Text.{Text}
use chamicore.Text.Trim.{trim_space}
use chamicore.Text.Order.{IsAscending}
use chamicore.Text.Unique.{
  contains, contains-sort_strings, contains-normalized_unique, normalized_unique-IsDistinct,
  sort_strings-IsAscending,
}
use chamicore.Dict.{Dict, lookup}
use chamicore.Model.{NodePowerMapping, NodeMappingError}
use chamicore.Engine.Types.{Task}
use chamicore.Engine.Start.{
  normalize_node_ids, Request, plan_task, is_pending, is_failed, Plan, add_task, plan_tasks,
  plan_for, no_plan, mapping_by_node, missing_by_node,
}

-- The targets of a request are what its node identifiers trim to, without the blank one, each once and
-- in ascending order.
pub normalize_node_ids-targets :
    (node_ids : List Text)
    → IsAscending (normalize_node_ids node_ids)
      × ((t : Text)
          → contains (normalize_node_ids node_ids) t
            ≡ (not (is_empty t) && contains (map trim_space node_ids) t))
unfolding normalize_node_ids
normalize_node_ids-targets node_ids = (
  sort_strings-IsAscending _ (normalized_unique-IsDistinct node_ids),
  λ t. contains-sort_strings _ t ∙ contains-normalized_unique node_ids t,
)

abbrev pub node_of : Task → Text
node_of t = t.node_id

-- A plan whose counters are those of its tasks, of which each failed or, unless it is only planned,
-- is pending.
pub record IsCounted (q : Request) (plan : Plan) : Type 0 where
  pub failures : plan.failure_count ≡ count_if (λ (t : Task). is_failed t.state) plan.tasks
  pub pendings : plan.pending_count ≡ count_if (λ (t : Task). is_pending t.state) plan.tasks
  pub all_counted : q.dry_run ≡ false → plan.failure_count + plan.pending_count ≡ length plan.tasks
  pub none_pending : q.dry_run ≡ true → plan.pending_count ≡ 0

-- A task that failed, is pending, or is planned in a dry run.
abbrev Fits : Request → Task → Type 0
Fits q t =
    (q.dry_run ≡ false
      → (if is_failed t.state then 1 else 0) + (if is_pending t.state then 1 else 0) ≡ 1)
    × (q.dry_run ≡ true → is_pending t.state ≡ false)

plan_task-Fits :
    (q : Request) (node_id : Text) (missing : Option NodeMappingError)
    (mapping : Option NodePowerMapping)
    → Fits q (plan_task q node_id missing mapping)
unfolding plan_task
plan_task-Fits q node_id (some e) mapping = ((λ d. refl), (λ d. refl))
plan_task-Fits q node_id none none = ((λ d. refl), (λ d. refl))
plan_task-Fits q node_id none (some m) = ((λ d. ground arith), (λ d. ground arith))

add_task-IsCounted :
    (q : Request) (plan : Plan) (t : Task)
    → Fits q t
    → IsCounted q plan
    → IsCounted q (add_task plan t)
unfolding add_task
add_task-IsCounted q plan t fits h = record {
  failures =
      ground
        (arith, h.failures, count_if-append (λ (t : Task). is_failed t.state) plan.tasks (t ∷ []));
  pendings =
      ground
        (arith, h.pendings, count_if-append (λ (t : Task). is_pending t.state) plan.tasks (t ∷ []));
  all_counted = λ d. ground (arith, h.all_counted d, fits.0 d, length-append plan.tasks (t ∷ []));
  none_pending = λ d. ground (arith, h.none_pending d, fits.1 d);
}

no_plan-IsCounted : (q : Request) → IsCounted q no_plan
no_plan-IsCounted q = record {
  failures = refl;
  pendings = refl;
  all_counted = λ d. refl;
  none_pending = λ d. refl;
}

plan_tasks-IsCounted :
    (q : Request) (mappings : Dict NodePowerMapping) (missing : Dict NodeMappingError) (plan : Plan)
    (node_ids : List Text)
    → IsCounted q plan
    → IsCounted q (plan_tasks q mappings missing plan node_ids)
unfolding plan_tasks
plan_tasks-IsCounted q mappings missing plan [] h = h
plan_tasks-IsCounted q mappings missing plan (n ∷ ns) h =
    plan_tasks-IsCounted q mappings missing
      (add_task plan (plan_task q n (lookup n missing) (lookup n mappings))) ns
      (add_task-IsCounted q plan _ (plan_task-Fits q n (lookup n missing) (lookup n mappings)) h)

plan_task-node :
    (q : Request) (n : Text) (missing : Option NodeMappingError) (mapping : Option NodePowerMapping)
    → (plan_task q n missing mapping).node_id ≡ n
unfolding plan_task
plan_task-node q n (some e) mapping = refl
plan_task-node q n none none = refl
plan_task-node q n none (some m) = refl

plan_tasks-nodes :
    (q : Request) (mappings : Dict NodePowerMapping) (missing : Dict NodeMappingError) (plan : Plan)
    (node_ids : List Text)
    → map node_of (plan_tasks q mappings missing plan node_ids).tasks
      ≡ map node_of plan.tasks ++ node_ids
unfolding plan_tasks add_task
plan_tasks-nodes q mappings missing plan [] = sym (append-nil _)
plan_tasks-nodes q mappings missing plan (n ∷ ns) =
    plan_tasks-nodes q mappings missing
      (add_task plan (plan_task q n (lookup n missing) (lookup n mappings))) ns
    ∙ simp (map-append, append_assoc, plan_task-node)

length-map-node : (ts : List Task) → length (map node_of ts) ≡ length ts
length-map-node [] = refl
length-map-node (t ∷ ts) = omega (arith, length-map-node ts)

-- The plan has one task for each target, in the order of the targets. Its two counters are the numbers
-- of its failed and of its pending tasks; they add up to the number of targets unless it is a dry run,
-- in which nothing is pending.
pub plan_for-counts :
    (q : Request) (mappings : List NodePowerMapping) (missing : List NodeMappingError)
    (node_ids : List Text)
    → let plan = plan_for q mappings missing node_ids in
      (map node_of plan.tasks ≡ node_ids)
      × (plan.failure_count ≡ count_if (λ (t : Task). is_failed t.state) plan.tasks)
      × (plan.pending_count ≡ count_if (λ (t : Task). is_pending t.state) plan.tasks)
      × (q.dry_run ≡ false → plan.failure_count + plan.pending_count ≡ length node_ids)
      × (q.dry_run ≡ true → plan.pending_count ≡ 0)
unfolding plan_for
plan_for-counts q mappings missing node_ids =
    let by_node = mapping_by_node [] mappings in
    let errors = missing_by_node [] missing in
    let plan = plan_tasks q by_node errors no_plan node_ids in
    let h = plan_tasks-IsCounted q by_node errors no_plan node_ids (no_plan-IsCounted q) in
    let nodes : map node_of plan.tasks ≡ node_ids =
      plan_tasks-nodes q by_node errors no_plan node_ids in
    (
      nodes,
      h.failures,
      h.pendings,
      (λ d. h.all_counted d ∙ sym (length-map-node plan.tasks) ∙ ap length nodes),
      h.none_pending,
    )
