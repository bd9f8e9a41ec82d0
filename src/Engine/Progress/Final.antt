-- ===== src/Engine/Progress/Final.antt =====
-- The final state of a transition, by the share of its targets that succeeded.
use chamicore.Prelude.{
  ℕ, ◌+◌, ◌≤◌, ◌<◌, ◌≡◌, refl, ◌↔◌, ◌⊎◌, inl, inr, none, some, arith, Bool-cases, leb, leb→le,
}
use chamicore.Text.{Text, =ₛ_refl}
use chamicore.Dict.{Dict, lookup, lookup-insert, lookup-erase}
use chamicore.Engine.Types.{Progress, Transition, TransitionState, TaskState, completed, partial}
use chamicore.Engine.Progress.{
  final_transition_state, count_down, finish, record_entry, record_task_outcome,
}
use chamicore.Engine.Progress.Accounts.{IsAccounted, count_down-IsAccounted, remaining-count_down}

-- When no task of an accounted transition is open, its final state is `completed` exactly when every
-- target succeeded, `partial` exactly when some did and some did not, `canceled` exactly when every
-- target was canceled, and `failed` in all other cases.
pub final_transition_state_iff :
    (p : Progress)
    → IsAccounted p
    → p.remaining ≡ 0
    → 0 < p.transition.target_count
    → ((final_transition_state p ≡ completed)
        ↔ (p.transition.success_count ≡ p.transition.target_count))
      × ((final_transition_state p ≡ partial) ↔ (
          (0 < p.transition.success_count)
          × (p.transition.success_count < p.transition.target_count)))
      × ((final_transition_state p ≡ TransitionState.canceled)
          ↔ (p.canceled_count ≡ p.transition.target_count))
      × ((final_transition_state p ≡ TransitionState.failed)
          ↔ ((p.transition.success_count ≡ 0) × (p.canceled_count < p.transition.target_count)))
unfolding final_transition_state
final_transition_state_iff p h k l = (ground arith, ground arith, ground arith, ground arith)

module _ (now : ℕ) (id : Text) (outcome : TaskState) (m : Dict Progress) (p : Progress) where
  record_entry_last :
      p.remaining ≤ 1
      → (lookup id (record_entry now id outcome m p).0 ≡ none)
        × ((record_entry now id outcome m p).1
            ≡ some (finish now (count_down outcome p)).transition)
  unfolding record_entry
  record_entry_last k =
      ground (arith, remaining-count_down outcome p, lookup-erase id id m, =ₛ_refl id)

  record_entry_more :
      1 < p.remaining
      → (lookup id (record_entry now id outcome m p).0 ≡ some (count_down outcome p))
        × ((record_entry now id outcome m p).1 ≡ none)
  unfolding record_entry
  record_entry_more k = ground (
    arith,
    remaining-count_down outcome p,
    lookup-insert id id (count_down outcome p) m,
    =ₛ_refl id,
  )

-- What `recordTaskOutcome` does to an accounted entry with open tasks: with more than one open it
-- writes nothing and keeps the entry with one task fewer; with one open it removes the entry and
-- writes a transition with a completion time, whose successes and failures are all its targets and
-- whose state is the final state of the counted entry.
pub record_task_outcome-last :
    (now : ℕ) (id : Text) (outcome : TaskState) (m : Dict Progress) (p : Progress)
    → lookup id m ≡ some p
    → IsAccounted p
    → 0 < p.remaining
    → let r = record_task_outcome now id outcome m in
      ((1 < p.remaining)
        × (r.1 ≡ none)
        × (lookup id r.0 ≡ some (count_down outcome p))
        × ((count_down outcome p).remaining + 1 ≡ p.remaining))
      ⊎ ((p.remaining ≡ 1)
          × (lookup id r.0 ≡ none)
          × ((t : Transition) × (r.1 ≡ some t)
              × (t.completed_at ≡ some now)
              × (t.success_count + t.failure_count ≡ t.target_count)
              × (t.state ≡ final_transition_state (count_down outcome p))))
unfolding record_task_outcome
record_task_outcome-last now id outcome m p e h k = elim (Bool-cases (leb p.remaining 1)) [
  | inl last ↦
      let removed = record_entry_last now id outcome m p (leb→le _ _ last) in
      inr (
        omega (arith, leb→le _ _ last),
        rw e removed.0,
        (
          (finish now (count_down outcome p)).transition,
          rw e removed.1,
          unfold finish in refl,
          unfold finish in
              omega (
                arith,
                (count_down-IsAccounted outcome p h k).balanced,
                remaining-count_down outcome p,
                leb→le _ _ last,
              ),
          unfold finish in refl,
        ),
      )
  | inr more ↦
      let kept = record_entry_more now id outcome m p (ground arith) in
      inl (ground arith, rw e kept.1, rw e kept.0, omega (arith, remaining-count_down outcome p))
]
