-- ===== src/Engine/System/Sound.antt =====
-- The accounts of all transitions at once.
use chamicore.Prelude.{
  ℕ, suc, ◌+◌, ◌<◌, ◌≡◌, refl, sym, ◌∙◌, subst, inl, inr, true, false, Option, none, some, arith,
  if◌then◌else◌, Option-cases, is_empty, Bool-cases,
}
use chamicore.Text.{Text, ◌=ₛ◌, =ₛ_iff}
use chamicore.Text.Trim.{trim_space}
use chamicore.Dict.{Dict, lookup, insert, lookup-insert, lookup-erase}
use chamicore.Engine.Types.{Progress, TaskState}
use chamicore.Engine.Progress.{
  record_task_outcome, mark_transition_running, abort_transition, start_entry, abort_entry,
  count_down, mark_entry, abort_found, or_nothing, record_entry,
}
use chamicore.Engine.Progress.Accounts.{
  IsAccounted, start_entry-IsAccounted, abort_entry-IsAccounted, count_down-IsAccounted,
}
use chamicore.Engine.Progress.Final.{record_task_outcome-last}
use chamicore.Engine.System.{cancel_context}

-- An entry is accounted, and has as many tasks open as are outstanding, and at least one. Where
-- there is no entry, nothing is outstanding.
abbrev pub Account : Option Progress → ℕ → Type 0
Account none n = n ≡ 0
Account (some p) n = IsAccounted p × (p.remaining ≡ n) × (0 < n)

-- A change of an entry that keeps its accounts.
Account-insert :
    (id j : Text) (p q : Progress) (m : Dict Progress) (n : ℕ)
    → lookup id m ≡ some p
    → (IsAccounted p → IsAccounted q)
    → q.remaining ≡ p.remaining
    → Account (lookup j m) n
    → Account (lookup j (insert id q m)) n
Account-insert id j p q m n found keeps same a =
    subst (λ o. Account o n) (sym (lookup-insert id j q m))
      (elim (Bool-cases (id =ₛ j)) [
        | inl mine ↦
            let at_id = subst (λ t. Account (lookup t m) n) (sym ((=ₛ_iff id j).0 mine)) a in
            let before = subst (λ o. Account o n) found at_id in
            rw mine (keeps before.0, same ∙ before.1, before.2)
        | inr other ↦ rw other a
      ])

mark_entry-Account :
    (now : ℕ) (id j : Text) (m : Dict Progress) (n : ℕ) (o : Option Progress)
    → lookup id m ≡ o
    → Account (lookup j m) n
    → Account (lookup j (mark_entry now id m o).1) n
mark_entry-Account now id j m n none e a = a
mark_entry-Account now id j m n (some p) e a = elim (Bool-cases p.aborted) [
  | inl gone ↦ rw gone a
  | inr on ↦ elim (Bool-cases p.started) [
    | inl done ↦ simp (on, done) a
    | inr first ↦
        simp (on, first)
          (Account-insert id j p (start_entry now p) m n e (start_entry-IsAccounted now p)
            (unfold start_entry in refl) a)
  ]
]

pub mark-Account :
    (now : ℕ) (id j : Text) (m : Dict Progress) (n : ℕ)
    → Account (lookup j m) n
    → Account (lookup j (mark_transition_running now id m).1) n
unfolding mark_transition_running
mark-Account now id j m n a = mark_entry-Account now id j m n (lookup id m) refl a

abort_found-Account :
    (now : ℕ) (id j : Text) (m : Dict Progress) (n : ℕ) (o : Option Progress)
    → lookup id m ≡ o
    → Account (lookup j m) n
    → Account (lookup j (abort_found now id m o).1) n
abort_found-Account now id j m n none e a = a
abort_found-Account now id j m n (some p) e a = elim (Bool-cases p.aborted) [
  | inl gone ↦ rw gone a
  | inr on ↦ simp on (
      Account-insert id j p (abort_entry now p) m n e (abort_entry-IsAccounted now p)
        (unfold abort_entry in refl) a)
]

pub abort-Account :
    (now : ℕ) (id j : Text) (m : Dict Progress) (n : ℕ)
    → Account (lookup j m) n
    → Account (lookup j (abort_transition now id m).1) n
unfolding abort_transition
abort-Account now id j m n a = elim (Bool-cases (is_empty (trim_space id))) [
  | inl blank ↦ rw blank a
  | inr named ↦
      rw named (abort_found-Account now (trim_space id) j m n (lookup (trim_space id) m) refl a)
]

pub cancel_context-Account :
    (id j : Text) (m : Dict Progress) (n : ℕ)
    → Account (lookup j m) n
    → Account (lookup j (cancel_context id m)) n
unfolding cancel_context
cancel_context-Account id j m n a = elim (Option-cases (lookup id m)) [
  | inl missing ↦ rw (missing, cancel_context) a
  | inr (p, found) ↦
      rw (found, cancel_context)
        (Account-insert id j p (record p { context_canceled = true }) m n found
          (λ h. record {
            balanced = h.balanced;
            executable = h.executable;
            missing_failed = h.missing_failed;
          })
          refl a)
]

lookup-record_other :
    (now : ℕ) (id j : Text) (outcome : TaskState) (m : Dict Progress) (o : Option Progress)
    → (id =ₛ j) ≡ false
    → lookup j (or_nothing (record_entry now id outcome m) m o).0 ≡ lookup j m
unfolding record_entry
lookup-record_other now id j outcome m none other = refl
lookup-record_other now id j outcome m (some p) other =
    ground (arith, lookup-erase id j m, lookup-insert id j (count_down outcome p) m)

lookup-record_task_outcome :
    (now : ℕ) (id j : Text) (outcome : TaskState) (m : Dict Progress)
    → (id =ₛ j) ≡ false
    → lookup j (record_task_outcome now id outcome m).0 ≡ lookup j m
unfolding record_task_outcome
lookup-record_task_outcome now id j outcome m other =
    lookup-record_other now id j outcome m (lookup id m) other

-- One outcome recorded for an outstanding task: at its transition one task fewer is outstanding.
record-Account_same :
    (now : ℕ) (id : Text) (outcome : TaskState) (m : Dict Progress) (k : ℕ)
    → Account (lookup id m) (suc k)
    → Account (lookup id (record_task_outcome now id outcome m).0) k
record-Account_same now id outcome m k a = elim (Option-cases (lookup id m)) [
  | inl missing ↦
      let zero_is_suc = subst (λ o. Account o (suc k)) missing a in
      absurd (omega (arith, zero_is_suc))
  | inr (p, found) ↦
      let (h, same, some_left) = subst (λ o. Account o (suc k)) found a in
      elim (record_task_outcome-last now id outcome m p found h (omega (arith, same))) [
        | inl (more, quiet, kept, less) ↦
            subst (λ o. Account o k) (sym kept)
              (
                count_down-IsAccounted outcome p h (omega (arith, same)),
                omega (arith, same, less),
                omega (arith, same, more),
              )
        | inr (one, gone, written) ↦ subst (λ o. Account o k) (sym gone) (omega (arith, same, one))
      ]
]

pub record-Account :
    (now : ℕ) (id j : Text) (outcome : TaskState) (m : Dict Progress) (n : ℕ)
    → Account (lookup j m) ((if id =ₛ j then 1 else 0) + n)
    → Account (lookup j (record_task_outcome now id outcome m).0) n
record-Account now id j outcome m n a = elim (Bool-cases (id =ₛ j)) [
  | inl mine ↦
      let same = (=ₛ_iff id j).0 mine in
      let a' : Account (lookup j m) (suc n) =
        subst (Account (lookup j m)) (rw mine (omega arith)) a in
      subst (λ t. Account (lookup t (record_task_outcome now id outcome m).0) n) same
        (record-Account_same now id outcome m n
          (subst (λ t. Account (lookup t m) (suc n)) (sym same) a'))
  | inr other ↦
      subst (λ o. Account o n) (sym (lookup-record_task_outcome now id j outcome m other))
        (subst (Account (lookup j m)) (rw other (omega arith)) a)
]
