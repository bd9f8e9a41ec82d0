-- ===== src/Engine/Retry.antt =====
-- `executeWithRetry` of runner.go. The executor and the sleep are functions of the attempt: what
-- they return at that attempt, `none` for nil.
use chamicore.Prelude.{
  ℕ, zero, suc, ◌+◌, ◌-◌, ◌≤◌, ◌<◌, ◌≡◌, ◌⊎◌, inl, inr, ◌≢◌, true, false, ◌||◌, not, Option, none,
  some, arith, ◌==◌, Bool-cases, Option-cases, subst,
}
use native.Mathlib.Decide.{ℕ_discrete}
use chamicore.Text.{codes}
use chamicore.Prelude.Int.{ℤ, pos, pos_part, ◌≤ℤ◌}
use chamicore.GoError.{GoError, message}
use chamicore.Engine.Errors.{is_retryable_error}
use chamicore.Engine.Config.{RuntimeConfig}
use chamicore.Engine.Backoff.{Machine, retry_delay}

pub record Attempts : Type 0 where
  pub execute : ℕ → Option GoError
  pub sleep : ℕ → ℤ → Option GoError

abbrev pub exhausted : GoError
exhausted = message (codes "exhausted retries without execution")

-- The loop, with the rounds that are left.
unfoldable pub retry_from :
    (ℕ → Option GoError) → (ℕ → Option GoError) → ℕ → ℕ → ℕ → ℕ × Option GoError
retry_from execute pause limit attempt zero = (attempt - 1, some exhausted)
retry_from execute pause limit attempt (suc left) = elim (execute attempt) [
  | none ↦ (attempt, none)
  | some e ↦ elim (attempt == limit || not (is_retryable_error e)) [
    | true ↦ (attempt, some e)
    | false ↦ elim (pause attempt) [
      | some interrupted ↦ (attempt, some interrupted)
      | none ↦ retry_from execute pause limit (suc attempt) left
    ]
  ]
]

-- `executeWithRetry`: the attempts that were made, and the error.
unfoldable pub execute_with_retry :
    Machine → RuntimeConfig → (ℤ → ℤ) → Attempts → ℕ × Option GoError
unfolding retry_from
execute_with_retry machine rc jitter a =
    let limit = pos_part rc.retry_attempts in
    retry_from a.execute (λ n. a.sleep n (retry_delay machine rc jitter n)) limit 1 limit

-- An attempt after which the loop goes on: it failed, its error may be retried, it was not the
-- last, and the pause was not cut short.
abbrev pub GoesOn : (ℕ → Option GoError) → (ℕ → Option GoError) → ℕ → ℕ → Type 0
GoesOn execute pause limit k =
    (e : GoError) × (execute k ≡ some e)
    × (is_retryable_error e ≡ true)
    × (k ≢ limit)
    × (pause k ≡ none)

-- How the loop may end at attempt n with the given error.
abbrev pub EndsWith : (ℕ → Option GoError) → (ℕ → Option GoError) → ℕ → ℕ → Option GoError → Type 0
EndsWith execute pause limit n none = execute n ≡ none
EndsWith execute pause limit n (some e) =
    ((execute n ≡ some e) × ((n ≡ limit) ⊎ (is_retryable_error e ≡ false)))
    ⊎ ((pause n ≡ some e) × (n < limit) × (execute n ≢ none))

-- The run that a result stands for.
pub record Explained (execute pause : ℕ → Option GoError) (limit first : ℕ) (r : ℕ × Option GoError)
    : Type 0 where
  pub from_first : first ≤ r.0
  pub to_limit : r.0 ≤ limit
  pub ending : EndsWith execute pause limit r.0 r.1
  pub went_on : (k : ℕ) → first ≤ k → k < r.0 → GoesOn execute pause limit k

module _ (execute pause : ℕ → Option GoError) (limit : ℕ) where
  went_on-suc :
      (attempt n : ℕ)
      → GoesOn execute pause limit attempt
      → ((k : ℕ) → suc attempt ≤ k → k < n → GoesOn execute pause limit k)
      → (k : ℕ) → attempt ≤ k
      → k < n
      → GoesOn execute pause limit k
  went_on-suc attempt n here later k lo hi = elim (ℕ_discrete attempt k) [
    | yes same ↦ subst (GoesOn execute pause limit) same here
    | no other ↦ later k (omega arith) hi
  ]

  retry_from-Explained :
      (attempt left : ℕ)
      → attempt + left ≡ limit + 1
      → attempt ≤ limit
      → Explained execute pause limit attempt (retry_from execute pause limit attempt left)
  unfolding retry_from
  retry_from-Explained attempt zero h k = absurd (omega arith)
  retry_from-Explained attempt (suc left) h k = elim (Option-cases (execute attempt)) [
    | inl done ↦
        rw (done, retry_from)
          (record {
            from_first = omega arith;
            to_limit = k;
            ending = done;
            went_on = λ n lo hi. absurd (omega arith);
          })
    | inr (e, failed) ↦ elim (Bool-cases (attempt == limit || not (is_retryable_error e))) [
      | inl last ↦
          rw (failed, last, retry_from)
            (record {
              from_first = omega arith;
              to_limit = k;
              ending = inl (failed, ground arith);
              went_on = λ n lo hi. absurd (omega arith);
            })
      | inr again ↦ elim (Option-cases (pause attempt)) [
        | inr (interrupted, cut) ↦
            rw (failed, again, cut, retry_from)
              (record {
                from_first = omega arith;
                to_limit = k;
                ending = inr (cut, ground arith, cc);
                went_on = λ n lo hi. absurd (omega arith);
              })
        | inl slept ↦
            let rest = retry_from-Explained (suc attempt) left (omega arith) (ground arith) in
            rw (failed, again, slept, retry_from)
              (record {
                from_first = omega (arith, rest.from_first);
                to_limit = rest.to_limit;
                ending = rest.ending;
                went_on =
                    went_on-suc attempt _ (e, failed, ground arith, ground arith, slept)
                      rest.went_on;
              })
      ]
    ]
  ]

-- With at least one attempt configured, the loop makes between one and the configured number of
-- attempts. It returns nil exactly by an attempt that succeeded, and an error either of an attempt
-- that was the last or may not be retried, or of an interrupted pause before the last attempt; and
-- every earlier attempt failed with an error that may be retried and was followed by its pause. So
-- the fall-through error after the loop is never made up.
pub execute_with_retry-Explained :
    (machine : Machine) (rc : RuntimeConfig) (jitter : ℤ → ℤ) (a : Attempts)
    → pos 1 ≤ℤ rc.retry_attempts
    → Explained a.execute
        (λ n. a.sleep n (retry_delay machine rc jitter n))
        (pos_part rc.retry_attempts)
        1
        (execute_with_retry machine rc jitter a)
unfolding execute_with_retry
execute_with_retry-Explained machine rc jitter a h =
    retry_from-Explained a.execute (λ n. a.sleep n (retry_delay machine rc jitter n))
      (pos_part rc.retry_attempts) 1 (pos_part rc.retry_attempts) (omega arith) (omega arith)
