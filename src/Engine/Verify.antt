-- ===== src/Engine/Verify.antt =====
-- services/chamicore-power/internal/engine/verify.go.
use chamicore.Prelude.{
  ℕ, zero, suc, ◌+◌, ◌*◌, ◌≤◌, ◌<◌, ◌≡◌, Bool, true, false, [], ◌++◌, Option, none, some, arith,
  Result, ok, err, if◌then◌else◌, Result-cases, Bool-cases, inl, inr, sym, subst, ◌≢◌, Option-cases,
}
use native.Mathlib.Decide.{ℕ_discrete}
use chamicore.Prelude.Int.{ℤ, pos, ltb_ℤ}
use chamicore.Text.{Text, codes}
use chamicore.Text.Trim.{trim_space}
use chamicore.Text.Fold.{equal_fold}
use chamicore.Text.Quote.{quoted}
use chamicore.GoError.{GoError, sentinel, wrapped, unsupported_operation, verification_timeout}
use chamicore.Engine.Config.{second, or_default}
use chamicore.Engine.Types.{
  ResetOperation, on, graceful_restart, force_restart, nmi, force_off, graceful_shutdown, other,
}

pub record Verifier : Type 0 where
  pub window : ℤ
  pub poll_interval : ℤ

abbrev pub default_verification_window : ℤ
default_verification_window = pos (90 * second)

abbrev pub default_verification_poll : ℤ
default_verification_poll = pos (2 * second)

-- `NewVerifier`, without the reader.
unfoldable pub new_verifier : ℤ → ℤ → Verifier
new_verifier window poll =
    let w = or_default window default_verification_window in
    let p = or_default poll default_verification_poll in
    record { window = w; poll_interval = if ltb_ℤ w p then w else p }

-- `expectedFinalPowerState`; `name` spells an operation.
unfoldable pub expected_final_power_state :
    (ResetOperation → Text) → ResetOperation → Result GoError Text
expected_final_power_state name on = ok (codes "On")
expected_final_power_state name graceful_restart = ok (codes "On")
expected_final_power_state name force_restart = ok (codes "On")
expected_final_power_state name nmi = ok (codes "On")
expected_final_power_state name force_off = ok (codes "Off")
expected_final_power_state name graceful_shutdown = ok (codes "Off")
expected_final_power_state name (other op) =
    err (wrapped [] (sentinel unsupported_operation) (codes ": " ++ quoted (name (other op))))

-- What the loop meets at its n-th round: what the reader returns, the error of the window's context
-- just after, and whether the poll timer comes before the end of that context.
pub record PowerReads : Type 0 where
  pub read : ℕ → Result GoError Text
  pub expired : ℕ → Option GoError
  pub ticks : ℕ → Bool

abbrev or_wrapped : Option GoError → GoError → GoError
or_wrapped none e = wrapped (codes "reading power state: ") e []
or_wrapped (some ended) e = ended

abbrev pub timeout_error : Text → Text → GoError
timeout_error expected last =
    wrapped [] (sentinel verification_timeout)
      (codes ": expected " ++ (quoted expected ++ (codes ", last " ++ quoted last)))

-- The loop of `Verify`; `none` is fuel run out.
unfoldable pub verify_from : PowerReads → Text → Text → ℕ → ℕ → Option (Text × Option GoError)
verify_from reads expected last n zero = none
verify_from reads expected last n (suc fuel) = elim (reads.read n) [
  | err e ↦ some (trim_space last, some (or_wrapped (reads.expired n) e))
  | ok state ↦ elim (equal_fold (trim_space state) expected) [
    | true ↦ some (trim_space state, none)
    | false ↦ elim (reads.ticks n) [
      | false ↦ some (
        trim_space (trim_space state),
        some (timeout_error expected (trim_space (trim_space state))),
      )
      | true ↦ verify_from reads expected (trim_space state) (suc n) fuel
    ]
  ]
]

abbrev verify_expected : PowerReads → ℕ → Result GoError Text → Option (Text × Option GoError)
verify_expected reads fuel (err e) = some ([], some e)
verify_expected reads fuel (ok expected) = verify_from reads expected [] 0 fuel

-- `Verify`.
unfoldable pub verify :
    (ResetOperation → Text) → PowerReads → ℕ → ResetOperation → Option (Text × Option GoError)
verify name reads fuel operation =
    verify_expected reads fuel (expected_final_power_state name operation)

-- A read that is not the state that is waited for.
abbrev pub Misses : PowerReads → Text → ℕ → Type 0
Misses reads expected k =
    (raw : Text) × (reads.read k ≡ ok raw)
    × (equal_fold (trim_space raw) expected ≡ false)
    × (reads.ticks k ≡ true)

-- The read at round k is the awaited state, and every read from round n on before it missed.
abbrev pub Arrives : PowerReads → Text → ℕ → Text → Type 0
Arrives reads expected n final =
    (k : ℕ) × (n ≤ k)
    × ((raw : Text) × (reads.read k ≡ ok raw)
        × (final ≡ trim_space raw)
        × (equal_fold final expected ≡ true))
    × ((i : ℕ) → n ≤ i → i < k → Misses reads expected i)

Arrives-later :
    (reads : PowerReads) (expected : Text) (n : ℕ) (final : Text)
    → Misses reads expected n
    → Arrives reads expected (suc n) final
    → Arrives reads expected n final
Arrives-later reads expected n final here (k, later, found, missed) = (
  k,
  omega arith,
  found,
  λ i lo hi. elim (ℕ_discrete n i) [
    | yes same ↦ subst (Misses reads expected) same here
    | no different ↦ missed i (omega arith) hi
  ],
)

verify_from_sound :
    (reads : PowerReads) (expected last : Text) (n fuel : ℕ) {final : Text}
    → verify_from reads expected last n fuel ≡ some (final, none)
    → Arrives reads expected n final
unfolding verify_from
verify_from_sound reads expected last n zero h = cc
verify_from_sound reads expected last n (suc fuel) {final} h = elim (Result-cases (reads.read n)) [
  | inl (e, failed) ↦ absurd (ground arith)
  | inr (raw, got) ↦ elim (Bool-cases (equal_fold (trim_space raw) expected)) [
    | inl hit ↦
        let same : trim_space raw ≡ final = ground arith in
        (
          n,
          omega arith,
          (raw, got, sym same, subst (λ t. equal_fold t expected ≡ true) same hit),
          λ i lo hi. absurd (omega arith),
        )
    | inr miss ↦ elim (Bool-cases (reads.ticks n)) [
      | inl ticked ↦
          Arrives-later reads expected n final (raw, got, miss, ticked)
            (verify_from_sound reads expected (trim_space raw) (suc n) fuel
              (rw (got, miss, ticked, verify_from) at h))
      | inr ended ↦ absurd (ground arith)
    ]
  ]
]

verify_from-ne-none :
    (reads : PowerReads) (expected last : Text) (n left fuel : ℕ)
    → reads.ticks (n + left) ≡ false
    → left < fuel
    → verify_from reads expected last n fuel ≢ none
unfolding verify_from
verify_from-ne-none reads expected last n left zero h k = absurd (omega arith)
verify_from-ne-none reads expected last n zero (suc fuel) h k =
    let ended : reads.ticks n ≡ false = subst (λ t. reads.ticks t ≡ false) (omega arith) h in
    ground arith
verify_from-ne-none reads expected last n (suc left) (suc fuel) h k =
    let later : reads.ticks (suc n + left) ≡ false =
      subst (λ t. reads.ticks t ≡ false) (omega arith) h in
    elim (Result-cases (reads.read n)) [
      | inl (e, failed) ↦ ground arith
      | inr (raw, got) ↦ ground (
        arith,
        verify_from-ne-none reads expected (trim_space raw) (suc n) left fuel later (omega arith),
      )
    ]

abbrev pub initial_read : ℕ
initial_read = 0

-- `Verify` reports success only if some read was, after trimming, the expected state of the operation
-- in any case of letters, and that is the state it returns; every earlier read succeeded, was another
-- state, and was followed by a full poll interval.
pub verify_sound :
    (name : ResetOperation → Text) (reads : PowerReads) (fuel : ℕ) (operation : ResetOperation)
    {final : Text}
    → verify name reads fuel operation ≡ some (final, none)
    → (expected : Text) × (expected_final_power_state name operation ≡ ok expected)
      × Arrives reads expected initial_read final
unfolding verify
verify_sound name reads fuel operation h =
    elim (Result-cases (expected_final_power_state name operation)) [
      | inl (e, unsupported) ↦ absurd (cc (rw (unsupported, verify) at h))
      | inr (expected, supported) ↦ (
        expected,
        supported,
        verify_from_sound reads expected [] 0 fuel (rw (supported, verify) at h),
      )
    ]

-- When the window's context ends at the wait of some round, `Verify` returns within that many rounds
-- and one more.
pub verify_total :
    (name : ResetOperation → Text) (reads : PowerReads) (rounds fuel : ℕ)
    (operation : ResetOperation)
    → reads.ticks rounds ≡ false
    → rounds < fuel
    → (r : Text × Option GoError) × (verify name reads fuel operation ≡ some r)
unfolding verify
verify_total name reads rounds fuel operation h k =
    elim (Option-cases (verify name reads fuel operation)) [
      | inr found ↦ found
      | inl ran_out ↦ elim (Result-cases (expected_final_power_state name operation)) [
        | inl (e, unsupported) ↦ absurd (cc (rw (unsupported, verify) at ran_out))
        | inr (expected, supported) ↦ absurd (
            verify_from-ne-none reads expected [] 0 rounds fuel
              (subst (λ t. reads.ticks t ≡ false) (omega arith) h) k
              (rw (supported, verify) at ran_out))
      ]
    ]
