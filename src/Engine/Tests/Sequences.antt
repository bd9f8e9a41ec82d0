-- ===== src/Engine/Tests/Sequences.antt =====
-- Configuration, backoff, retries and verification.
use chamicore.Prelude.{
  ℕ, ◌-◌, ◌*◌, ◌^◌, ◌<◌, min, ◌≡◌, refl, true, [], Option, none, some, arith, ltb, ok,
  if◌then◌else◌,
}
use chamicore.Prelude.Int.{pos, negsuc}
use chamicore.Text.{Text, codes}
use chamicore.Text.Trim.{is_space, trim_left, trim_right, trim_space}
use chamicore.Text.Fold.{equal_fold}
use chamicore.GoError.{GoError, message, net_error, errors_is, as_retryable, as_net_error}
use chamicore.Engine.Errors.{is_retryable_error}
use chamicore.Engine.Config.{Config, RuntimeConfig, normalize_config, IsRunnable}
use chamicore.Engine.Backoff.{
  amd64, arm64, float_of, duration_of_pos, backoff, retry_delay, backoff-exact,
}
use chamicore.Engine.Retry.{Attempts, execute_with_retry, Explained, execute_with_retry-Explained}
use chamicore.Engine.Types.{ResetOperation, on, force_off}
use chamicore.Engine.Verify.{
  PowerReads, expected_final_power_state, verify_from, verify, Arrives, initial_read, verify_sound,
  verify_total,
}

-- All fields unset, one of them negative.
abbrev unset : Config
unset = record {
  global_concurrency = pos 0;
  per_bmc_concurrency = negsuc 4;
  retry_attempts = pos 0;
  retry_backoff_base = pos 0;
  retry_backoff_max = pos 0;
  transition_deadline = pos 0;
  verification_window = pos 0;
  verification_poll = pos 0;
  queue_size = pos 0;
}

abbrev defaults : RuntimeConfig
defaults = record {
  global_concurrency = pos 20;
  per_bmc_concurrency = pos 1;
  retry_attempts = pos 3;
  retry_backoff_base = pos 250_000_000;
  retry_backoff_max = pos 5_000_000_000;
  transition_deadline = pos 90_000_000_000;
  queue_size = pos 80;
}

unset-defaults : normalize_config unset ≡ defaults
unfolding normalize_config
unset-defaults = refl

backoff-exact_example : backoff arm64 defaults 6 ≡ pos (min 5_000_000_000 (250_000_000 * 2 ^ 5))
backoff-exact_example =
    backoff-exact arm64 defaults 250_000_000 5_000_000_000 5 refl refl (omega arith) (omega arith)
      (omega arith)

-- An attempt at which the conversion overflows.
backoff_overflow : backoff amd64 defaults 101 ≡ pos 5_000_000_000
unfolding backoff float_of duration_of_pos
backoff_overflow = refl

defaults-IsRunnable : IsRunnable defaults
defaults-IsRunnable = omega arith

-- A source that always draws the greatest value allowed.
abbrev greatest : ℕ → Option ℕ
greatest n = if ltb 0 n then some (n - 1) else none

greatest_below : (n value : ℕ) → greatest n ≡ some value → value < n
greatest_below n value h = ground arith

-- Fails twice with a timeout, then works.
abbrev third_time : Attempts
third_time = record {
  execute = λ n. if ltb n 3 then some (net_error true (codes "i/o timeout") (message [])) else none;
  sleep = λ n d. none;
}

third_time_result : execute_with_retry amd64 defaults (λ d. pos 0) third_time ≡ (3, none)
unfolding execute_with_retry is_retryable_error errors_is as_retryable as_net_error
third_time_result = refl

execute_with_retry-Explained_example :
    Explained third_time.execute
      (λ n. third_time.sleep n (retry_delay amd64 defaults (λ d. pos 0) n))
      3
      1
      (execute_with_retry amd64 defaults (λ d. pos 0) third_time)
execute_with_retry-Explained_example =
    execute_with_retry-Explained amd64 defaults (λ d. pos 0) third_time (omega arith)

-- Still off at the first read, and on at the second.
abbrev slow_start : PowerReads
slow_start = record {
  read = λ n. if ltb n 1 then ok (codes "Off") else ok (codes " ON ");
  expired = λ n. none;
  ticks = λ n. ltb n 4;
}

abbrev no_name : ResetOperation → Text
no_name operation = codes "op"

slow_start_result : verify no_name slow_start 5 on ≡ some (codes "ON", none)
unfolding verify verify_from expected_final_power_state trim_space trim_left trim_right is_space
    equal_fold
slow_start_result = refl

verify_sound_example :
    (expected : Text) × (expected_final_power_state no_name on ≡ ok expected)
    × Arrives slow_start expected initial_read (codes "ON")
verify_sound_example = verify_sound no_name slow_start 5 on slow_start_result

verify_total_example :
    (r : Text × Option GoError) × (verify no_name slow_start 5 force_off ≡ some r)
verify_total_example = verify_total no_name slow_start 4 5 force_off refl (omega arith)
