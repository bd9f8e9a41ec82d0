-- ===== src/Engine/Config.antt =====
-- `Config`, `runtimeConfig` and `normalizeConfig` of runner.go. Durations are nanoseconds in an
-- `int64`; Go's `int` has 64 bits too.
use chamicore.Prelude.{ℕ, ◌-◌, ◌*◌, ◌^◌, ◌%◌, arith, ltb, if◌then◌else◌}
use chamicore.Prelude.Int.{ℤ, pos, negsuc, pos_part, ltb_ℤ, leb_ℤ, ◌≤ℤ◌}

-- The `int64` with the bits of a natural number.
abbrev pub wrap64 : ℕ → ℤ
wrap64 n =
    let bits = n % 2 ^ 64 in if ltb bits (2 ^ 63) then pos bits else negsuc (2 ^ 64 - 1 - bits)

abbrev pub millisecond : ℕ
millisecond = 1_000_000

abbrev pub second : ℕ
second = 1_000_000_000

abbrev pub default_global_concurrency : ℤ
default_global_concurrency = pos 20

abbrev pub default_per_bmc_concurrency : ℤ
default_per_bmc_concurrency = pos 1

abbrev pub default_retry_attempts : ℤ
default_retry_attempts = pos 3

abbrev pub default_retry_backoff_base : ℤ
default_retry_backoff_base = pos (250 * millisecond)

abbrev pub default_retry_backoff_max : ℤ
default_retry_backoff_max = pos (5 * second)

abbrev pub default_transition_timeout : ℤ
default_transition_timeout = pos (90 * second)

pub record Config : Type 0 where
  pub global_concurrency : ℤ
  pub per_bmc_concurrency : ℤ
  pub retry_attempts : ℤ
  pub retry_backoff_base : ℤ
  pub retry_backoff_max : ℤ
  pub transition_deadline : ℤ
  pub verification_window : ℤ
  pub verification_poll : ℤ
  pub queue_size : ℤ

-- `runtimeConfig`, without the clock, the sleep and the jitter, which the functions that use them
-- take as arguments.
pub record RuntimeConfig : Type 0 where
  pub global_concurrency : ℤ
  pub per_bmc_concurrency : ℤ
  pub retry_attempts : ℤ
  pub retry_backoff_base : ℤ
  pub retry_backoff_max : ℤ
  pub transition_deadline : ℤ
  pub queue_size : ℤ

-- `if v <= 0 { v = default }`.
abbrev pub or_default : ℤ → ℤ → ℤ
or_default v default = if leb_ℤ v (pos 0) then default else v

unfoldable pub normalize_config : Config → RuntimeConfig
normalize_config cfg =
    let global = or_default cfg.global_concurrency default_global_concurrency in
    let base = or_default cfg.retry_backoff_base default_retry_backoff_base in
    let max = or_default cfg.retry_backoff_max default_retry_backoff_max in
    let queue = or_default cfg.queue_size (wrap64 (pos_part global * 4)) in
    record {
      global_concurrency = global;
      per_bmc_concurrency = or_default cfg.per_bmc_concurrency default_per_bmc_concurrency;
      retry_attempts = or_default cfg.retry_attempts default_retry_attempts;
      retry_backoff_base = base;
      retry_backoff_max = if ltb_ℤ max base then base else max;
      transition_deadline = or_default cfg.transition_deadline default_transition_timeout;
      queue_size = if ltb_ℤ queue (pos 1) then pos 1 else queue;
    }

-- What the runner relies on.
pub record IsRunnable (rc : RuntimeConfig) : Type 0 where
  pub some_worker : pos 1 ≤ℤ rc.global_concurrency
  pub some_slot : pos 1 ≤ℤ rc.per_bmc_concurrency
  pub some_attempt : pos 1 ≤ℤ rc.retry_attempts
  pub some_backoff : pos 1 ≤ℤ rc.retry_backoff_base
  pub backoff_ordered : rc.retry_backoff_base ≤ℤ rc.retry_backoff_max
  pub some_time : pos 1 ≤ℤ rc.transition_deadline
  pub some_room : pos 1 ≤ℤ rc.queue_size

-- Every configuration, with zeros and negative values in any field, is normalised to one with at
-- least one worker, one slot for each BMC, one attempt, a positive backoff that is at most its
-- maximum, a positive deadline and room for one queued task; also where four times the number of
-- workers overflows.
pub normalize_config-IsRunnable : (cfg : Config) → IsRunnable (normalize_config cfg)
unfolding normalize_config
normalize_config-IsRunnable cfg = ground arith
