-- ===== src/Engine/Backoff.antt =====
-- `retryDelay` and `cryptoJitter` of runner.go, with the detour through `float64`.
use chamicore.Prelude.{
  ℕ, zero, suc, ◌+◌, ◌-◌, ◌*◌, ◌/◌, ◌%◌, ◌^◌, ◌≤◌, ◌<◌, min, ◌≡◌, refl, ◌&&◌, ◌||◌, Option, none,
  some, arith, ltb, leb, false, ◌==◌, if◌then◌else◌, Option-cases, inl, inr, subst,
}
use chamicore.Prelude.Int.{ℤ, pos, negsuc, pos_part, neg_part, ltb_ℤ, leb_ℤ, ◌≤ℤ◌}
use chamicore.Engine.Config.{wrap64, RuntimeConfig, IsRunnable}

-- Go leaves the result of an overflowing conversion to the machine.
pub data Machine : Type 0 where
  amd64 arm64 : Machine

-- The least number of low bits to drop so that 53 are left; eleven rounds reach every `int64`.
unfoldable pub low_bits : ℕ → ℕ → ℕ → ℕ
low_bits zero k n = k
low_bits (suc fuel) k n =
    let rest = low_bits fuel (suc k) n in if ltb n (2 ^ (53 + k)) then k else rest

-- `float64(n)`: round to the nearest, ties to even.
unfoldable pub float_of : ℕ → ℕ
unfolding low_bits
float_of n =
    let k = low_bits 11 0 n in
    let q = n / 2 ^ k in
    let r = 2 * (n % 2 ^ k) in
    if k == 0
    then n
    else if ltb (2 ^ k) r || (r == 2 ^ k && q % 2 == 1)
    then (q + 1) * 2 ^ k
    else q * 2 ^ k

-- `time.Duration(f)` for a float with a whole value, given by its size.
unfoldable pub duration_of_pos : Machine → ℕ → ℤ
duration_of_pos amd64 n = if ltb n (2 ^ 63) then pos n else negsuc (2 ^ 63 - 1)
duration_of_pos arm64 n = if ltb n (2 ^ 63) then pos n else pos (2 ^ 63 - 1)

unfoldable pub duration_of_neg : ℕ → ℤ
duration_of_neg zero = pos 0
duration_of_neg (suc n) = if ltb n (2 ^ 63) then negsuc n else negsuc (2 ^ 63 - 1)

-- `time.Duration(math.NaN())`.
abbrev duration_of_nan : Machine → ℤ
duration_of_nan amd64 = negsuc (2 ^ 63 - 1)
duration_of_nan arm64 = pos 0

-- `time.Duration(float64(base) * math.Pow(2, float64(doublings)))`; multiplying by a power of two
-- loses nothing, and an infinite product is out of range like any other. From 2 ^ 1024 on the power is
-- infinite, and zero times that is not a number.
unfoldable pub scaled : Machine → ℤ → ℕ → ℤ
unfolding float_of duration_of_pos duration_of_neg
scaled machine (pos base) doublings =
    if base == 0 && leb 1024 doublings
    then duration_of_nan machine
    else duration_of_pos machine (float_of base * 2 ^ doublings)
scaled machine (negsuc base) doublings = duration_of_neg (float_of (suc base) * 2 ^ doublings)

-- The two clamps after the conversion.
unfoldable pub clamp_delay : ℤ → ℤ → ℤ
clamp_delay max delay =
    let capped = if ltb_ℤ max delay then max else delay in
    if ltb_ℤ capped (pos 0) then max else capped

-- `retryDelay` up to the jitter.
unfoldable pub backoff : Machine → RuntimeConfig → ℕ → ℤ
unfolding scaled clamp_delay
backoff machine rc zero = rc.retry_backoff_base
backoff machine rc (suc doublings) =
    clamp_delay rc.retry_backoff_max (scaled machine rc.retry_backoff_base doublings)

-- Go's division rounds towards zero.
abbrev half : ℤ → ℤ
half (pos n) = pos (n / 2)
half (negsuc n) = if suc n / 2 == 0 then pos 0 else negsuc (suc n / 2 - 1)

abbrev at_least_zero : ℤ → ℤ
at_least_zero (pos n) = pos n
at_least_zero (negsuc n) = pos 0

-- A sum of an `int64` and a natural number, with the overflow.
abbrev add64 : ℤ → ℤ → ℤ
add64 a b = wrap64 (pos_part a + pos_part b + (2 ^ 64 - neg_part a) + (2 ^ 64 - neg_part b))

-- `retryDelay`; `attempt` counts from one, and `jitter` is the function in the configuration.
unfoldable pub retry_delay : Machine → RuntimeConfig → (ℤ → ℤ) → ℕ → ℤ
retry_delay machine rc jitter zero = rc.retry_backoff_base
retry_delay machine rc jitter (suc doublings) =
    let delay = backoff machine rc (suc doublings) in
    add64 delay (at_least_zero (jitter (half delay)))

abbrev drawn : Option ℕ → ℤ
drawn none = pos 0
drawn (some value) = pos value

-- `cryptoJitter`: `random n` is `rand.Int(rand.Reader, n)`, which may fail.
unfoldable pub crypto_jitter : (ℕ → Option ℕ) → ℤ → ℤ
crypto_jitter random max = if leb_ℤ max (pos 0) then pos 0 else drawn (random (pos_part max + 1))

float_of-exact : (n : ℕ) → n < 2 ^ 53 → float_of n ≡ n
unfolding float_of
float_of-exact n h = ground arith

clamped :
    (machine : Machine) (m v : ℕ)
    → m < 2 ^ 63
    → clamp_delay (pos m) (duration_of_pos machine v) ≡ pos (min m v)
unfolding clamp_delay duration_of_pos
clamped amd64 m v h = ground arith
clamped arm64 m v h = ground arith

-- Before the jitter the delay after attempt n is the base times 2 to the power n - 1, cut at the
-- maximum, for every positive base below 2 ^ 53 nanoseconds (104 days): the overflow of the conversion to
-- an integer cannot be seen on either machine, however many attempts there were.
pub backoff-exact :
    (machine : Machine) (rc : RuntimeConfig) (base max doublings : ℕ)
    → rc.retry_backoff_base ≡ pos base
    → rc.retry_backoff_max ≡ pos max
    → 0 < base
    → base < 2 ^ 53
    → max < 2 ^ 63
    → backoff machine rc (suc doublings) ≡ pos (min max (base * 2 ^ doublings))
unfolding backoff
backoff-exact machine rc base max doublings hb hm filled b m =
    let positive : (base == 0) ≡ false = ground (arith, filled) in
    rw (hb, hm, positive, float_of-exact base b) (clamped machine max (base * 2 ^ doublings) m)

backoff-Between :
    (machine : Machine) (rc : RuntimeConfig) (attempt : ℕ)
    → IsRunnable rc
    → (pos 0 ≤ℤ backoff machine rc attempt) × (backoff machine rc attempt ≤ℤ rc.retry_backoff_max)
unfolding backoff clamp_delay
backoff-Between machine rc zero h = ground arith
backoff-Between machine rc (suc doublings) h = ground arith

crypto_jitter-le :
    (random : ℕ → Option ℕ) (n : ℕ)
    → ((m value : ℕ) → random m ≡ some value → value < m)
    → crypto_jitter random (pos n) ≡ pos (pos_part (crypto_jitter random (pos n)))
      × (pos_part (crypto_jitter random (pos n)) ≤ n)
unfolding crypto_jitter
crypto_jitter-le random n contract = elim (Option-cases (random (n + 1))) [
  | inl failed ↦ ground arith
  | inr (value, got) ↦ ground (arith, contract (n + 1) value got)
]

add64-pos : (d j : ℕ) → d + j < 2 ^ 63 → add64 (pos d) (pos j) ≡ pos (d + j)
add64-pos d j h = ground arith

pos-pos_part : (z : ℤ) → pos 0 ≤ℤ z → z ≡ pos (pos_part z)
pos-pos_part (pos n) h = refl
pos-pos_part (negsuc n) h = absurd (omega arith)

-- The jittered delay, once the delay is known to be a natural number.
jittered :
    (random : ℕ → Option ℕ) (delay : ℤ) (max : ℕ)
    → ((m value : ℕ) → random m ≡ some value → value < m)
    → max < 2 ^ 62
    → pos 0 ≤ℤ delay
    → delay ≤ℤ pos max
    → let total = add64 delay (at_least_zero (crypto_jitter random (half delay))) in
      (delay ≤ℤ total) × (total ≤ℤ pos (max + max / 2))
jittered random (negsuc n) max contract m lo hi = absurd (omega arith)
jittered random (pos n) max contract m lo hi =
    let (natural, bound) = crypto_jitter-le random (n / 2) contract in
    rw (natural, add64-pos n (pos_part (crypto_jitter random (pos (n / 2)))) (omega arith))
      (omega arith)

-- With the production jitter, whatever the random source answers within its contract, the pause
-- after any attempt is at least the delay without jitter and at most one and a half times the
-- configured maximum, provided that maximum is below 2 ^ 62 nanoseconds (146 years).
pub retry_delay_bounds :
    (machine : Machine) (rc : RuntimeConfig) (random : ℕ → Option ℕ) (attempt max : ℕ)
    → IsRunnable rc
    → rc.retry_backoff_max ≡ pos max
    → max < 2 ^ 62
    → ((n value : ℕ) → random n ≡ some value → value < n)
    → let delay = retry_delay machine rc (crypto_jitter random) attempt in
      (backoff machine rc attempt ≤ℤ delay) × (delay ≤ℤ pos (max + max / 2))
unfolding retry_delay
retry_delay_bounds machine rc random zero max h e m contract =
    unfold backoff in grind (arith, h.backoff_ordered)
retry_delay_bounds machine rc random (suc doublings) max h e m contract =
    let (lo, hi) = backoff-Between machine rc (suc doublings) h in
    jittered random (backoff machine rc (suc doublings)) max contract m lo
      (subst (λ z. backoff machine rc (suc doublings) ≤ℤ z) e hi)
