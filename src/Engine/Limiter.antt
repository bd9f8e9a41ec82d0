-- ===== src/Engine/Limiter.antt =====
-- `acquireBMCLimiter` and `bmcLimiter` of runner.go: one channel for each BMC, which a worker sends
-- into before it uses the BMC and receives from when it returns. The channels are cells of a heap, the
-- map holds their addresses, and so does the function that gives a slot back.
pub mod Slots
use chamicore.Prelude.{
  ℕ, ◌+◌, ◌-◌, ◌<◌, ◌≡◌, List, [], ◌∷◌, ◌++◌, Option, none, some, ◌==◌, is_empty, if◌then◌else◌,
}
use chamicore.Prelude.Int.{pos_part}
use chamicore.Text.{Text}
use chamicore.Text.Trim.{trim_space}
use chamicore.Dict.{Dict, lookup, insert}
use chamicore.Engine.Config.{RuntimeConfig}

-- A `chan struct{}`: how many values it has room for, and how many it holds.
pub record Channel : Type 0 where
  pub capacity : ℕ
  pub held : ℕ

-- A worker in `acquireBMCLimiter` or past it, with the trimmed name of its BMC and the channel.
pub record Caller : Type 0 where
  pub bmc : Text
  pub limiter : ℕ

-- `waiting` are the workers at the select, and `running` those that have a slot.
pub record Limiters : Type 0 where
  pub by_bmc : Dict ℕ
  pub channel : ℕ → Channel
  pub next : ℕ
  pub waiting : List Caller
  pub running : List Caller

abbrev pub put : (ℕ → Channel) → ℕ → Channel → ℕ → Channel
put channel a c b = if a == b then c else channel b

abbrev pub or_make : RuntimeConfig → Text → Limiters → Option ℕ → ℕ × Limiters
or_make rc bmc l (some limiter) = (limiter, l)
or_make rc bmc l none = (
  l.next,
  record l {
    by_bmc = insert bmc l.next l.by_bmc;
    channel =
        put l.channel l.next (record { capacity = pos_part rc.per_bmc_concurrency; held = 0 });
    next = l.next + 1;
  },
)

-- `bmcLimiter`, under the lock.
unfoldable pub bmc_limiter : RuntimeConfig → Text → Limiters → ℕ × Limiters
bmc_limiter rc bmc l = or_make rc bmc l (lookup bmc l.by_bmc)

abbrev pub wait_for : Text → ℕ × Limiters → Limiters
wait_for bmc (limiter, l) = record l {
  waiting = (record { bmc = bmc; limiter = limiter }) ∷ l.waiting;
}

-- `acquireBMCLimiter` up to its select; a blank BMC has no limiter, and nothing is given back for it.
unfoldable pub ask_limiter : RuntimeConfig → Text → Limiters → Limiters
unfolding bmc_limiter
ask_limiter rc bmc_id l =
    let bmc = trim_space bmc_id in if is_empty bmc then l else wait_for bmc (bmc_limiter rc bmc l)

abbrev pub with_held : Channel → ℕ → Channel
with_held c n = record c { held = n }

-- What the workers do, one at a time; the functions under the lock are one step.
pub data LimiterStep (rc : RuntimeConfig) (l : Limiters) : Limiters → Type 0 where
  ask : (bmc_id : Text) → LimiterStep rc l (ask_limiter rc bmc_id l)
  -- The send of the select finds room.
  admit :
      (xs ys : List Caller) (c : Caller)
      → l.waiting ≡ xs ++ c ∷ ys
      → (l.channel c.limiter).held < (l.channel c.limiter).capacity
      → LimiterStep rc l (record l {
        channel =
            put l.channel c.limiter
              (with_held (l.channel c.limiter) ((l.channel c.limiter).held + 1));
        waiting = xs ++ ys;
        running = c ∷ l.running;
      })
  -- The context ends first.
  give_up :
      (xs ys : List Caller) (c : Caller)
      → l.waiting ≡ xs ++ c ∷ ys
      → LimiterStep rc l (record l { waiting = xs ++ ys })
  -- The function that was returned receives from the channel, which blocks where that is empty.
  release :
      (xs ys : List Caller) (c : Caller)
      → l.running ≡ xs ++ c ∷ ys
      → 0 < (l.channel c.limiter).held
      → LimiterStep rc l (record l {
        channel =
            put l.channel c.limiter
              (with_held (l.channel c.limiter) ((l.channel c.limiter).held - 1));
        running = xs ++ ys;
      })

pub data LimiterReach (rc : RuntimeConfig) (l : Limiters) : Limiters → Type 0 where
  here : LimiterReach rc l l
  next : {m n : Limiters} → LimiterReach rc l m → LimiterStep rc m n → LimiterReach rc l n

-- `bmcLimiters` of `New`; no cell of the heap is in use.
abbrev pub no_limiters : Limiters
no_limiters = record {
  by_bmc = [];
  channel = λ a. record { capacity = 0; held = 0 };
  next = 0;
  waiting = [];
  running = [];
}
