-- ===== src/Engine/Tests/Queues.antt =====
-- The task queue and the limiters on concrete inputs.
use chamicore.Prelude.{ℕ, ◌≡◌, refl, true, false, [], ◌∷◌, arith}
use chamicore.Prelude.Int.{pos}
use chamicore.Engine.Queue.{Queue, new_queue, check, send, receive, QueueReach, here, next}
use chamicore.Text.{codes, ◌=ₛ◌}
use chamicore.Text.Trim.{trim_space, trim_left, trim_right, is_space}
use chamicore.Dict.{lookup, insert}
use chamicore.Engine.Config.{RuntimeConfig}
use chamicore.Engine.Limiter.{
  Limiters, put, no_limiters, ask_limiter, bmc_limiter, LimiterReach, ask, admit,
}
use chamicore.Engine.Limiter.Slots.{IsLimited, LimiterReach-IsLimited}
use chamicore.Engine.Queue.Order.{enqueue_races_close}

-- Two items sent in a row and one received, through a channel of two.
abbrev one_left : Queue ℕ
one_left = record { closed = false; capacity = 2; buffer = 8 ∷ []; sending = []; panicked = false }

one_left_reached : QueueReach (new_queue ℕ (pos 2)) one_left
unfolding new_queue
one_left_reached =
    next
      (next
        (next (next (next here (check 7 refl)) (check 8 refl))
          (send (8 ∷ []) [] 7 refl refl (omega arith)))
        (send [] [] 8 refl refl (omega arith)))
      (receive 7 (8 ∷ []) refl)

-- The flag was clear, and the item is not sent yet.
abbrev between : Queue ℕ
between = record one_left { sending = 9 ∷ [] }

enqueue_races_close_example : (r : Queue ℕ) × QueueReach between r × (r.panicked ≡ true)
enqueue_races_close_example = enqueue_races_close between 9 [] refl

-- One worker has a slot of a BMC, and another waits for one.
abbrev one_running : Limiters
one_running = record {
  by_bmc = (codes "b1", 0) ∷ [];
  channel =
      put (put no_limiters.channel 0 (record { capacity = 1; held = 0 })) 0
        (record { capacity = 1; held = 1 });
  next = 1;
  waiting = record { bmc = codes "b1"; limiter = 0 } ∷ [];
  running = record { bmc = codes "b1"; limiter = 0 } ∷ [];
}

abbrev one_slot : RuntimeConfig
one_slot = record {
  global_concurrency = pos 2;
  per_bmc_concurrency = pos 1;
  retry_attempts = pos 1;
  retry_backoff_base = pos 1;
  retry_backoff_max = pos 1;
  transition_deadline = pos 1;
  queue_size = pos 1;
}

one_running_reached : LimiterReach one_slot no_limiters one_running
unfolding ask_limiter bmc_limiter lookup insert trim_space trim_left trim_right is_space ◌=ₛ◌
one_running_reached =
    LimiterReach.next
      (LimiterReach.next (LimiterReach.next LimiterReach.here (ask (codes "b1 ")))
        (admit [] [] (record { bmc = codes "b1"; limiter = 0 }) refl (omega arith)))
      (ask (codes "b1"))

LimiterReach-IsLimited_example :
    IsLimited one_slot one_running (codes "b1") (lookup (codes "b1") one_running.by_bmc)
LimiterReach-IsLimited_example = LimiterReach-IsLimited one_running_reached (codes "b1")
