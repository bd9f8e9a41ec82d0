-- ===== src/Engine/Queue.antt =====
-- services/chamicore-power/internal/engine/queue.go: a bounded channel with a flag beside it. The
-- flag is read under the lock, and the channel is used after the lock is released, so the senders
-- that have read the flag and not yet sent are part of the state.
pub mod Order
use chamicore.Prelude.{ℕ, ◌<◌, ◌≡◌, Bool, true, false, List, [], ◌∷◌, ◌++◌, length, if◌then◌else◌}
use chamicore.Prelude.Int.{ℤ, pos, leb_ℤ, pos_part}

module _ {ℓ} (A : Type ℓ) where
  pub record Queue : Type ℓ where
    pub closed : Bool
    pub capacity : ℕ
    pub buffer : List A
    pub sending : List A
    pub panicked : Bool

-- `newQueue`.
unfoldable pub new_queue {ℓ} : (A : Type ℓ) → ℤ → Queue A
new_queue A capacity = record {
  closed = false;
  capacity = if leb_ℤ capacity (pos 0) then 1 else pos_part capacity;
  buffer = [];
  sending = [];
  panicked = false;
}

-- What the goroutines that share a queue do to it; the order and the bound of the buffer are those of
-- a Go channel. A receive with nothing to take, a call of `close`
-- on a closed queue and an `enqueue` that finds the flag set change nothing.
pub data QueueStep {ℓ} {A : Type ℓ} (q : Queue A) : Queue A → Type ℓ where
  -- `enqueue` reads the flag, finds it clear, and goes on to its `select`.
  check : (a : A) → q.closed ≡ false → QueueStep q (record q { sending = a ∷ q.sending })
  -- The `select` sends.
  send :
      (xs ys : List A) (a : A)
      → q.sending ≡ xs ++ a ∷ ys
      → q.closed ≡ false
      → length q.buffer < q.capacity
      → QueueStep q (record q { sending = xs ++ ys; buffer = q.buffer ++ a ∷ [] })
  -- The `select` is at a send on a channel that has been closed meanwhile: Go panics.
  send_closed :
      (xs ys : List A) (a : A)
      → q.sending ≡ xs ++ a ∷ ys
      → q.closed ≡ true
      → QueueStep q (record q { sending = xs ++ ys; panicked = true })
  -- The context of the request ends first.
  give_up :
      (xs ys : List A) (a : A)
      → q.sending ≡ xs ++ a ∷ ys
      → QueueStep q (record q { sending = xs ++ ys })
  -- `dequeue` receives, also what a closed channel still holds.
  receive : (a : A) (rest : List A) → q.buffer ≡ a ∷ rest → QueueStep q (record q { buffer = rest })
  -- `close`.
  close : QueueStep q (record q { closed = true })

pub data QueueReach {ℓ} {A : Type ℓ} (q : Queue A) : Queue A → Type ℓ where
  here : QueueReach q q
  next : {r s : Queue A} → QueueReach q r → QueueStep r s → QueueReach q s
