-- ===== src/Engine/Queue/Order.antt =====
-- An interleaving of `enqueue` with `close` in queue.go.
use chamicore.Prelude.{◌≡◌, refl, true, List, [], ◌∷◌}
use chamicore.Engine.Queue.{Queue, send_closed, close, QueueReach, here, next}

-- The race in `enqueue`: from every state in which a sender has read the clear flag and has not sent
-- yet, the end of the runner's context can close the channel under it, and the send panics.
pub enqueue_races_close {ℓ} :
    {A : Type ℓ} (q : Queue A) (a : A) (rest : List A)
    → q.sending ≡ a ∷ rest
    → (r : Queue A) × QueueReach q r × (r.panicked ≡ true)
enqueue_races_close q a rest e = (_, next (next here close) (send_closed [] rest a e refl), refl)
