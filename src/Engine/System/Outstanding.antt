-- ===== src/Engine/System/Outstanding.antt =====
-- The tasks of a transition for which no outcome was recorded.
use chamicore.Prelude.{ℕ, ◌+◌, ◌≡◌, List, [], ◌∷◌, arith, length, count_if, All, if◌then◌else◌}
use chamicore.Text.{Text, ◌=ₛ◌}
use chamicore.Engine.System.{System, QueuedTask, belongs_to, works_on}

unfoldable pub outstanding : Text → System → ℕ
outstanding id s =
    count_if (belongs_to id) s.waiting
    + count_if (belongs_to id) s.queue
    + count_if (works_on id) s.busy
    + count_if (belongs_to id) s.lost

-- All tasks of a new transition are its own.
pub count_if-own :
    (id j : Text) (items : List QueuedTask)
    → All (λ q. q.transition_id ≡ id) items
    → count_if (belongs_to j) items ≡ (if id =ₛ j then length items else 0)
unfolding belongs_to
count_if-own id j [] h = ground arith
count_if-own id j (q ∷ qs) h = ground (arith, count_if-own id j qs h.1)
