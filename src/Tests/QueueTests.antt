-- ===== src/Tests/QueueTests.antt =====
-- lib/Queue.h.
use wall_mon.Base.{ℕ, ◌≤◌, ◌≡◌, refl, arith, [], ◌∷◌, ◌++◌}
use wall_mon.Queue.{Queue, init, push, pop, get_size}
use wall_mon.Queue.Threads.{System, start, Reach, here, next, pushes, consumer, pop_waits}
use wall_mon.Queue.Order.{queue-InOrder}
use wall_mon.Queue.Progress.{queue-Moves, Moves}

abbrev one_item : Queue ℕ
one_item = record { capacity = 1; items = 5 ∷ [] }

abbrev filled : System ℕ
filled = record {
  queue = one_item;
  pushing = 1;
  push_waiting = 0;
  popping = 1;
  pop_waiting = 0;
  sent = 5 ∷ [];
  received = [];
}

-- The consumer waits first, and the push wakes it.
Reach-filled : Reach (start 1 1 1) filled
unfolding start init push pop
Reach-filled =
    next (next here (pop_waits 0 refl refl))
      (pushes 5 one_item (omega arith) refl (consumer 0 refl))

queue-InOrder_example :
    (filled.received ++ filled.queue.items ≡ filled.sent) × (get_size filled.queue ≤ 1)
queue-InOrder_example = queue-InOrder 1 1 1 Reach-filled

queue-Moves_example : Moves filled 6
queue-Moves_example = queue-Moves 1 1 6 (omega arith) (omega arith) Reach-filled
