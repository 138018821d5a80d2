-- ===== src/Queue.antt =====
-- lib/Queue.h: the bounded queue through which the threads hand over items.
-- An operation runs under the queue's mutex, so it is one step. `push` and `pop` are one pass of
-- the loop of Push and Pop: `none` means that the thread waits on the condition variable.
pub mod Threads
pub mod Order
pub mod Progress
use wall_mon.Base.{
  ℕ, suc, Bool, true, false, Option, none, some, List, [], ◌∷◌, ◌++◌, length, ltb, leb,
  if◌then◌else◌,
}

pub record Queue {ℓ} (A : Type ℓ) : Type ℓ where
  pub capacity : ℕ
  pub items : List A

module _ {ℓ} {A : Type ℓ} where
  -- The constructor; its default capacity is 500.
  unfoldable pub init : ℕ → Queue A
  init capacity = record { capacity = capacity; items = [] }

  unfoldable pub get_size : Queue A → ℕ
  get_size q = length q.items

  -- `while (_queue.size() > 0) _queue.pop();`
  unfoldable pub clear_items : List A → List A
  clear_items [] = []
  clear_items (x ∷ xs) = clear_items xs

  unfoldable pub clear : Queue A → Queue A
  unfolding clear_items
  clear q = record q { items = clear_items q.items }

  unfoldable pub push : A → Queue A → Option (Queue A)
  unfolding get_size
  push x q =
      if leb q.capacity (get_size q) then none else some (record q { items = q.items ++ (x ∷ []) })

  unfoldable pub pop_front : ℕ → List A → Option (A × Queue A)
  pop_front capacity [] = none
  pop_front capacity (x ∷ xs) = some (x, record { capacity = capacity; items = xs })

  unfoldable pub pop : Queue A → Option (A × Queue A)
  unfolding pop_front
  pop q = pop_front q.capacity q.items
