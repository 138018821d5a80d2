-- ===== src/Queue/Order.antt =====
-- The order of the items in lib/Queue.h, and how many there are.
use wall_mon.Base.{
  ℕ, ◌+◌, ◌≤◌, ◌<◌, ◌≡◌, refl, ap, ◌∙◌, arith, some, List, [], ◌∷◌, ◌++◌, append_assoc, length,
  length-append,
}
use wall_mon.Queue.{Queue, init, get_size, push, pop_front, pop}
use wall_mon.Queue.Threads.{
  System, start, Notified, nobody, producer, consumer, Step, pushes, push_waits, pops, pop_waits,
  Reach, here, next,
}

module _ {ℓ} {A : Type ℓ} where
  pub push-items :
      (x : A) (q r : Queue A)
      → push x q ≡ some r
      → (r.items ≡ q.items ++ (x ∷ []))
        × (r.capacity ≡ q.capacity)
        × (get_size q < q.capacity)
        × (get_size r ≡ get_size q + 1)
  unfolding push
  push-items x q r e = ground (arith, length-append q.items (x ∷ []))

  pop_front-items :
      (c : ℕ) (xs : List A) (x : A) (r : Queue A)
      → pop_front c xs ≡ some (x, r)
      → (xs ≡ x ∷ r.items) × (r.capacity ≡ c)
  unfolding pop_front
  pop_front-items c [] x r e = ground arith
  pop_front-items c (y ∷ xs) x r e = ground arith

  pub pop-items :
      (q : Queue A) (x : A) (r : Queue A)
      → pop q ≡ some (x, r)
      → (q.items ≡ x ∷ r.items) × (r.capacity ≡ q.capacity)
  unfolding pop
  pop-items q x r e = pop_front-items q.capacity q.items x r e

  -- What holds of the history and the queue in every reachable state.
  pub record InOrder (limit : ℕ) (s : System A) : Type ℓ where
    pub fifo : s.received ++ s.queue.items ≡ s.sent
    pub same : s.queue.capacity ≡ limit
    pub bounded : get_size s.queue ≤ limit

  Notified-InOrder : {limit : ℕ} {s t : System A} → Notified s t → InOrder limit s → InOrder limit t
  Notified-InOrder (nobody a b) o = o
  Notified-InOrder (producer k e) o = record { fifo = o.fifo; same = o.same; bounded = o.bounded }
  Notified-InOrder (consumer k e) o = record { fifo = o.fifo; same = o.same; bounded = o.bounded }

  Step-InOrder : {limit : ℕ} {s t : System A} → Step s t → InOrder limit s → InOrder limit t
  unfolding get_size
  Step-InOrder {limit} {s} (pushes x q a e n) o =
      let i = push-items x s.queue q e in
      Notified-InOrder n (record {
        fifo = rw (i.0, ← append_assoc, o.fifo);
        same = i.1 ∙ o.same;
        bounded = omega (arith, i, o.same);
      })
  Step-InOrder (push_waits x k a e) o = record { fifo = o.fifo; same = o.same; bounded = o.bounded }
  Step-InOrder {limit} {s} (pops x q a e n) o =
      let i = pop-items s.queue x q e in
      Notified-InOrder n (record {
        fifo = rw append_assoc (rw (← i.0) o.fifo);
        same = i.1 ∙ o.same;
        bounded = omega (arith, ap length i.0, o.bounded);
      })
  Step-InOrder (pop_waits k a e) o = record { fifo = o.fifo; same = o.same; bounded = o.bounded }

  Reach-InOrder : {limit : ℕ} {s t : System A} → InOrder limit s → Reach s t → InOrder limit t
  Reach-InOrder o here = o
  Reach-InOrder o (next r st) = Step-InOrder st (Reach-InOrder o r)

  -- Whatever the number of threads and their interleaving: what has been popped, then what is in
  -- the queue, is what has been pushed, in that order, and the queue holds at most `limit` items.
  pub queue-InOrder :
      (limit producers consumers : ℕ) {s : System A}
      → Reach (start limit producers consumers) s
      → (s.received ++ s.queue.items ≡ s.sent) × (get_size s.queue ≤ limit)
  unfolding start init get_size
  queue-InOrder limit producers consumers r =
      let o =
        Reach-InOrder {limit = limit} (record { fifo = refl; same = refl; bounded = omega arith })
          r in
      (o.fifo, o.bounded)
