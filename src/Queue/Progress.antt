-- ===== src/Queue/Progress.antt =====
-- Whether threads in Push and Pop of lib/Queue.h can all end up waiting.
use wall_mon.Base.{
  ℕ, suc, ◌+◌, ◌≤◌, ◌<◌, ◌≡◌, refl, ◌∙◌, ◌⊎◌, inl, inr, arith, none, some, List, [], ◌∷◌, ◌++◌,
  length,
}
use native.Mathlib.Decide.{dec_lt}
use wall_mon.Queue.{Queue, init, get_size, push, pop_front, pop}
use wall_mon.Queue.Threads.{
  System, start, Notified, nobody, producer, consumer, Step, pushes, push_waits, pops, pop_waits,
  Reach, here, next,
}
use wall_mon.Queue.Order.{push-items, pop-items}

module _ {ℓ} {A : Type ℓ} where
  push-none : (x : A) (q : Queue A) → push x q ≡ none → q.capacity ≤ get_size q
  unfolding push
  push-none x q e = ground arith

  push-some : (x : A) (q : Queue A) → get_size q < q.capacity → (r : Queue A) × (push x q ≡ some r)
  unfolding push
  push-some x q h = (record q { items = q.items ++ (x ∷ []) }, ground arith)

  pop_front-none : (c : ℕ) (xs : List A) → pop_front c xs ≡ none → length xs ≡ 0
  unfolding pop_front
  pop_front-none c [] e = refl
  pop_front-none c (x ∷ xs) e = ground arith

  pop-none : (q : Queue A) → pop q ≡ none → get_size q ≡ 0
  unfolding pop get_size
  pop-none q e = pop_front-none q.capacity q.items e

  pop_front-some :
      (c : ℕ) (xs : List A)
      → 0 < length xs
      → (x : A) × (r : Queue A) × (pop_front c xs ≡ some (x, r))
  unfolding pop_front
  pop_front-some c [] h = absurd (omega arith)
  pop_front-some c (x ∷ xs) h = (x, record { capacity = c; items = xs }, refl)

  pop-some : (q : Queue A) → 0 < get_size q → (x : A) × (r : Queue A) × (pop q ≡ some (x, r))
  unfolding pop get_size
  pop-some q h = pop_front-some q.capacity q.items h

  pub record Lively (limit producers : ℕ) (s : System A) : Type ℓ where
    pub same : s.queue.capacity ≡ limit
    pub pushers : s.pushing + s.push_waiting ≡ producers
    pub poppers : s.popping + s.pop_waiting ≡ 1
    -- Not all producers wait, unless the queue is full.
    pub ready : (0 < s.pushing) ⊎ (limit ≤ get_size s.queue)
    -- While the consumer waits, each item came with a wakeup of a producer.
    pub awake : (s.pop_waiting ≡ 0) ⊎ (get_size s.queue + s.push_waiting < producers)

  module _ {limit producers : ℕ} (one : 0 < limit) (some_producer : 0 < producers)
      (few : producers ≤ limit) where
    push_waits-Lively :
        (s : System A) (x : A) (k : ℕ)
        → s.pushing ≡ suc k
        → push x s.queue ≡ none
        → Lively limit producers s
        → Lively limit producers (record s { pushing = k; push_waiting = suc s.push_waiting })
    push_waits-Lively s x k a e l = ground (arith, push-none x s.queue e)

    pop_waits-Lively :
        (s : System A) (k : ℕ)
        → s.popping ≡ suc k
        → pop s.queue ≡ none
        → Lively limit producers s
        → Lively limit producers (record s { popping = k; pop_waiting = suc s.pop_waiting })
    pop_waits-Lively s k a e l = ground (arith, pop-none s.queue e)

    -- The wakeup at the end of a successful push, and of a successful pop.
    pushed-Lively :
        {s t : System A}
        → Notified s t
        → s.queue.capacity ≡ limit
        → s.pushing + s.push_waiting ≡ producers
        → s.popping + s.pop_waiting ≡ 1
        → 0 < s.pushing
        → (s.pop_waiting ≡ 0) ⊎ (get_size s.queue + s.push_waiting < producers + 1)
        → Lively limit producers t
    pushed-Lively (nobody b c) h0 h1 h2 h3 h4 = ground arith
    pushed-Lively (producer k b) h0 h1 h2 h3 h4 = ground arith
    pushed-Lively (consumer k b) h0 h1 h2 h3 h4 = ground arith

    popped-Lively :
        {s t : System A}
        → Notified s t
        → s.queue.capacity ≡ limit
        → s.pushing + s.push_waiting ≡ producers
        → s.popping + s.pop_waiting ≡ 1
        → 0 < s.popping
        → Lively limit producers t
    popped-Lively (nobody b c) h0 h1 h2 h3 = ground arith
    popped-Lively (producer k b) h0 h1 h2 h3 = ground arith
    popped-Lively (consumer k b) h0 h1 h2 h3 = absurd (omega arith)

    Step-Lively : {s t : System A} → Step s t → Lively limit producers s → Lively limit producers t
    Step-Lively {s} (pushes x q a e n) l =
        let i = push-items x s.queue q e in
        pushed-Lively n (i.1 ∙ l.same) l.pushers l.poppers a (ground (arith, i))
    Step-Lively {s} (push_waits x k a e) l = push_waits-Lively s x k a e l
    Step-Lively {s} (pops x q a e n) l =
        popped-Lively n ((pop-items s.queue x q e).1 ∙ l.same) l.pushers l.poppers a
    Step-Lively {s} (pop_waits k a e) l = pop_waits-Lively s k a e l

    Reach-Lively :
        {s t : System A} → Lively limit producers s → Reach s t → Lively limit producers t
    Reach-Lively l here = l
    Reach-Lively l (next r st) = Step-Lively st (Reach-Lively l r)

  -- What a thread may do next that moves an item.
  abbrev pub Moves : System A → A → Type ℓ
  Moves s x =
      ((q : Queue A) × (0 < s.pushing) × (push x s.queue ≡ some q))
      ⊎ ((y : A) × (q : Queue A) × (0 < s.popping) × (pop s.queue ≡ some (y, q)))

  Lively-Moves :
      (limit producers : ℕ) (s : System A) (x : A)
      → 0 < limit
      → 0 < producers
      → producers ≤ limit
      → Lively limit producers s
      → Moves s x
  Lively-Moves limit producers s x one some_producer few l =
      elim (dec_lt (get_size s.queue) limit) [
        | yes room ↦ elim (dec_lt 0 s.pushing) [
          | yes p ↦ let r = push-some x s.queue (omega (arith, l.same)) in inl (r.0, p, r.1)
          | no p ↦ absurd (ground (arith, l))
        ]
        | no full ↦ let r = pop-some s.queue (omega arith) in inr (r.0, r.1, ground (arith, l), r.2)
      ]

  -- With one consumer and between one and `limit` producers, in every state that their interleaving
  -- reaches some thread is awake that can push an item `x`, or some thread is awake that can pop.
  pub queue-Moves :
      (limit producers : ℕ) (x : A) {s : System A}
      → 0 < producers
      → producers ≤ limit
      → Reach (start limit producers 1) s
      → Moves s x
  unfolding start init get_size
  queue-Moves limit producers x {s} p few r = Lively-Moves limit producers s x (omega arith) p few (
      Reach-Lively (omega arith) p few
        (record {
          same = refl;
          pushers = omega arith;
          poppers = omega arith;
          ready = inl p;
          awake = inl refl;
        })
        r)
