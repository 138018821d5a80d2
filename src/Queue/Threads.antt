-- ===== src/Queue/Threads.antt =====
-- Threads that share a queue, as interleavings of the passes of Push and Pop (lib/Queue.h).
-- Threads are counted by what they do: in a loop of Push or Pop and ready for the mutex, or
-- waiting on the condition variable, which both loops share. `notify_one` wakes any one waiter,
-- of either kind; a spurious wakeup is not a step. `sent` and `received` are the history.
use wall_mon.Base.{ℕ, suc, ◌<◌, ◌≡◌, none, some, List, [], ◌∷◌, ◌++◌}
use wall_mon.Queue.{Queue, init, push, pop}

pub record System {ℓ} (A : Type ℓ) : Type ℓ where
  pub queue : Queue A
  pub pushing : ℕ
  pub push_waiting : ℕ
  pub popping : ℕ
  pub pop_waiting : ℕ
  pub sent : List A
  pub received : List A

module _ {ℓ} {A : Type ℓ} where
  -- `producers` threads that push and `consumers` threads that pop, none of them waiting yet.
  unfoldable pub start : ℕ → ℕ → ℕ → System A
  start capacity producers consumers = record {
    queue = init capacity;
    pushing = producers;
    push_waiting = 0;
    popping = consumers;
    pop_waiting = 0;
    sent = [];
    received = [];
  }

  -- `_condition.notify_one()`.
  pub data Notified (s : System A) : System A → Type ℓ where
    nobody : s.push_waiting ≡ 0 → s.pop_waiting ≡ 0 → Notified s s
    producer :
        (k : ℕ)
        → s.push_waiting ≡ suc k
        → Notified s (record s { push_waiting = k; pushing = suc s.pushing })
    consumer :
        (k : ℕ)
        → s.pop_waiting ≡ suc k
        → Notified s (record s { pop_waiting = k; popping = suc s.popping })

  pub data Step (s : System A) : System A → Type ℓ where
    pushes :
        (x : A) (q : Queue A) {t : System A}
        → 0 < s.pushing
        → push x s.queue ≡ some q
        → Notified (record s { queue = q; sent = s.sent ++ (x ∷ []) }) t
        → Step s t
    push_waits :
        (x : A) (k : ℕ)
        → s.pushing ≡ suc k
        → push x s.queue ≡ none
        → Step s (record s { pushing = k; push_waiting = suc s.push_waiting })
    pops :
        (x : A) (q : Queue A) {t : System A}
        → 0 < s.popping
        → pop s.queue ≡ some (x, q)
        → Notified (record s { queue = q; received = s.received ++ (x ∷ []) }) t
        → Step s t
    pop_waits :
        (k : ℕ)
        → s.popping ≡ suc k
        → pop s.queue ≡ none
        → Step s (record s { popping = k; pop_waiting = suc s.pop_waiting })

  pub data Reach (s : System A) : System A → Type ℓ where
    here : Reach s s
    next : {t u : System A} → Reach s t → Step t u → Reach s u
