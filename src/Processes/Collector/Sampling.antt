-- ===== src/Processes/Collector/Sampling.antt =====
-- Which processes a sample of lib/ProcessCollector.cpp covers.
use wall_mon.Base.{
  ℕ, ◌≡◌, refl, ap, Bool, true, false, Option, none, some, List, [], ◌∷◌, ◌++◌, map, if◌then◌else◌,
  ap₂, append-nil,
}
use wall_mon.Base.Double.{Double}
use wall_mon.Processes.Monitor.{Monitor, Reading, update, get_process_name}
use wall_mon.Processes.Collector.{
  Filter, ProcessMessage, Sampled, when, fill_message, process_message, sample_from, sample,
}

module _ (d : Double) (truncate : d.Num → ℕ) (num_cores : ℕ) (total_memory_mb : d.Num)
    (filter : Filter) (readings : Monitor d.Num → Reading d.Num) where
  abbrev pub refreshed : Monitor d.Num → Monitor d.Num
  refreshed m = (update (readings m) m).1

  -- What an update returns, and that the name it leaves is not empty.
  abbrev pub Updates : Bool → Monitor d.Num → Type 0
  Updates ok m =
      ((update (readings m) m).0 ≡ ok)
      × (name : List ℕ) × (get_process_name (refreshed m) ≡ some name)

  abbrev pub AllAlive : List (Monitor d.Num) → Type 0
  AllAlive [] = Unit
  AllAlive (m ∷ ms) = Updates true m × AllAlive ms

  -- A message says of which process it is, and whether that has terminated.
  abbrev pub tag : ProcessMessage d.Num → Option Bool × Option ℕ
  tag m = (m.is_terminated, m.pid)

  abbrev pub tag_of : Option Bool → Monitor d.Num → Option Bool × Option ℕ
  tag_of terminated m = (terminated, when filter.pid (refreshed m).pid)

  -- A sample leaves the monitors `ks`, and its messages have the tags `ts`.
  abbrev pub Samples :
      List (Monitor d.Num) → List (Option Bool × Option ℕ) → Option (Sampled d.Num) → Type 0
  Samples ks ts o =
      (s : Sampled d.Num) × (o ≡ some s) × (s.monitors ≡ ks) × (map tag s.messages ≡ ts)

  abbrev Tagged : Option Bool × Option ℕ → Option (ProcessMessage d.Num) → Type 0
  Tagged t o = (msg : ProcessMessage d.Num) × (o ≡ some msg) × (tag msg ≡ t)

  either-Tagged :
      (b : Bool) (t : Option Bool × Option ℕ) (o p : Option (ProcessMessage d.Num))
      → Tagged t o
      → Tagged t p
      → Tagged t (if b then o else p)
  either-Tagged true t o p h k = h
  either-Tagged false t o p h k = k

  process_message-Tagged :
      (b : Bool) (m : Monitor d.Num) (name : List ℕ)
      → get_process_name m ≡ some name
      → Tagged
          ((if b then none else some true), when filter.pid m.pid)
          (process_message d truncate num_cores total_memory_mb filter b m)
  unfolding process_message fill_message
  process_message-Tagged b m name e =
      either-Tagged filter.process_name _ _ _
        (rw e
          (fill_message d truncate num_cores total_memory_mb filter b (some name) m, refl, refl))
        (fill_message d truncate num_cores total_memory_mb filter b none m, refl, refl)

  abbrev sample_rest : Bool → List (Monitor d.Num) → Option (Sampled d.Num)
  sample_rest skip ms = sample_from d truncate num_cores total_memory_mb filter readings skip ms

  -- A process that is alive, and what follows it.
  alive-Samples :
      (m : Monitor d.Num) (ms ks : List (Monitor d.Num)) (ts : List (Option Bool × Option ℕ))
      → Updates true m
      → Samples ks ts (sample_rest false ms)
      → Samples (refreshed m ∷ ks) (tag_of none m ∷ ts) (sample_rest false (m ∷ ms))
  unfolding sample_from
  alive-Samples m ms ks ts (ok, name, named) (s, e, k, t) =
      let (msg, e', g) = process_message-Tagged true (refreshed m) name named in
      rw (ok, sample_from)
        (rw e' (
          rw e (
            record { monitors = refreshed m ∷ s.monitors; messages = msg ∷ s.messages },
            refl,
            ap (λ l. refreshed m ∷ l) k,
            ap₂ (λ x l. x ∷ l) g t,
          )))

  -- A process that has terminated, and the next, which is passed over.
  terminated-Samples :
      (m y : Monitor d.Num) (ms ks : List (Monitor d.Num)) (ts : List (Option Bool × Option ℕ))
      → Updates false m
      → Samples ks ts (sample_rest false ms)
      → Samples (y ∷ ks) (tag_of (some true) m ∷ ts) (sample_rest false (m ∷ y ∷ ms))
  unfolding sample_from
  terminated-Samples m y ms ks ts (ok, name, named) (s, e, k, t) =
      let (msg, e', g) = process_message-Tagged false (refreshed m) name named in
      rw (ok, sample_from)
        (rw e' (
          rw e (
            record { monitors = y ∷ s.monitors; messages = msg ∷ s.messages },
            refl,
            ap (λ l. y ∷ l) k,
            ap₂ (λ x l. x ∷ l) g t,
          )))

  AllAlive-Samples :
      (xs ms ks : List (Monitor d.Num)) (ts : List (Option Bool × Option ℕ))
      → AllAlive xs
      → Samples ks ts (sample_rest false ms)
      → Samples (map refreshed xs ++ ks) (map (tag_of none) xs ++ ts) (sample_rest false (xs ++ ms))
  AllAlive-Samples [] ms ks ts a s = s
  AllAlive-Samples (x ∷ xs) ms ks ts a s =
      alive-Samples x (xs ++ ms) (map refreshed xs ++ ks) (map (tag_of none) xs ++ ts) a.0
        (AllAlive-Samples xs ms ks ts a.1 s)

  nothing-Samples : Samples [] [] (sample_rest false [])
  unfolding sample_from
  nothing-Samples = (record { monitors = []; messages = [] }, refl, refl, refl)

  -- While every update succeeds and leaves a name, a sample keeps all monitors, each updated once,
  -- and has a message for each process, in order, none of them terminated.
  pub sample-alive :
      (ms : List (Monitor d.Num))
      → AllAlive ms
      → Samples
          (map refreshed ms)
          (map (tag_of none) ms)
          (sample d truncate num_cores total_memory_mb filter readings ms)
  unfolding sample
  sample-alive ms a =
      rw (append-nil ms, append-nil (map refreshed ms), append-nil (map (tag_of none) ms)) at
        (AllAlive-Samples ms [] [] [] a nothing-Samples)

  -- One process `m` of a sample has terminated, and all others update. Then its monitor goes, with a
  -- last message that says so; but the process `y` right behind it gets no update and no message.
  pub sample-terminated :
      (xs : List (Monitor d.Num)) (m y : Monitor d.Num) (ys : List (Monitor d.Num))
      → AllAlive xs
      → Updates false m
      → AllAlive ys
      → Samples
          (map refreshed xs ++ (y ∷ map refreshed ys))
          (map (tag_of none) xs ++ (tag_of (some true) m ∷ map (tag_of none) ys))
          (sample d truncate num_cores total_memory_mb filter readings (xs ++ (m ∷ y ∷ ys)))
  unfolding sample
  sample-terminated xs m y ys a gone a' =
      AllAlive-Samples xs (m ∷ y ∷ ys) (y ∷ map refreshed ys) _ a (
        terminated-Samples m y ys (map refreshed ys) (map (tag_of none) ys) gone
          (sample-alive ys a'))
