-- ===== src/Gnuplot/Sampling/Kept.antt =====
-- What the handler of modules/gnuplot/Handler.cpp keeps of the messages it has received.
use wall_mon.Base.{
  ℕ, suc, ◌*◌, ◌≤◌, ◌≡◌, refl, sym, ap, ◌∙◌, arith, Option, none, some, List, [], ◌∷◌, ◌++◌, length,
  length-append, String, ◌==◌, ==_iff, Bool-cases, if_lem, inl, inr,
}
use wall_mon.Base.Bytes.{or_else}
use wall_mon.Base.Double.{Double, int}
use wall_mon.Message.{Message}
use wall_mon.Processes.Collector.{ProcessMessage}
use wall_mon.Stat.{Stat, new_sample, add, add_last}
use wall_mon.Gnuplot.Sampling.{
  file, Handler, Handled, fails, exits, goes_on, is_target_process, count_network_receive,
  maintain_network_receive_per_sec, add_connections, record_process, handle_processes, add_sample,
  rate,
}
use wall_mon.Gnuplot.Sampling.Filing.{total, total-file, Filed, file-Filed}

add_last-some :
    {N : Type 0} (v : N) (xs : List N) (r : List (List N))
    → (t : List (List N)) × (add_last v (xs ∷ r) ≡ some t) × (1 ≤ length t)
unfolding add_last
add_last-some v xs [] = (_, refl, omega arith)
add_last-some v xs (ys ∷ r) =
    let (t, e, h) = add_last-some v ys r in (xs ∷ t, rw (e, add_last) refl, omega arith)

-- `Add` returns when there is a sample, and there still is one.
add-some :
    {N : Type 0} (v : N) (r : List (List N))
    → 1 ≤ length r
    → (t : Stat N) × (add v (record { samples = r }) ≡ some t) × (1 ≤ length t.samples)
unfolding add
add-some v [] h = absurd (omega (arith, h))
add-some v (xs ∷ r) h =
    let (t, e, k) = add_last-some v xs r in (record { samples = t }, rw (e, add) refl, k)

module _ (d : Double) (trunc : d.Num → Option ℕ) (p : ℕ) where
  -- `n` samples are counted and `k` messages kept, each under its own frequency. The total that the
  -- handler waits for is `p` for each host that it has heard of, if it has of any.
  pub record Counts (n k per_node counted expected : ℕ) (connections : Stat ℕ)
      (hosts : List (String × ℕ)) (messages : List (ℕ × List (Message d.Num))) : Type 0 where
    pub same_per_node : per_node ≡ p
    pub all_counted : counted ≡ n
    pub all_stored : total messages ≡ k
    pub rated : Filed (λ m hz. rate d trunc m ≡ some hz) messages
    pub for_hosts : 1 ≤ length hosts → expected ≡ p * length hosts
    pub opened : 1 ≤ length connections.samples

  abbrev pub Kept : ℕ → ℕ → Handler d → Type 0
  Kept n k h =
      Counts n k h.expected_num_samples_per_node h.num_samples h.expected_total_num_samples
        h.num_server_connections h.termination_cond h.hz_to_wallmon_messages

  -- `n` messages are kept when the call returns. When the program exits they are no more than
  -- that, and as many as it waits for.
  abbrev pub Ends : ℕ → Handled d → Type 0
  Ends n fails = ⊥
  Ends n (exits h) = (i : ℕ) × (i ≤ n) × Kept i i h × (i ≡ h.expected_total_num_samples)
  Ends n (goes_on h) = Kept n n h

  abbrev Got : ℕ → ℕ → Option (Handler d) → Type 0
  Got n k none = ⊥
  Got n k (some h) = Kept n k h

  count_network_receive-Got :
      (bytes n k : ℕ) (now : d.Num) (h : Handler d)
      → Kept n k h
      → Got n k (count_network_receive d bytes now h)
  unfolding count_network_receive new_sample
  count_network_receive-Got bytes n k now h a =
      let some_sample = length-append h.network_receive_mega_bytes_per_sec.samples ([] ∷ []) in
      let (t, e, l) =
        add-some (d.div (int d h.sum_bytes_network_receive) (int d 1048576))
          (h.network_receive_mega_bytes_per_sec.samples ++ ([] ∷ []))
          (omega (arith, some_sample)) in
      if_lem (Got n k) (d.le (int d 1000) (d.sub now h.previous_timestamp)) (λ passed. rw e a)
        (λ early. a)

  maintain-Got :
      (m : Message d.Num) (n k : ℕ) (h : Handler d)
      → Kept n k h
      → Got n k (maintain_network_receive_per_sec d m h)
  unfolding maintain_network_receive_per_sec
  maintain-Got m n k h a =
      if_lem (Got n k) (d.lt h.previous_timestamp (int d 0)) (λ old. a)
        (λ new. count_network_receive-Got _ n k _ h a)

  add_connections-Got :
      (m : Message d.Num) (n k : ℕ) (h : Handler d) → Kept n k h → Got n k (add_connections d m h)
  unfolding add_connections
  add_connections-Got m n k h a = go m.daemon_num_server_connections
    where
      go :
          (o : Option ℕ)
          → Got n k (elim o [
            | none ↦ some h
            | some v ↦ elim (add v h.num_server_connections) [
              | none ↦ none
              | some s ↦ some (record h { num_server_connections = s })
            ]
          ])
      go none = a
      go (some v) =
          let (t, e, l) = add-some v h.num_server_connections.samples a.opened in
          rw e (record {
            same_per_node = a.same_per_node;
            all_counted = a.all_counted;
            all_stored = a.all_stored;
            rated = a.rated;
            for_hosts = a.for_hosts;
            opened = l;
          })

  handle_processes-Ends :
      (hz n : ℕ) (m : Message d.Num) (ps : List (ProcessMessage d.Num)) (h : Handler d)
      → Kept n n h
      → Ends n (handle_processes d hz m ps h)
  unfolding handle_processes record_process
  handle_processes-Ends hz n m [] h a = a
  handle_processes-Ends hz n m (q ∷ ps) h a =
      elim (Bool-cases (is_target_process d h.target_processes (or_else [] q.process_name))) [
        | inr other ↦ rw (Ends, handle_processes, other) (handle_processes-Ends hz n m ps h a)
        | inl target ↦ elim (Bool-cases (h.num_samples == h.expected_total_num_samples)) [
          | inl full ↦
              let all = (==_iff h.num_samples h.expected_total_num_samples).0 full in
              rw (Ends, handle_processes, target, full) (n, omega arith, a, sym a.all_counted ∙ all)
          | inr more ↦
              rw (Ends, handle_processes, target, more)
                (handle_processes-Ends hz n m ps (record_process d hz m q h) a)
        ]
      ]

  pub add_sample-Ends :
      (n hz : ℕ) (m : Message d.Num) (ps : List (ProcessMessage d.Num)) (h : Handler d)
      → rate d trunc m ≡ some hz
      → Kept n n h
      → Ends (suc n) (add_sample d hz m ps h)
  unfolding add_sample
  add_sample-Ends n hz m ps h at a =
      go (maintain_network_receive_per_sec d m (record h { num_samples = suc h.num_samples })) (
        maintain-Got m (suc n) n (record h { num_samples = suc h.num_samples })
          (record {
            same_per_node = a.same_per_node;
            all_counted = ap suc a.all_counted;
            all_stored = a.all_stored;
            rated = a.rated;
            for_hosts = a.for_hosts;
            opened = a.opened;
          }))
    where
      more :
          (o : Option (Handler d))
          → Got (suc n) n o
          → Ends (suc n) (elim o [
            | none ↦ fails
            | some h2 ↦
                handle_processes d hz m ps
                  (record h2 { hz_to_wallmon_messages = file hz m h2.hz_to_wallmon_messages })
          ])
      more none g = absurd g
      more (some h2) g = handle_processes-Ends hz (suc n) m ps _ (record {
        same_per_node = g.same_per_node;
        all_counted = g.all_counted;
        all_stored = total-file hz m h2.hz_to_wallmon_messages ∙ ap suc g.all_stored;
        rated =
            file-Filed (λ m hz. rate d trunc m ≡ some hz) hz m h2.hz_to_wallmon_messages at g.rated;
        for_hosts = g.for_hosts;
        opened = g.opened;
      })

      go :
          (o : Option (Handler d))
          → Got (suc n) n o
          → Ends (suc n) (elim o [
            | none ↦ fails
            | some h1 ↦ elim (add_connections d m h1) [
              | none ↦ fails
              | some h2 ↦
                  handle_processes d hz m ps
                    (record h2 { hz_to_wallmon_messages = file hz m h2.hz_to_wallmon_messages })
            ]
          ])
      go none g = absurd g
      go (some h1) g = more (add_connections d m h1) (add_connections-Got m (suc n) n h1 g)
