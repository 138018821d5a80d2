-- ===== src/Gnuplot/Sampling.antt =====
-- modules/gnuplot/Handler.cpp: the handler that gathers the samples of all hosts, up to the exit of
-- the program. What it saves then, the log, and the variables that it only adds to and never reads
-- are left out. `parse` is protobuf's parsing of the data, `trunc` the conversion to uint32_t,
-- which is undefined for a number out of its range. The
-- containers behind pointers have one owner, and are values here.
pub mod Filing
pub mod Kept
pub mod Hosts
use wall_mon.Base.{
  ℕ, suc, ◌+◌, ◌*◌, ◌%◌, ◌^◌, Bool, true, false, ◌||◌, not, Option, none, some, List, [], ◌∷◌, ◌++◌,
  String, length, leb, ◌==◌, if◌then◌else◌, negsuc,
}
use wall_mon.Base.Bytes.{key_eq, or_else}
use wall_mon.Base.Double.{Double, int, ratio}
use wall_mon.Base.NatMap
use wall_mon.Base.StrMap
use wall_mon.Barchart.{find, put}
use wall_mon.Message.{Message}
use wall_mon.Processes.Collector.{ProcessMessage}
use wall_mon.Stat.{Stat, new_sample, add}

-- A value is added to the list of its key, which is made if there is none.
unfoldable pub file : {A : Type 0} → ℕ → A → List (ℕ × List A) → List (ℕ × List A)
file k x m = elim (NatMap.lookup k m) [
  | none ↦ NatMap.insert k (x ∷ []) m
  | some xs ↦ NatMap.insert k (xs ++ (x ∷ [])) m
]

module _ (d : Double) where
  pub record Handler : Type 0 where
    pub expected_num_samples_per_node : ℕ
    pub num_samples : ℕ
    pub expected_total_num_samples : ℕ
    pub target_processes : List (List ℕ)
    pub num_server_connections : Stat ℕ
    pub network_receive_mega_bytes_per_sec : Stat d.Num
    pub previous_timestamp : d.Num
    pub sum_bytes_network_receive : ℕ
    pub termination_cond : List (String × ℕ)
    pub hz_to_wallmon_messages : List (ℕ × List (Message d.Num))
    pub proc_name_to_hz : List (List ℕ × List (ℕ × List (ProcessMessage d.Num)))
    pub hz_to_seq_num : List (ℕ × List (ℕ × List (Message d.Num)))

  -- A failed CHECK, LOG(FATAL) or undefined behaviour, the program's exit, and the return.
  pub data Handled : Type 0 where
    fails : Handled
    exits : Handler → Handled
    goes_on : Handler → Handled

  -- `OnInit`, with "wallmons" and "wallmond" as `targets`.
  unfoldable pub on_init : ℕ → List (List ℕ) → Handler
  unfolding new_sample
  on_init per_node targets = record {
    expected_num_samples_per_node = per_node;
    num_samples = 0;
    expected_total_num_samples = 9999;
    target_processes = targets;
    num_server_connections = new_sample (record { samples = [] });
    network_receive_mega_bytes_per_sec = record { samples = [] };
    previous_timestamp = d.num (negsuc 0);
    sum_bytes_network_receive = 0;
    termination_cond = [];
    hz_to_wallmon_messages = [];
    proc_name_to_hz = [];
    hz_to_seq_num = [];
  }

  unfoldable pub is_target_process : List (List ℕ) → List ℕ → Bool
  is_target_process [] name = false
  is_target_process (s ∷ rest) name = key_eq name s || is_target_process rest name

  -- The bytes of a second, when one has passed.
  unfoldable pub count_network_receive : ℕ → d.Num → Handler → Option Handler
  unfolding new_sample
  count_network_receive bytes now h =
      let value : d.Num = d.div (int d h.sum_bytes_network_receive) (int d 1048576) in
      if d.le (int d 1000) (d.sub now h.previous_timestamp)
      then elim (add value (new_sample h.network_receive_mega_bytes_per_sec)) [
        | none ↦ none
        | some s ↦ some (record h {
          previous_timestamp = now;
          network_receive_mega_bytes_per_sec = s;
          sum_bytes_network_receive = bytes;
        })
      ]
      else some
          (record h { sum_bytes_network_receive = (h.sum_bytes_network_receive + bytes) % 2 ^ 64 })

  unfoldable pub maintain_network_receive_per_sec : Message d.Num → Handler → Option Handler
  maintain_network_receive_per_sec m h =
      let bytes : ℕ = or_else 0 m.network_message_size_bytes in
      let now : d.Num = or_else (int d 0) m.server_timestamp_msec in
      if d.lt h.previous_timestamp (int d 0)
      then some (record h { previous_timestamp = now; sum_bytes_network_receive = bytes })
      else count_network_receive bytes now h

  -- The number of samples of the message's host, as the code counts them.
  unfoldable pub count_host : String → Handler → ℕ × Handler
  count_host host h = elim (StrMap.lookup host h.termination_cond) [
    | none ↦ (
      0 + 1,
      record h {
        termination_cond = StrMap.insert host (0 + 1) h.termination_cond;
        expected_total_num_samples =
            h.expected_num_samples_per_node
            * length (StrMap.insert host (0 + 1) h.termination_cond);
      },
    )
    | some n ↦ (1, record h { termination_cond = StrMap.insert host 1 h.termination_cond })
  ]

  unfoldable pub add_connections : Message d.Num → Handler → Option Handler
  add_connections m h = elim m.daemon_num_server_connections [
    | none ↦ some h
    | some n ↦ elim (add n h.num_server_connections) [
      | none ↦ none
      | some s ↦ some (record h { num_server_connections = s })
    ]
  ]

  -- A target process in the two maps, by its name, the frequency and the sequence number.
  unfoldable pub record_process : ℕ → Message d.Num → ProcessMessage d.Num → Handler → Handler
  record_process hz m p h =
      let name : List ℕ = or_else [] p.process_name in
      let by_hz : List (ℕ × List (ProcessMessage d.Num)) =
        or_else [] (find name h.proc_name_to_hz) in
      let by_seq : List (ℕ × List (Message d.Num)) =
        or_else [] (NatMap.lookup hz h.hz_to_seq_num) in
      record h {
        proc_name_to_hz = put name (file hz p by_hz) h.proc_name_to_hz;
        hz_to_seq_num =
            NatMap.insert hz (file (or_else 0 m.collector_sequence_number) m by_seq)
              h.hz_to_seq_num;
      }

  -- The loop over the process messages, in which the program may exit.
  unfoldable pub handle_processes :
      ℕ → Message d.Num → List (ProcessMessage d.Num) → Handler → Handled
  handle_processes hz m [] h = goes_on h
  handle_processes hz m (p ∷ ps) h =
      elim (is_target_process h.target_processes (or_else [] p.process_name)) [
        | false ↦ handle_processes hz m ps h
        | true ↦ elim (h.num_samples == h.expected_total_num_samples) [
          | true ↦ exits (record_process hz m p h)
          | false ↦ handle_processes hz m ps (record_process hz m p h)
        ]
      ]

  -- A sample that is not discarded.
  unfoldable pub add_sample : ℕ → Message d.Num → List (ProcessMessage d.Num) → Handler → Handled
  add_sample hz m ps h =
      elim (maintain_network_receive_per_sec m (record h { num_samples = suc h.num_samples })) [
        | none ↦ fails
        | some h1 ↦ elim (add_connections m h1) [
          | none ↦ fails
          | some h2 ↦
              handle_processes hz m ps
                (record h2 { hz_to_wallmon_messages = file hz m h2.hz_to_wallmon_messages })
        ]
      ]

  module _ (trunc : d.Num → Option ℕ) where
    -- `hz`.
    unfoldable pub rate : Message d.Num → Option ℕ
    rate m = trunc (d.div (int d 1000) (or_else (int d 0) m.sample_frequency_msec))

    module _ (parse : List ℕ → Option (List (ProcessMessage d.Num))) where
      unfoldable pub handle : Message d.Num → Handler → Handled
      handle m h = elim (parse (or_else [] m.payload)) [
        | none ↦ fails
        | some ps ↦ elim (rate m) [
          | none ↦ fails
          | some hz ↦
              let counted : ℕ × Handler = count_host (or_else "" m.hostname) h in
              if leb h.expected_num_samples_per_node counted.0
              then goes_on counted.1
              else add_sample hz m ps counted.1
        ]
      ]
