-- ===== src/Processes/Collector.antt =====
-- lib/ProcessCollector.h, lib/ProcessCollector.cpp and lib/stubs/ProcessCollector.proto: a sample of
-- all processes. What an update of a monitor finds is an argument, the reading for each monitor.
-- A field of a message that is not set is `none`; the filter says which fields are wanted.
pub mod Sampling
use wall_mon.Base.{
  ℕ, suc, ◌+◌, ◌*◌, ◌%◌, ◌^◌, String, Bool, true, false, Option, none, some, List, [], ◌∷◌, ◌++◌,
  if◌then◌else◌, pos, ◌&&◌,
}
use wall_mon.Base.Results.{◌>>=◌}
use wall_mon.Base.Double.{Double}
use wall_mon.Processes.Monitor.{
  Monitor, Reading, update, is_first_time, get_total_program_size_bytes, get_total_io_in_bytes,
  get_total_io_out_bytes, get_storage_in_bytes, get_storage_out_bytes, get_network_in_bytes,
  get_network_out_bytes, get_process_name,
}
use wall_mon.Processes.Monitor.Rates.{
  get_user_cpu_load, get_system_cpu_load, get_total_program_size, get_num_read_sys_calls_per_sec,
  get_num_write_sys_calls_per_sec, get_total_num_page_faults_per_sec,
}

-- `filter`: for each field whether it is set there.
pub record Filter : Type 0 where
  pub process_name : Bool
  pub pid : Bool
  pub user_cpu_load : Bool
  pub system_cpu_load : Bool
  pub user_cpu_utilization : Bool
  pub system_cpu_utilization : Bool
  pub memory_utilization : Bool
  pub memory_bytes : Bool
  pub io_in_bytes : Bool
  pub io_out_bytes : Bool
  pub network_in_bytes : Bool
  pub network_out_bytes : Bool
  pub storage_in_bytes : Bool
  pub storage_out_bytes : Bool
  pub num_read_system_calls_per_sec : Bool
  pub num_write_system_calls_per_sec : Bool
  pub user : Bool
  pub start_time : Bool
  pub num_threads : Bool
  pub num_page_faults_per_sec : Bool

pub record ProcessMessage (N : Type 0) : Type 0 where
  pub is_terminated : Option Bool
  pub process_name : Option (List ℕ)
  pub pid : Option ℕ
  pub user_cpu_load : Option N
  pub system_cpu_load : Option N
  pub user_cpu_utilization : Option N
  pub system_cpu_utilization : Option N
  pub memory_utilization : Option N
  pub memory_bytes : Option ℕ
  pub io_in_bytes : Option ℕ
  pub io_out_bytes : Option ℕ
  pub network_in_bytes : Option ℕ
  pub network_out_bytes : Option ℕ
  pub storage_in_bytes : Option ℕ
  pub storage_out_bytes : Option ℕ
  pub num_read_system_calls_per_sec : Option ℕ
  pub num_write_system_calls_per_sec : Option ℕ
  pub user : Option String
  pub start_time : Option String
  pub num_threads : Option ℕ
  pub num_page_faults_per_sec : Option N

-- The monitors that a sample leaves, and its messages.
pub record Sampled (N : Type 0) : Type 0 where
  pub monitors : List (Monitor N)
  pub messages : List (ProcessMessage N)

abbrev pub when : {A : Type 0} → Bool → A → Option A
when true a = some a
when false a = none

-- Setting a uint32 field to an unsigned long.
abbrev uint32 : ℕ → ℕ
uint32 n = n % 2 ^ 32

module _ (d : Double)
    -- The conversion of a float to a uint32.
    (truncate : d.Num → ℕ) (num_cores : ℕ) (total_memory_mb : d.Num) (filter : Filter) where
  -- A load spread over all cores, in percent.
  unfoldable pub utilization : d.Num → d.Num
  utilization load = d.mul (d.div load (d.num (pos (num_cores * 100)))) (d.num (pos 100))

  -- The message for a monitor, with the name that is set only if the filter wants it.
  unfoldable pub fill_message : Bool → Option (List ℕ) → Monitor d.Num → ProcessMessage d.Num
  unfolding utilization
  fill_message updated name m = record {
    is_terminated = if updated then none else some true;
    process_name = name;
    pid = when filter.pid m.pid;
    user_cpu_load = when filter.user_cpu_load (get_user_cpu_load d m);
    system_cpu_load = when filter.system_cpu_load (get_system_cpu_load d m);
    user_cpu_utilization = when filter.user_cpu_utilization (utilization (get_user_cpu_load d m));
    system_cpu_utilization =
        when filter.system_cpu_utilization (utilization (get_system_cpu_load d m));
    memory_utilization =
        when filter.memory_utilization
          (d.mul (d.div (get_total_program_size d m) total_memory_mb) (d.num (pos 100)));
    memory_bytes = when filter.memory_bytes (get_total_program_size_bytes m);
    io_in_bytes = when filter.io_in_bytes (uint32 (get_total_io_in_bytes m));
    io_out_bytes = when filter.io_out_bytes (uint32 (get_total_io_out_bytes m));
    network_in_bytes = when filter.network_in_bytes (uint32 (get_network_in_bytes m));
    network_out_bytes = when filter.network_out_bytes (uint32 (get_network_out_bytes m));
    storage_in_bytes = when filter.storage_in_bytes (uint32 (get_storage_in_bytes m));
    storage_out_bytes = when filter.storage_out_bytes (uint32 (get_storage_out_bytes m));
    num_read_system_calls_per_sec =
        when filter.num_read_system_calls_per_sec (truncate (get_num_read_sys_calls_per_sec d m));
    num_write_system_calls_per_sec =
        when filter.num_write_system_calls_per_sec (truncate (get_num_write_sys_calls_per_sec d m));
    user = when (filter.user && is_first_time m) m.user;
    start_time = when (filter.start_time && is_first_time m) m.start_time;
    num_threads = when filter.num_threads m.num_threads;
    num_page_faults_per_sec =
        when filter.num_page_faults_per_sec (get_total_num_page_faults_per_sec d m);
  }

  -- `none` where taking the parentheses off the name throws.
  unfoldable pub process_message : Bool → Monitor d.Num → Option (ProcessMessage d.Num)
  process_message updated m =
      if filter.process_name
      then elim (get_process_name m) [
        | none ↦ none
        | some name ↦ some (fill_message updated (some name) m)
      ]
      else some (fill_message updated none m)

  module _ (readings : Monitor d.Num → Reading d.Num) where
    -- The loop of `Sample` from an index on. `skip` tells that the last round erased its monitor:
    -- what then stood behind it has its place, and `i++` passes it over.
    unfoldable pub sample_from : Bool → List (Monitor d.Num) → Option (Sampled d.Num)
    sample_from skip [] = some (record { monitors = []; messages = [] })
    sample_from true (m ∷ ms) = do
      rest ← sample_from false ms
      some (record rest { monitors = m ∷ rest.monitors })
    sample_from false (m ∷ ms) = do
      let (updated, m') = update (readings m) m
      message ← process_message updated m'
      rest ← sample_from (if updated then false else true) ms
      some (record {
        monitors = if updated then m' ∷ rest.monitors else rest.monitors;
        messages = message ∷ rest.messages;
      })

    unfoldable pub sample : List (Monitor d.Num) → Option (Sampled d.Num)
    unfolding sample_from
    sample ms = sample_from false ms

    -- `_AddProcess` of a monitor, `opened` being what `Open` returned.
    unfoldable pub add_process : Bool → Monitor d.Num → List (Monitor d.Num) → List (Monitor d.Num)
    add_process opened m ms =
        let (updated, m') = update (readings m) m in
        if opened then (if updated then ms ++ (m' ∷ []) else ms) else ms
