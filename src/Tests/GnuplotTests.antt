-- ===== src/Tests/GnuplotTests.antt =====
-- modules/gnuplot.
use wall_mon.Base.{
  ℕ, ◌+◌, ◌≡◌, refl, arith, Option, none, some, List, [], ◌∷◌, ℤ, pos, negsuc, length, String,
}
use wall_mon.Message
use wall_mon.Message.{Message}
use wall_mon.Processes.Collector.{ProcessMessage}
use wall_mon.Gnuplot.Intervals.{get_total_num_samples, period, Controller, create, sample_intervals}
use wall_mon.Gnuplot.Schedule.{samples, planned, exited, samples-planned}
use wall_mon.Gnuplot.Sampling.{on_init, rate}
use wall_mon.Gnuplot.Sampling.Kept.{Ends}
use wall_mon.Gnuplot.Sampling.Hosts.{Readable, handle_all, handle_all-Ends}
use wall_mon.Tests.Numbers.{whole}

abbrev intervals : List (ℕ × ℕ)
intervals = (1, 3) ∷ (2, 1) ∷ (4, 2) ∷ []

samples-planned_example :
    (c : Controller whole) × (create whole intervals ≡ some c)
    × (samples whole intervals (get_total_num_samples intervals + 5) c
        ≡ (planned whole intervals (period whole 1), exited))
samples-planned_example =
    samples-planned whole 1 3 4 ((2, 1) ∷ (4, 2) ∷ [])
      (omega arith, (omega arith, (omega arith, tt)))

-- The samples that a node takes in all.
total_num_samples : get_total_num_samples sample_intervals ≡ 1260
unfolding get_total_num_samples
total_num_samples = refl

abbrev truncated : ℤ → Option ℕ
truncated (pos n) = some n
truncated (negsuc n) = none

abbrev process : ProcessMessage ℤ
process = record {
  is_terminated = none;
  process_name = some (119 ∷ []);
  pid = none;
  user_cpu_load = none;
  system_cpu_load = none;
  user_cpu_utilization = none;
  system_cpu_utilization = none;
  memory_utilization = none;
  memory_bytes = none;
  io_in_bytes = none;
  io_out_bytes = none;
  network_in_bytes = none;
  network_out_bytes = none;
  storage_in_bytes = none;
  storage_out_bytes = none;
  num_read_system_calls_per_sec = none;
  num_write_system_calls_per_sec = none;
  user = none;
  start_time = none;
  num_threads = none;
  num_page_faults_per_sec = none;
}

abbrev parse_data : List ℕ → Option (List (ProcessMessage ℤ))
parse_data [] = none
parse_data (n ∷ ns) = some (process ∷ [])

abbrev sample_from : String → ℕ → Message ℤ
sample_from host ms = record (Message.with_key "gnuplot") {
  payload = some (7 ∷ []);
  hostname = some host;
  sample_frequency_msec = some (pos ms);
  daemon_num_server_connections = some 2;
  server_timestamp_msec = some (pos ms);
  network_message_size_bytes = some 100;
}

abbrev messages : List (Message ℤ)
messages = sample_from "a" 1000 ∷ sample_from "b" 500 ∷ sample_from "a" 500 ∷ []

sample_from-Readable :
    (host : String) (ms hz : ℕ)
    → rate whole truncated (sample_from host ms) ≡ some hz
    → Readable whole truncated 2 parse_data (sample_from host ms)
sample_from-Readable host ms hz q = record { parses = λ e. cc; converts = λ e. cc }

handle_all-Ends_example :
    Ends whole truncated 2
      (length messages)
      (handle_all whole truncated 2 parse_data messages (on_init whole 2 ((119 ∷ []) ∷ [])))
unfolding rate
handle_all-Ends_example =
    handle_all-Ends whole truncated 2 parse_data ((119 ∷ []) ∷ []) messages (omega arith) (
      sample_from-Readable "a" 1000 1 refl,
      (sample_from-Readable "b" 500 2 refl, (sample_from-Readable "a" 500 2 refl, tt)),
    )
