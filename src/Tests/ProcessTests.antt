-- ===== src/Tests/ProcessTests.antt =====
-- lib/PidMonitor.cpp, lib/LinuxProcessMonitorLight.cpp and lib/ProcessCollector.cpp.
use wall_mon.Base.{
  ℕ, ◌+◌, ◌-◌, ◌^◌, ◌≡◌, refl, arith, true, false, none, some, [], ◌∷◌, pos, negsuc, ℤ, ◌==◌,
  if◌then◌else◌,
}
use wall_mon.Processes.Pids
use wall_mon.Base.Counts.{count}
use wall_mon.Processes.Pids.{get_difference, count-get_difference}
use wall_mon.Processes.Monitor.{
  Monitor, Counters, Reading, Read, read_error, scanned, IoFields, update, step, shift, read_stat,
  read_statm, read_io, get_total_io_in_bytes, get_total_io_out_bytes, get_storage_in_bytes,
  get_storage_out_bytes, get_network_in_bytes, get_network_out_bytes, get_process_name, drop_last,
  drop_first,
}
use wall_mon.Processes.Monitor.Deltas.{wrapped, update-deltas}
use wall_mon.Processes.Collector.{Filter, sample}
use wall_mon.Processes.Collector.Sampling.{refreshed, Samples, sample-alive, sample-terminated}
use wall_mon.Tests.Numbers.{whole}

-- Pid 7 is new among 3, 5 and 7.
count-get_difference_example :
    count 7 (get_difference (Pids.update (7 ∷ 3 ∷ 5 ∷ []) (Pids.update (5 ∷ 3 ∷ []) Pids.init))) ≡ 1
unfolding count
count-get_difference_example = count-get_difference 7 (5 ∷ 3 ∷ []) (7 ∷ 3 ∷ 5 ∷ []) Pids.init

abbrev zero_counters : Counters
zero_counters = record {
  minflt = 0;
  majflt = 0;
  utime = 0;
  stime = 0;
  rchar = 0;
  wchar = 0;
  syscr = 0;
  syscw = 0;
  read_bytes = 0;
  write_bytes = 0;
}

abbrev process : ℕ → Monitor ℤ
process pid = record {
  has_stat = true;
  has_statm = true;
  has_io = true;
  user = "root";
  start_time = "";
  pid = pid;
  comm = 40 ∷ 65 ∷ 41 ∷ [];
  num_threads = 1;
  size = 0;
  now = zero_counters;
  prev = zero_counters;
  jiffy = 100;
  update_time = pos 0;
  prev_update_time = pos 0;
  total_num_bytes_read = 0;
  total_num_samples = 0;
}

abbrev io_fields : ℕ → IoFields
io_fields n = record { rchar = n; wchar = n; syscr = 1; syscw = 1; read_bytes = 3; write_bytes = 3 }

abbrev reading : ℕ → Read IoFields → Reading ℤ
reading pid io = record {
  time = pos 9;
  stat = scanned 10 (record {
    pid = pid;
    comm = 40 ∷ 65 ∷ 41 ∷ [];
    minflt = 0;
    majflt = 0;
    utime = 0;
    stime = 0;
    num_threads = 1;
  });
  statm = scanned 5 2;
  io = io;
}

-- The counter of bytes read and written wraps between the updates.
abbrev before : IoFields
before = io_fields (2 ^ 64 - 10)

abbrev after : IoFields
after = io_fields (2 ^ 64 + 20)

abbrev updated : Monitor ℤ
updated =
    (update (reading 4 (scanned 8 (wrapped after)))
      (update (reading 4 (scanned 8 (wrapped before))) (process 4)).1).1

update-deltas_example :
    (get_total_io_in_bytes updated ≡ 30)
    × (get_total_io_out_bytes updated ≡ 30)
    × (get_storage_in_bytes updated ≡ 0)
    × (get_storage_out_bytes updated ≡ 0)
    × (get_network_in_bytes updated ≡ 30)
    × (get_network_out_bytes updated ≡ 30)
unfolding update step shift read_stat read_statm read_io
update-deltas_example =
    update-deltas (reading 4 (scanned 8 (wrapped before))) (reading 4 (scanned 8 (wrapped after))) 8
      8 before after (process 4) refl refl refl (omega arith) refl refl

abbrev filter : Filter
filter = record {
  process_name = true;
  pid = true;
  user_cpu_load = false;
  system_cpu_load = false;
  user_cpu_utilization = false;
  system_cpu_utilization = false;
  memory_utilization = false;
  memory_bytes = false;
  io_in_bytes = true;
  io_out_bytes = true;
  network_in_bytes = false;
  network_out_bytes = false;
  storage_in_bytes = false;
  storage_out_bytes = false;
  num_read_system_calls_per_sec = false;
  num_write_system_calls_per_sec = false;
  user = false;
  start_time = false;
  num_threads = false;
  num_page_faults_per_sec = false;
}

abbrev truncate : ℤ → ℕ
truncate (pos n) = n
truncate (negsuc n) = 0

-- The io file of process 2 cannot be read.
abbrev readings : Monitor ℤ → Reading ℤ
readings m = reading m.pid (if m.pid == 2 then read_error 0 else scanned 8 (io_fields 1))

sample-alive_example :
    Samples whole truncate 4
      (pos 1024)
      filter
      readings
      (refreshed whole truncate 4 (pos 1024) filter readings (process 1) ∷ [])
      ((none, some 1) ∷ [])
      (sample whole truncate 4 (pos 1024) filter readings (process 1 ∷ []))
unfolding update step shift read_stat read_statm read_io get_process_name drop_last drop_first
sample-alive_example =
    sample-alive whole truncate 4 (pos 1024) filter readings (process 1 ∷ [])
      ((refl, 65 ∷ [], refl), tt)

sample-terminated_example :
    Samples whole truncate 4
      (pos 1024)
      filter
      readings
      (process 3 ∷ [])
      ((some true, some 2) ∷ [])
      (sample whole truncate 4 (pos 1024) filter readings (process 2 ∷ process 3 ∷ []))
unfolding update step shift read_stat read_statm read_io get_process_name drop_last drop_first
sample-terminated_example =
    sample-terminated whole truncate 4 (pos 1024) filter readings [] (process 2) (process 3) [] tt
      (refl, 65 ∷ [], refl) tt
