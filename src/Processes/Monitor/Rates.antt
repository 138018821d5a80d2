-- ===== src/Processes/Monitor/Rates.antt =====
-- The loads and rates of lib/LinuxProcessMonitorLight.cpp, which are doubles.
use wall_mon.Base.{ℕ, ◌*◌, pos}
use wall_mon.Base.Double.{Double}
use wall_mon.Processes.Monitor.{Monitor, add_long, sub_long, get_total_program_size_bytes}

module _ (d : Double) where
  -- Seconds between the last two updates.
  unfoldable pub interval : Monitor d.Num → d.Num
  interval m = d.sub m.update_time m.prev_update_time

  unfoldable pub seconds_since_last_update : d.Num → Monitor d.Num → d.Num
  seconds_since_last_update now m = d.sub now m.update_time

  unfoldable pub get_total_num_page_faults_per_sec : Monitor d.Num → d.Num
  unfolding interval
  get_total_num_page_faults_per_sec m =
      d.div
        (d.num (
          pos
            (sub_long (add_long m.now.minflt m.now.majflt) (add_long m.prev.minflt m.prev.majflt))))
        (interval m)

  unfoldable pub get_user_time : Monitor d.Num → d.Num
  get_user_time m = d.div (d.num (pos m.now.utime)) (d.num (pos m.jiffy))

  unfoldable pub get_system_time : Monitor d.Num → d.Num
  get_system_time m = d.div (d.num (pos m.now.stime)) (d.num (pos m.jiffy))

  -- The load in percent for clock ticks that were `before` and are `after`.
  unfoldable pub load : ℕ → ℕ → Monitor d.Num → d.Num
  unfolding interval
  load after before m =
      d.mul
        (d.div (d.div (d.sub (d.num (pos after)) (d.num (pos before))) (d.num (pos m.jiffy)))
          (interval m))
        (d.num (pos 100))

  unfoldable pub get_user_cpu_load : Monitor d.Num → d.Num
  unfolding load
  get_user_cpu_load m = load m.now.utime m.prev.utime m

  unfoldable pub get_system_cpu_load : Monitor d.Num → d.Num
  unfolding load
  get_system_cpu_load m = load m.now.stime m.prev.stime m

  unfoldable pub get_total_program_size : Monitor d.Num → d.Num
  unfolding get_total_program_size_bytes
  get_total_program_size m =
      d.div (d.num (pos (get_total_program_size_bytes m))) (d.num (pos (1024 * 1024)))

  unfoldable pub get_num_read_sys_calls_per_sec : Monitor d.Num → d.Num
  unfolding interval
  get_num_read_sys_calls_per_sec m =
      d.div (d.num (pos (sub_long m.now.syscr m.prev.syscr))) (interval m)

  unfoldable pub get_num_write_sys_calls_per_sec : Monitor d.Num → d.Num
  unfolding interval
  get_num_write_sys_calls_per_sec m =
      d.div (d.num (pos (sub_long m.now.syscw m.prev.syscw))) (interval m)
