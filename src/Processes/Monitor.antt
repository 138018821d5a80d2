-- ===== src/Processes/Monitor.antt =====
-- lib/LinuxProcessMonitorLight.h and lib/LinuxProcessMonitorLight.cpp: the counters of one process.
-- An unsigned long has 64 bits. What an update finds in the three files below /proc is an argument:
-- for each the number of bytes read, and what `sscanf` leaves in the variables, or a read error.
-- The time spent for reading and parsing (`SetStatistics`) is left out.
pub mod Deltas
pub mod Rates
use wall_mon.Base.{
  ℕ, suc, ◌+◌, ◌-◌, ◌*◌, ◌%◌, ◌^◌, Bool, true, false, Option, none, some, List, [], ◌∷◌, String,
  ltb, if◌then◌else◌, ℤ, pos,
}
use wall_mon.Base.Double.{Double}

pub record Counters : Type 0 where
  pub minflt : ℕ
  pub majflt : ℕ
  pub utime : ℕ
  pub stime : ℕ
  pub rchar : ℕ
  pub wchar : ℕ
  pub syscr : ℕ
  pub syscw : ℕ
  pub read_bytes : ℕ
  pub write_bytes : ℕ

-- `comm` is text as bytes. `prev` are the variables with `_prev` before their names.
pub record Monitor (N : Type 0) : Type 0 where
  pub has_stat : Bool
  pub has_statm : Bool
  pub has_io : Bool
  pub user : String
  pub start_time : String
  pub pid : ℕ
  pub comm : List ℕ
  pub num_threads : ℕ
  pub size : ℕ
  pub now : Counters
  pub prev : Counters
  pub jiffy : ℕ
  pub update_time : N
  pub prev_update_time : N
  pub total_num_bytes_read : ℕ
  pub total_num_samples : ℕ

pub data Read (A : Type 0) : Type 0 where
  read_error : ℕ → Read A
  scanned : ℕ → A → Read A

pub record StatFields : Type 0 where
  pub pid : ℕ
  pub comm : List ℕ
  pub minflt : ℕ
  pub majflt : ℕ
  pub utime : ℕ
  pub stime : ℕ
  pub num_threads : ℕ

pub record IoFields : Type 0 where
  pub rchar : ℕ
  pub wchar : ℕ
  pub syscr : ℕ
  pub syscw : ℕ
  pub read_bytes : ℕ
  pub write_bytes : ℕ

pub record Reading (N : Type 0) : Type 0 where
  pub time : N
  pub stat : Read StatFields
  pub statm : Read ℕ
  pub io : Read IoFields

abbrev pub add_long : ℕ → ℕ → ℕ
add_long a b = (a + b) % 2 ^ 64

abbrev pub sub_long : ℕ → ℕ → ℕ
sub_long a b = (a + 2 ^ 64 - b) % 2 ^ 64

-- The constructor; `memory` is a monitor with what its variables held before.
unfoldable pub init : (d : Double) → ℕ → Monitor d.Num → Monitor d.Num
init d jiffy memory = record memory {
  has_stat = false;
  has_statm = false;
  has_io = false;
  user = "";
  start_time = "";
  now = record memory.now {
    utime = 0;
    stime = 0;
    rchar = 0;
    wchar = 0;
    syscr = 0;
    syscw = 0;
    read_bytes = 0;
    write_bytes = 0;
  };
  jiffy = jiffy;
  update_time = d.num (pos 0);
  total_num_bytes_read = 0;
  total_num_samples = 0;
}

-- `erase` of the last character throws on an empty text.
unfoldable pub drop_last : List ℕ → Option (List ℕ)
drop_last [] = none
drop_last (c ∷ []) = some []
drop_last (c ∷ d ∷ cs) = elim (drop_last (d ∷ cs)) [ none ↦ none | some r ↦ some (c ∷ r) ]

unfoldable pub drop_first : List ℕ → List ℕ
drop_first [] = []
drop_first (c ∷ cs) = cs

module _ {N : Type 0} where
  -- `Open`: which of the files it could open, and what the commands printed.
  unfoldable pub open_files : Bool → Bool → Bool → String → String → Monitor N → Bool × Monitor N
  open_files stat statm io user start m =
      let opened : Monitor N = record m { has_stat = stat; has_statm = statm; has_io = io } in
      if stat
      then (true, record opened { user = user; start_time = start })
      else (if statm
          then (true, record opened { user = user; start_time = start })
          else (if io
              then (true, record opened { user = user; start_time = start })
              else (false, opened)))

  unfoldable pub read_io : Read IoFields → Monitor N → Bool × Monitor N
  read_io (read_error n) m =
      (false, record m { total_num_bytes_read = add_long m.total_num_bytes_read n })
  read_io (scanned n f) m = (
    true,
    record m {
      total_num_bytes_read = add_long m.total_num_bytes_read n;
      now = record m.now {
        rchar = f.rchar;
        wchar = f.wchar;
        syscr = f.syscr;
        syscw = f.syscw;
        read_bytes = f.read_bytes;
        write_bytes = f.write_bytes;
      };
    },
  )

  unfoldable pub read_statm : Read ℕ → Monitor N → Bool × Monitor N
  read_statm (read_error n) m =
      (false, record m { total_num_bytes_read = add_long m.total_num_bytes_read n })
  read_statm (scanned n size) m =
      (true, record m { total_num_bytes_read = add_long m.total_num_bytes_read n; size = size })

  unfoldable pub read_stat : Read StatFields → Monitor N → Bool × Monitor N
  read_stat (read_error n) m =
      (false, record m { total_num_bytes_read = add_long m.total_num_bytes_read n })
  read_stat (scanned n f) m = (
    true,
    record m {
      total_num_bytes_read = add_long m.total_num_bytes_read n;
      pid = f.pid;
      comm = f.comm;
      num_threads = f.num_threads;
      now = record m.now { minflt = f.minflt; majflt = f.majflt; utime = f.utime; stime = f.stime };
    },
  )

  -- A file that is open is read; a read error ends the update.
  unfoldable pub step : Bool → (Monitor N → Bool × Monitor N) → Bool × Monitor N → Bool × Monitor N
  step is_open read (false, m) = (false, m)
  step is_open read (true, m) = if is_open then read m else (true, m)

  -- What `Update` does before it reads.
  unfoldable pub shift : N → Monitor N → Monitor N
  shift time m = record m {
    prev = m.now;
    prev_update_time = m.update_time;
    update_time = time;
    total_num_samples = add_long m.total_num_samples 1;
  }

  unfoldable pub update : Reading N → Monitor N → Bool × Monitor N
  unfolding step shift read_stat read_statm read_io
  update r m = step m.has_io (read_io r.io) (
      step m.has_statm (read_statm r.statm)
        (step m.has_stat (read_stat r.stat) (true, shift r.time m)))

  unfoldable pub is_first_time : Monitor N → Bool
  is_first_time m = ltb m.total_num_samples 3

  unfoldable pub get_total_program_size_bytes : Monitor N → ℕ
  get_total_program_size_bytes m = m.size * 4096 % 2 ^ 64

  unfoldable pub get_total_io_in_bytes : Monitor N → ℕ
  get_total_io_in_bytes m = sub_long m.now.rchar m.prev.rchar

  unfoldable pub get_total_io_out_bytes : Monitor N → ℕ
  get_total_io_out_bytes m = sub_long m.now.wchar m.prev.wchar

  unfoldable pub get_storage_in_bytes : Monitor N → ℕ
  get_storage_in_bytes m = sub_long m.now.read_bytes m.prev.read_bytes

  unfoldable pub get_storage_out_bytes : Monitor N → ℕ
  get_storage_out_bytes m = sub_long m.now.write_bytes m.prev.write_bytes

  unfoldable pub get_network_in_bytes : Monitor N → ℕ
  get_network_in_bytes m =
      if ltb (get_total_io_in_bytes m) (get_storage_in_bytes m)
      then 0
      else sub_long (get_total_io_in_bytes m) (get_storage_in_bytes m)

  unfoldable pub get_network_out_bytes : Monitor N → ℕ
  get_network_out_bytes m =
      if ltb (get_total_io_out_bytes m) (get_storage_out_bytes m)
      then 0
      else sub_long (get_total_io_out_bytes m) (get_storage_out_bytes m)

  unfoldable pub get_process_name : Monitor N → Option (List ℕ)
  get_process_name m = elim (drop_last m.comm) [ none ↦ none | some r ↦ some (drop_first r) ]
