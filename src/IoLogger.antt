-- ===== src/IoLogger.antt =====
-- lib/IoLogger.h and lib/IoLogger.cpp: a line in the log for each interval of bytes read, and of
-- bytes written. The counters are unsigned longs of 64 bits; `log` is what has been logged, the
-- newest last.
pub mod Lines
use wall_mon.Base.{
  ℕ, suc, ◌+◌, ◌-◌, ◌*◌, ◌/◌, ◌%◌, ◌^◌, List, [], ◌∷◌, ◌++◌, leb, if◌then◌else◌, ℤ, pos, negsuc,
}

pub data Line : Type 0 where
  received sent : ℕ → Line

pub record IoLogger : Type 0 where
  pub interval : ℕ
  pub total_read : ℕ
  pub total_write : ℕ
  pub read_trigger : ℕ
  pub write_trigger : ℕ
  pub log : List Line

-- `_MB`.
abbrev pub megabyte : ℕ
megabyte = 1024 * 1000

-- An unsigned long plus an int.
unfoldable pub add_long : ℕ → ℤ → ℕ
add_long a (pos n) = (a + n) % 2 ^ 64
add_long a (negsuc n) = (a + 2 ^ 64 - suc n) % 2 ^ 64

unfoldable pub init : ℕ → IoLogger
init interval = record {
  interval = interval;
  total_read = 0;
  total_write = 0;
  read_trigger = interval;
  write_trigger = interval;
  log = [];
}

unfoldable pub read : ℤ → IoLogger → IoLogger
unfolding add_long
read n l =
    let total : ℕ = add_long l.total_read n in
    let trigger : ℕ = add_long l.read_trigger (pos l.interval) in
    if leb l.read_trigger total
    then record l {
      total_read = total;
      read_trigger = trigger;
      log = l.log ++ (received (trigger / megabyte) ∷ []);
    }
    else record l { total_read = total }

unfoldable pub write : ℤ → IoLogger → IoLogger
unfolding add_long
write n l =
    let total : ℕ = add_long l.total_write n in
    let trigger : ℕ = add_long l.write_trigger (pos l.interval) in
    if leb l.write_trigger total
    then record l {
      total_write = total;
      write_trigger = trigger;
      log = l.log ++ (sent (trigger / megabyte) ∷ []);
    }
    else record l { total_write = total }
