-- ===== src/Scheduler.antt =====
-- daemon/Scheduler.h and daemon/Scheduler.cpp: when collectors sample, and what becomes of a sample.
-- What a collector does, the clock, the host's name, how protobuf serializes and libev's
-- calls are parameters. libev's loop calls `timer_callback` for a timer when it is due.
pub mod Callback
pub mod Timing
use wall_mon.Base.{
  ℕ, suc, ◌+◌, ◌%◌, ◌^◌, String, Bool, true, false, not, Option, none, some, List, [], ◌∷◌, ◌++◌,
  length, if◌then◌else◌, ltb, pos, negsuc, ℤ,
}
use wall_mon.Base.Results.{◌>>=◌}
use wall_mon.Base.Double.{Double}
use wall_mon.Context.{Context}
use wall_mon.Message.{Message, with_key}
use wall_mon.Streamer.{Streamer, Resolver, Dialed, setup_stream, get_num_server_connections}

pub record CollectorTimerEvent (N : Type 0) : Type 0 where
  pub context : Context N
  pub collector : Option ℕ
  pub collector_protobuf : Option ℕ
  pub schedule_duration_sec : N
  pub previous_ts_before_sample_sec : N
  pub num_samples : ℕ
  pub num_samples_last_second : ℕ
  pub ts_num_samples_per_second : N

-- An `ev_timer`: the seconds until it is due, the seconds between, and whether it has been started
-- and not stopped.
pub record EvTimer (N : Type 0) : Type 0 where
  pub at : N
  pub repeat : N
  pub active : Bool

-- What the callback calls of libev.
pub record Libev (N : Type 0) : Type 0 where
  pub ev_timer_set : N → N → EvTimer N → EvTimer N
  pub ev_timer_again : EvTimer N → EvTimer N

-- A timer with its `data`.
pub record Timer (N : Type 0) : Type 0 where
  pub ev_timer : EvTimer N
  pub event : CollectorTimerEvent N

-- What the callback reads outside: the clock when it begins, after sampling and at the end, and how
-- many items wait in the streamer's queue.
pub record Tick (N : Type 0) : Type 0 where
  pub before : N
  pub after : N
  pub ended : N
  pub pending : ℕ

module _ (d : Double) where
  abbrev pub N : Type 0
  N = d.Num

  abbrev pub zero_sec : N
  zero_sec = d.num (pos 0)

  abbrev thousand : N
  thousand = d.num (pos 1000)

  -- `Register` of a monitor, with the collector interfaces that `dynamic_cast` finds, at `now`.
  unfoldable pub register : Option ℕ → Option ℕ → Context N → N → List (Timer N) → List (Timer N)
  register collector collector_protobuf c now timers =
      timers
      ++ (record {
        ev_timer = record {
          at = d.div c.sample_frequency_msec thousand;
          repeat = d.div c.sample_frequency_msec thousand;
          active = true;
        };
        event = record {
          context = c;
          collector = collector;
          collector_protobuf = collector_protobuf;
          schedule_duration_sec = d.num (negsuc 0);
          previous_ts_before_sample_sec = d.num (negsuc 0);
          num_samples = 0;
          num_samples_last_second = 0;
          ts_num_samples_per_second = now;
        };
      }
          ∷ [])

  -- A negative frequency that a collector has set becomes 0.
  unfoldable pub clamp : Context N → Context N
  clamp c =
      if d.lt c.sample_frequency_msec zero_sec
      then record c { sample_frequency_msec = zero_sec }
      else c

  module _ (libev : Libev N) where
    -- The branch for a new frequency; `after` is the time after sampling.
    unfoldable pub restart : N → N → Timer N → Timer N
    restart before after t =
        let c : Context N = t.event.context in
        let repeat : N = d.div c.sample_frequency_msec thousand in
        let again : N = d.sub repeat (d.sub after before) in
        record {
          ev_timer = libev.ev_timer_again (
              libev.ev_timer_set (if d.lt again zero_sec then zero_sec else again) repeat
                t.ev_timer);
          event =
              if c.include_statistics
              then record t.event { num_samples_last_second = 0; ts_num_samples_per_second = after }
              else t.event;
        }

    unfoldable pub reschedule : N → N → N → Timer N → Timer N
    unfolding restart
    reschedule old before after t =
        if d.eq t.event.context.sample_frequency_msec old then t else restart before after t

  -- Whether more than a second has passed since the samples were last counted.
  unfoldable pub second_over : N → CollectorTimerEvent N → Bool
  second_over after e = d.lt (d.num (pos 1)) (d.sub after e.ts_num_samples_per_second)

  -- The statistics of a message; `samples` is the count for the last second, this one included.
  unfoldable pub statistics :
      String → N → Tick N → Streamer → CollectorTimerEvent N → ℕ → Message N → Message N
  unfolding second_over
  statistics hostname old k s e samples m = record m {
    collector_sequence_number = some e.num_samples;
    daemon_timestamp_msec = some (d.mul k.before thousand);
    hostname = some hostname;
    sample_frequency_msec = some old;
    sample_duration_msec = some (d.mul (d.sub k.after k.before) thousand);
    schedule_drift_msec =
        if d.lt zero_sec e.previous_ts_before_sample_sec
        then some (d.sub (d.mul (d.sub k.before e.previous_ts_before_sample_sec) thousand) old)
        else m.schedule_drift_msec;
    schedule_duration_msec =
        if d.lt zero_sec e.schedule_duration_sec
        then some (d.mul e.schedule_duration_sec thousand)
        else m.schedule_duration_msec;
    actual_hz = if second_over k.after e then some samples else m.actual_hz;
    daemon_queue_size = some k.pending;
    daemon_num_server_connections =
        if ltb 0 (get_num_server_connections s)
        then some (get_num_server_connections s)
        else m.daemon_num_server_connections;
  }

  -- The counters of the event after a message with statistics.
  unfoldable pub counted : N → CollectorTimerEvent N → CollectorTimerEvent N
  unfolding second_over
  counted after e = record e {
    num_samples = (e.num_samples + 1) % 2 ^ 32;
    num_samples_last_second =
        if second_over after e then 0 else (e.num_samples_last_second + 1) % 2 ^ 32;
    ts_num_samples_per_second = if second_over after e then after else e.ts_num_samples_per_second;
  }

  -- The message that is serialized, and the event then: changed only with statistics.
  unfoldable pub prepare :
      String
      → N
      → Tick N
      → Streamer
      → CollectorTimerEvent N
      → Message N
      → Message N × CollectorTimerEvent N
  prepare hostname old k s e m =
      if e.context.include_statistics
      then (
        statistics hostname old k s e ((e.num_samples_last_second + 1) % 2 ^ 32) m,
        counted k.after e,
      )
      else (m, e)

  -- The time stamps that are kept for the next call.
  unfoldable pub finish : Tick N → CollectorTimerEvent N → CollectorTimerEvent N
  finish k e =
      if e.context.include_statistics
      then record e {
        previous_ts_before_sample_sec = k.before;
        schedule_duration_sec = d.sub k.ended k.before;
      }
      else e
