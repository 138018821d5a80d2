-- ===== src/Tests/SchedulerTests.antt =====
-- daemon/Scheduler.cpp.
use wall_mon.Wire.{stream_item}
use wall_mon.Base.{
  arith, if◌then◌else◌, ℕ, refl, String, true, false, none, some, List, [], ◌∷◌, pos, negsuc, ℤ,
}
use wall_mon.Context
use wall_mon.Context.{Context}
use wall_mon.Message
use wall_mon.Message.{Message}
use wall_mon.Streamer
use wall_mon.Streamer.{
  Streamer, Resolver, Dialed, connected, setup_stream, resolve, connect_server,
  get_num_server_connections,
}
use wall_mon.Scheduler.{
  Libev, Timer, Tick, clamp, reschedule, restart, statistics, second_over, counted, prepare, finish,
}
use wall_mon.Scheduler.Callback.{Called, collect, connect_all, queue_message, timer_callback}
use wall_mon.Scheduler.Timing.{
  Documented, Timed, timer_callback-Timed, Queues, timer_callback-Queues,
}
use wall_mon.Tests.Numbers.{whole}
use wall_mon.Tests.SinkTests.{zeros}

abbrev with_server : Context ℤ
with_server = record (Context.init whole) {
  key = "cpu";
  servers = ("s", 1) ∷ [];
  include_statistics = true;
}

abbrev timer : Timer ℤ
timer = record {
  ev_timer = record { at = pos 1; repeat = pos 1; active = true };
  event = record {
    context = with_server;
    collector = some 3;
    collector_protobuf = none;
    schedule_duration_sec = negsuc 0;
    previous_ts_before_sample_sec = negsuc 0;
    num_samples = 4294967295;
    num_samples_last_second = 2;
    ts_num_samples_per_second = pos 10;
  };
}

abbrev tick : Tick ℤ
tick = record { before = pos 20; after = pos 21; ended = pos 22; pending = 0 }

-- The collector asks for a new frequency, which it cannot keep up with: below 0.
abbrev sample : ℕ → Context ℤ → List ℕ × Context ℤ
sample c x = (7 ∷ 8 ∷ [], record x { sample_frequency_msec = negsuc 4 })

abbrev sample_message : ℕ → Message ℤ → Context ℤ → Message ℤ × Context ℤ
sample_message c m x = (m, x)

abbrev names : Resolver
names = record {
  is_valid_ip_address = λ a. true;
  hostname_to_ip_address = λ a. a;
  hostname_to_ip_address_fallback = λ a. a;
  empty = λ a. false;
}

abbrev dial : String → ℕ → Dialed
dial a p = connected 6

abbrev serialize : Message ℤ → List ℕ
serialize m = 1 ∷ 2 ∷ []

abbrev libev : Libev ℤ
libev = record {
  ev_timer_set = λ at p w. record w { at = at; repeat = p };
  ev_timer_again = λ w.
      if whole.eq w.repeat (pos 0)
      then record w { active = false }
      else record w { at = w.repeat; active = true };
}

libev-Documented : Documented whole sample sample_message names dial "host" serialize zeros libev
libev-Documented = record {
  sets_repeat = λ at p w. refl;
  keeps_repeat = λ w. ground arith;
  repeats = λ w h. rw h (refl, refl);
  stops = λ w h. rw h refl;
}

abbrev called : Called ℤ
called =
    elim (timer_callback whole sample sample_message names dial "host" serialize zeros libev tick
      timer Streamer.init) [
        | none ↦ record { timer = timer; streamer = Streamer.init; queued = none }
        | some c ↦ c
      ]

timer_callback-Timed_example :
    Timed whole sample sample_message names dial "host" serialize zeros libev
      (pos 1000)
      timer
      called.timer
unfolding Context.init timer_callback collect clamp reschedule restart queue_message stream_item
    prepare statistics second_over counted finish connect_all setup_stream resolve connect_server
    get_num_server_connections Streamer.init
timer_callback-Timed_example =
    timer_callback-Timed whole sample sample_message names dial "host" serialize zeros libev tick
      timer Streamer.init libev-Documented refl refl

timer_callback-Queues_example :
    Queues whole sample sample_message names dial "host" serialize zeros libev 4294967295 called
unfolding Context.init timer_callback collect clamp reschedule restart queue_message stream_item
    prepare statistics second_over counted finish connect_all setup_stream resolve connect_server
    get_num_server_connections Streamer.init
timer_callback-Queues_example =
    timer_callback-Queues whole sample sample_message names dial "host" serialize zeros libev tick
      timer Streamer.init (record (Message.with_key "cpu") { payload = some (7 ∷ 8 ∷ []) })
      (record with_server { sample_frequency_msec = negsuc 4 }) (7 ∷ 8 ∷ []) refl refl refl refl
