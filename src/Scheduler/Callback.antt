-- ===== src/Scheduler/Callback.antt =====
-- `_TimerCallback` of daemon/Scheduler.cpp.
use wall_mon.Base.{ℕ, String, Option, none, some, List, [], ◌∷◌, ◌++◌, length}
use wall_mon.Base.Results.{◌>>=◌}
use wall_mon.Base.Double.{Double}
use wall_mon.Context.{Context}
use wall_mon.Message.{Message, with_key}
use wall_mon.Wire.{StreamItem, stream_item, put_payload}
use wall_mon.Streamer.{Streamer, Resolver, Dialed, setup_stream}
use wall_mon.Scheduler.{CollectorTimerEvent, Libev, Timer, Tick, clamp, reschedule, prepare, finish}

-- What a callback leaves: its timer, the streamer, and the item that it queues, if any.
pub record Called (N : Type 0) : Type 0 where
  pub timer : Timer N
  pub streamer : Streamer
  pub queued : Option StreamItem

-- `Sample` of a collector with its context, and of one that fills the message itself.
module _ (d : Double) (sample : ℕ → Context d.Num → List ℕ × Context d.Num)
    (sample_message : ℕ → Message d.Num → Context d.Num → Message d.Num × Context d.Num) where
  -- `none` is LOG(FATAL).
  unfoldable pub collect : CollectorTimerEvent d.Num → Option (Message d.Num × Context d.Num)
  collect e =
      let m : Message d.Num = with_key e.context.key in
      elim e.collector [
        | some c ↦
            let (bytes, c') = sample c e.context in some (record m { payload = some bytes }, c')
        | none ↦ elim e.collector_protobuf [
          | some c ↦ some (sample_message c m e.context)
          | none ↦ none
        ]
      ]

  module _ (r : Resolver) (dial : String → ℕ → Dialed) where
    -- The loop over the servers: the sockets for the item, and the streamer.
    unfoldable pub connect_all : List (String × ℕ) → List ℕ → Streamer → Option (List ℕ × Streamer)
    connect_all [] fds s = some (fds, s)
    connect_all ((address, port) ∷ servers) fds s = do
      (fd, s') ← setup_stream r dial address port s
      connect_all servers (elim fd [ none ↦ fds | some n ↦ fds ++ (n ∷ []) ]) s'

    module _ (hostname : String) (serialize : Message d.Num → List ℕ) (junk : ℕ → ℕ) where
      -- The rest of the callback for a message with data.
      unfoldable pub queue_message :
          d.Num → Tick d.Num → Message d.Num → Timer d.Num → Streamer → Option (Called d.Num)
      unfolding prepare finish
      queue_message old k m t s =
          let (m', e) = prepare d hostname old k s t.event m in
          let bytes : List ℕ = serialize m' in
          do
            item ← stream_item junk (length bytes)
            (fds, s') ← connect_all e.context.servers [] s
            some (record {
              timer = record t { event = finish d k e };
              streamer = s';
              queued = some (record (put_payload bytes item) { servers_sock_fd = fds });
            })

      module _ (libev : Libev d.Num) where
        unfoldable pub timer_callback : Tick d.Num → Timer d.Num → Streamer → Option (Called d.Num)
        unfolding collect clamp reschedule queue_message
        timer_callback k t s =
            let old : d.Num = t.event.context.sample_frequency_msec in
            do
              (m, c) ← collect t.event
              let t' : Timer d.Num =
                  reschedule d libev old k.before k.after
                    (record t { event = record t.event { context = clamp d c } })
              elim m.payload [
                | none ↦ some (record { timer = t'; streamer = s; queued = none })
                | some bytes ↦ queue_message old k m t' s
              ]
