-- ===== src/Scheduler/Timing.antt =====
-- What each call of `_TimerCallback` in daemon/Scheduler.cpp leaves.
use wall_mon.Base.{
  ℕ, ◌+◌, ◌%◌, ◌^◌, ◌≡◌, refl, sym, ap, ◌∙◌, inl, inr, arith, subst, String, true, false, some,
  List, Bool-cases, Option-cases, pos,
}
use wall_mon.Base.Results.{>>=-eq-some, some_inj}
use wall_mon.Base.Double.{Double}
use wall_mon.Context.{Context}
use wall_mon.Message.{Message}
use wall_mon.Wire.{StreamItem, stream_item}
use wall_mon.Wire.RoundTrip.{frame, put_payload-composed}
use wall_mon.Streamer.{Streamer, Resolver, Dialed}
use wall_mon.Scheduler.{
  CollectorTimerEvent, EvTimer, Libev, Timer, Tick, clamp, restart, reschedule, statistics, counted,
  prepare, finish, zero_sec,
}
use wall_mon.Scheduler.Callback.{Called, collect, connect_all, queue_message, timer_callback}

module _ (d : Double) (sample : ℕ → Context d.Num → List ℕ × Context d.Num)
    (sample_message : ℕ → Message d.Num → Context d.Num → Message d.Num × Context d.Num)
    (r : Resolver) (dial : String → ℕ → Dialed) (hostname : String)
    (serialize : Message d.Num → List ℕ) (junk : ℕ → ℕ) (libev : Libev d.Num) where
  -- A later state of a timer in the same call: what `finish` and the counters leave alone.
  abbrev SameTimer : Timer d.Num → Timer d.Num → Type 0
  SameTimer t u = (u.ev_timer ≡ t.ev_timer) × (u.event.context ≡ t.event.context)

  finish-context :
      (k : Tick d.Num) (e : CollectorTimerEvent d.Num) → (finish d k e).context ≡ e.context
  unfolding finish
  finish-context k e = ground arith

  finish-num_samples :
      (k : Tick d.Num) (e : CollectorTimerEvent d.Num) → (finish d k e).num_samples ≡ e.num_samples
  unfolding finish
  finish-num_samples k e = ground arith

  prepare-context :
      (old : d.Num) (k : Tick d.Num) (s : Streamer) (e : CollectorTimerEvent d.Num)
      (m : Message d.Num)
      → (prepare d hostname old k s e m).1.context ≡ e.context
  unfolding prepare counted
  prepare-context old k s e m = ground arith

  queue_message-SameTimer :
      (old : d.Num) (k : Tick d.Num) (m : Message d.Num) (t : Timer d.Num) (s : Streamer)
      {c : Called d.Num}
      → queue_message d sample sample_message r dial hostname serialize junk old k m t s ≡ some c
      → SameTimer t c.timer
  unfolding queue_message
  queue_message-SameTimer old k m t s {c} e =
      let (item, e1, e2) = >>=-eq-some (stream_item junk _) _ e in
      let ((fds, s'), e3, e4) =
        >>=-eq-some (connect_all d sample sample_message r dial _ _ _) _ e2 in
      subst (λ x. SameTimer t x.timer) (some_inj _ c e4)
        (refl, finish-context k _ ∙ prepare-context old k s t.event m)

  clamp-not_negative :
      (c : Context d.Num)
      → d.lt (zero_sec d) (zero_sec d) ≡ false
      → d.lt (clamp d c).sample_frequency_msec (zero_sec d) ≡ false
  unfolding clamp
  clamp-not_negative c z = ground arith

  clamp-statistics : (c : Context d.Num) → (clamp d c).include_statistics ≡ c.include_statistics
  unfolding clamp
  clamp-statistics c = ground arith

  reschedule-fields :
      (old before after : d.Num) (t : Timer d.Num)
      → ((reschedule d libev old before after t).event.context ≡ t.event.context)
        × ((reschedule d libev old before after t).event.num_samples ≡ t.event.num_samples)
  unfolding reschedule restart
  reschedule-fields old before after t = ground arith

  -- What libev documents: `ev_timer_set` sets the repeat value. `ev_timer_again` keeps it; a timer
  -- that repeats is started, if it is not, and is due after its repeat value, and one that does not
  -- repeat is stopped, if it is not.
  pub record Documented : Type 0 where
    pub sets_repeat : (at p : d.Num) (w : EvTimer d.Num) → (libev.ev_timer_set at p w).repeat ≡ p
    pub keeps_repeat : (w : EvTimer d.Num) → (libev.ev_timer_again w).repeat ≡ w.repeat
    pub repeats :
        (w : EvTimer d.Num)
        → d.eq w.repeat (zero_sec d) ≡ false
        → ((libev.ev_timer_again w).at ≡ w.repeat) × ((libev.ev_timer_again w).active ≡ true)
    pub stops :
        (w : EvTimer d.Num)
        → d.eq w.repeat (zero_sec d) ≡ true
        → (libev.ev_timer_again w).active ≡ false

  -- A timer that repeats every `p` seconds and is due in `p`, or that is stopped where `p` is 0.
  pub record Every (p : d.Num) (w : EvTimer d.Num) : Type 0 where
    pub repeat_is : w.repeat ≡ p
    pub due : d.eq p (zero_sec d) ≡ false → (w.at ≡ p) × (w.active ≡ true)
    pub stopped : d.eq p (zero_sec d) ≡ true → w.active ≡ false

  -- The new times of a timer, whose frequency was `old` and is `f`.
  abbrev pub TimedAs : d.Num → d.Num → Timer d.Num → Timer d.Num → Type 0
  TimedAs old f t u =
      (d.lt f (zero_sec d) ≡ false)
      × (d.eq f old ≡ true → u.ev_timer ≡ t.ev_timer)
      × (d.eq f old ≡ false → Every (d.div f (d.num (pos 1000))) u.ev_timer)

  -- What a call leaves of the timer `t` in `u`, the frequency having been `old`.
  abbrev pub Timed : d.Num → Timer d.Num → Timer d.Num → Type 0
  Timed old t u = TimedAs old u.event.context.sample_frequency_msec t u

  again-Every :
      (p : d.Num) (w : EvTimer d.Num) → Documented → w.repeat ≡ p → Every p (libev.ev_timer_again w)
  again-Every p w doc e =
      subst (λ q. Every q (libev.ev_timer_again w)) e
        (record { repeat_is = doc.keeps_repeat w; due = doc.repeats w; stopped = doc.stops w })

  reschedule-TimedAs :
      (old before after : d.Num) (t : Timer d.Num)
      → Documented
      → d.lt t.event.context.sample_frequency_msec (zero_sec d) ≡ false
      → TimedAs old t.event.context.sample_frequency_msec t (reschedule d libev old before after t)
  unfolding reschedule restart
  reschedule-TimedAs old before after t doc h =
      elim (Bool-cases (d.eq t.event.context.sample_frequency_msec old)) [
        | inl same ↦ rw (same, reschedule) (h, (λ e. refl), λ e. absurd (cc))
        | inr other ↦
            rw (other, reschedule)
              (h, (λ e. absurd (cc)), λ e. again-Every _ _ doc (doc.sets_repeat _ _ t.ev_timer))
      ]

  SameTimer-TimedAs :
      (old f : d.Num) (t u v : Timer d.Num) → SameTimer u v → TimedAs old f t u → TimedAs old f t v
  SameTimer-TimedAs old f t u v (a, c) (h, same, other) =
      (h, (λ e. a ∙ same e), λ e. subst (Every (d.div f (d.num (pos 1000)))) (sym a) (other e))

  -- The timer after a collector that left the context `e`.
  abbrev resampled : Tick d.Num → Timer d.Num → Context d.Num → Timer d.Num
  resampled k t e =
      reschedule d libev t.event.context.sample_frequency_msec k.before k.after
        (record t { event = record t.event { context = clamp d e } })

  -- The part of the callback after the collector: the timer it leaves is the rescheduled one.
  timer_callback-SameTimer :
      (k : Tick d.Num) (t : Timer d.Num) (s : Streamer) {c : Called d.Num}
      → timer_callback d sample sample_message r dial hostname serialize junk libev k t s ≡ some c
      → (e : Context d.Num) × SameTimer (resampled k t e) c.timer
  unfolding timer_callback
  timer_callback-SameTimer k t s {c} e =
      let ((m, x), e1, e2) = >>=-eq-some (collect d sample sample_message t.event) _ e in
      (
        x,
        elim (Option-cases m.payload) [
          | inl empty ↦
              subst (λ y. SameTimer (resampled k t x) y.timer) (some_inj _ c (rw empty at e2))
                (refl, refl)
          | inr (bytes, full) ↦ queue_message-SameTimer _ k m (resampled k t x) s (rw full at e2)
        ],
      )

  -- libev does what it documents, and comparing 0 with itself, a double is not less.
  -- When a call returns, the collector's frequency is not negative, whatever the collector has set. If
  -- it is as before the call, libev's timer is unchanged; otherwise the timer repeats with the new
  -- frequency, and where that is not 0 it runs and is next due after one whole period, however long
  -- the sampling took; where it is 0 the timer is stopped.
  pub timer_callback-Timed :
      (k : Tick d.Num) (t : Timer d.Num) (s : Streamer) {c : Called d.Num}
      → Documented
      → d.lt (zero_sec d) (zero_sec d) ≡ false
      → timer_callback d sample sample_message r dial hostname serialize junk libev k t s ≡ some c
      → Timed t.event.context.sample_frequency_msec t c.timer
  timer_callback-Timed k t s {c} doc z e =
      let (x, same) = timer_callback-SameTimer k t s e in
      let start : Timer d.Num = record t { event = record t.event { context = clamp d x } } in
      let old : d.Num = t.event.context.sample_frequency_msec in
      let after : (resampled k t x).event.context ≡ clamp d x =
        (reschedule-fields old k.before k.after start).0 in
      let f : c.timer.event.context.sample_frequency_msec ≡ (clamp d x).sample_frequency_msec =
        ap (λ y. y.sample_frequency_msec) (same.1 ∙ after) in
      subst (λ g. TimedAs old g t c.timer) (sym f)
        (SameTimer-TimedAs old (clamp d x).sample_frequency_msec t (resampled k t x) c.timer same
          (reschedule-TimedAs old k.before k.after start doc (clamp-not_negative x z)))

  prepare-counts :
      (old : d.Num) (k : Tick d.Num) (s : Streamer) (e : CollectorTimerEvent d.Num)
      (m : Message d.Num)
      → e.context.include_statistics ≡ true
      → ((prepare d hostname old k s e m).0.collector_sequence_number ≡ some e.num_samples)
        × ((prepare d hostname old k s e m).1.num_samples ≡ (e.num_samples + 1) % 2 ^ 32)
  unfolding prepare statistics counted
  prepare-counts old k s e m stats = ground arith

  -- The item that a call queues is the frame of a message with the number `n`.
  abbrev pub Queues : ℕ → Called d.Num → Type 0
  Queues n c =
      (m : Message d.Num) × (item : StreamItem) × (c.queued ≡ some item)
      × (item.message ≡ frame (serialize m))
      × (m.collector_sequence_number ≡ some n)
      × (c.timer.event.num_samples ≡ (n + 1) % 2 ^ 32)

  queue_message-Queues :
      (old : d.Num) (k : Tick d.Num) (m : Message d.Num) (t : Timer d.Num) (s : Streamer)
      {c : Called d.Num}
      → t.event.context.include_statistics ≡ true
      → queue_message d sample sample_message r dial hostname serialize junk old k m t s ≡ some c
      → Queues t.event.num_samples c
  unfolding queue_message
  queue_message-Queues old k m t s {c} stats e =
      let (item, e1, e2) = >>=-eq-some (stream_item junk _) _ e in
      let ((fds, s'), e3, e4) =
        >>=-eq-some (connect_all d sample sample_message r dial _ _ _) _ e2 in
      let (number, next) = prepare-counts old k s t.event m stats in
      let m' : Message d.Num = (prepare d hostname old k s t.event m).0 in
      subst (λ x. Queues t.event.num_samples x) (some_inj _ c e4)
        (
          m',
          _,
          refl,
          (put_payload-composed junk (serialize m') item e1).0,
          number,
          finish-num_samples k _ ∙ next,
        )

  -- A call of a collector with statistics, which delivers data, that returns: it queues one item,
  -- the frame of a serialized message, whose sequence number is the event's count of samples; and
  -- it leaves that count advanced by one modulo 2^32.
  pub timer_callback-Queues :
      (k : Tick d.Num) (t : Timer d.Num) (s : Streamer) (m : Message d.Num) (x : Context d.Num)
      (bytes : List ℕ) {c : Called d.Num}
      → collect d sample sample_message t.event ≡ some (m, x)
      → m.payload ≡ some bytes
      → x.include_statistics ≡ true
      → timer_callback d sample sample_message r dial hostname serialize junk libev k t s ≡ some c
      → Queues t.event.num_samples c
  unfolding timer_callback
  timer_callback-Queues k t s m x bytes {c} got full stats e =
      let start : Timer d.Num = record t { event = record t.event { context = clamp d x } } in
      let fields = reschedule-fields t.event.context.sample_frequency_msec k.before k.after start in
      let on : (resampled k t x).event.context.include_statistics ≡ true =
        ap (λ y. y.include_statistics) fields.0 ∙ clamp-statistics x ∙ stats in
      rw fields.1 at (
        queue_message-Queues t.event.context.sample_frequency_msec k m (resampled k t x) s on
          (rw (got, full) at e))
