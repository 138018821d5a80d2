-- ===== src/Router/Handlers.antt =====
-- Which handler a message reaches, and what happens to a handler that calls `Exit`
-- (server/DataRouter.cpp).
use wall_mon.Base.{
  ℕ, ◌≡◌, refl, if_lem, ◌∙◌, String, true, false, none, some, List, [], ◌∷◌, ◌++◌, arith, str_eq,
  append_assoc, if◌then◌else◌,
}
use wall_mon.Base.StrMap.{lookup, insert, erase, lookup-insert, lookup-erase}
use wall_mon.Base.Double.{Double}
use wall_mon.Context.{Context}
use wall_mon.Message.{Message}
use wall_mon.Router.{
  HandlerEvent, handles_message, stops, RouterItem, Router, prepare, stamp, count, dispatch, finish,
  deliver, route_item,
}

module _ (d : Double) (parse : List ℕ → Message d.Num)
    (handle : ℕ → Message d.Num → Context d.Num → Context d.Num) where
  dispatch-protobuf :
      (e : HandlerEvent d.Num) (h : ℕ) (m : Message d.Num)
      → e.handler ≡ none
      → e.handler_protobuf ≡ some h
      → dispatch d parse handle e m ≡ some (h, handles_message h m)
  unfolding dispatch
  dispatch-protobuf e h m raw proto = rw (raw, dispatch) (rw proto)

  pub finish-exit :
      (e : HandlerEvent d.Num) (before after : d.Num) (r : Router d.Num) (h : ℕ)
      → e.context.exits ≡ true
      → e.handler ≡ none
      → e.handler_protobuf ≡ some h
      → let s = finish d parse handle e before after r in
        (s.calls ≡ r.calls ++ (stops h ∷ []))
        × (s.handlers ≡ erase e.context.key r.handlers)
        × (s.sequence_number ≡ r.sequence_number)
  unfolding finish
  finish-exit e before after r h exits raw proto = ground arith

  pub finish-stay :
      (e : HandlerEvent d.Num) (before after : d.Num) (r : Router d.Num)
      → e.context.exits ≡ false
      → let s = finish d parse handle e before after r in
        (s.calls ≡ r.calls) × (s.handlers ≡ r.handlers) × (s.sequence_number ≡ r.sequence_number)
  unfolding finish
  finish-stay e before after r stays = ground arith

  pub calls-count :
      (e : HandlerEvent d.Num) (r : Router d.Num)
      → ((count d parse handle e r).calls ≡ r.calls)
        × ((count d parse handle e r).handlers ≡ r.handlers)
  unfolding count
  calls-count e r = ground arith

  -- The state after `Handle` of a protobuf handler `h`, before the check of `Exit`.
  abbrev pub handled : RouterItem → ℕ → d.Num → HandlerEvent d.Num → ℕ → Router d.Num → Router d.Num
  handled item size before e h r =
      let m = prepare d parse handle item size before e r (parse item.message) in
      record (count d parse handle e r) {
        handlers =
            insert (parse item.message).key (record e { context = handle h m e.context })
              (count d parse handle e r).handlers;
        calls = (count d parse handle e r).calls ++ (handles_message h m ∷ []);
      }

  pub route_item-protobuf :
      (item : RouterItem) (size : ℕ) (before after : d.Num) (r : Router d.Num)
      (e : HandlerEvent d.Num) (h : ℕ)
      → lookup (parse item.message).key r.handlers ≡ some e
      → e.handler ≡ none
      → e.handler_protobuf ≡ some h
      → let m = prepare d parse handle item size before e r (parse item.message) in
        route_item d parse handle item size before after r
        ≡ some (
            finish d parse handle
              (record e { context = handle h m e.context })
              before
              after
              (handled item size before e h r))
  unfolding route_item deliver
  route_item-protobuf item size before after r e h found raw proto =
      rw (found, route_item)
        (rw (
          deliver,
          dispatch-protobuf e h (prepare d parse handle item size before e r (parse item.message))
              raw proto,
        ))

  -- `m` is the message `p` but for the statistics that the router may add.
  pub record SameMessage (p m : Message d.Num) : Type 0 where
    pub same_key : m.key ≡ p.key
    pub same_payload : m.payload ≡ p.payload
    pub same_hostname : m.hostname ≡ p.hostname
    pub same_daemon_timestamp : m.daemon_timestamp_msec ≡ p.daemon_timestamp_msec
    pub same_sample_frequency : m.sample_frequency_msec ≡ p.sample_frequency_msec
    pub same_sample_duration : m.sample_duration_msec ≡ p.sample_duration_msec
    pub same_schedule_drift : m.schedule_drift_msec ≡ p.schedule_drift_msec
    pub same_schedule_duration : m.schedule_duration_msec ≡ p.schedule_duration_msec
    pub same_actual_hz : m.actual_hz ≡ p.actual_hz
    pub same_collector_sequence_number : m.collector_sequence_number ≡ p.collector_sequence_number
    pub same_daemon_queue_size : m.daemon_queue_size ≡ p.daemon_queue_size
    pub same_daemon_num_server_connections :
        m.daemon_num_server_connections ≡ p.daemon_num_server_connections

  prepare-SameMessage :
      (item : RouterItem) (size : ℕ) (now : d.Num) (e : HandlerEvent d.Num) (r : Router d.Num)
      (p : Message d.Num)
      → SameMessage p (prepare d parse handle item size now e r p)
  unfolding prepare stamp
  prepare-SameMessage item size now e r p =
      if_lem (SameMessage p) e.context.include_statistics
        (λ stats. record {
          same_key = refl;
          same_payload = refl;
          same_hostname = refl;
          same_daemon_timestamp = refl;
          same_sample_frequency = refl;
          same_sample_duration = refl;
          same_schedule_drift = refl;
          same_schedule_duration = refl;
          same_actual_hz = refl;
          same_collector_sequence_number = refl;
          same_daemon_queue_size = refl;
          same_daemon_num_server_connections = refl;
        })
        (λ none_kept. record {
          same_key = refl;
          same_payload = refl;
          same_hostname = refl;
          same_daemon_timestamp = refl;
          same_sample_frequency = refl;
          same_sample_duration = refl;
          same_schedule_drift = refl;
          same_schedule_duration = refl;
          same_actual_hz = refl;
          same_collector_sequence_number = refl;
          same_daemon_queue_size = refl;
          same_daemon_num_server_connections = refl;
        })

  prepare-same :
      (item : RouterItem) (size : ℕ) (now : d.Num) (e : HandlerEvent d.Num) (r : Router d.Num)
      (p : Message d.Num)
      → e.context.include_statistics ≡ false
      → prepare d parse handle item size now e r p ≡ p
  unfolding prepare
  prepare-same item size now e r p off = rw (prepare, off) refl

  -- A message whose key has a protobuf handler that calls `Exit` whenever it handles a message, and
  -- never changes its key: the handler gets the message that was parsed, which has all that the
  -- daemon has set and, if the handler's context is without statistics, nothing else either. The
  -- handler is then stopped, and the table loses the entry of that key and no other.
  pub route_item-exit :
      (item : RouterItem) (size : ℕ) (before after : d.Num) (r : Router d.Num)
      (e : HandlerEvent d.Num) (h : ℕ)
      → lookup (parse item.message).key r.handlers ≡ some e
      → e.handler ≡ none
      → e.handler_protobuf ≡ some h
      → ((m : Message d.Num) (c : Context d.Num)
          → ((handle h m c).exits ≡ true) × ((handle h m c).key ≡ c.key))
      → e.context.key ≡ (parse item.message).key
      → (m : Message d.Num) × (s : Router d.Num) × (route_item d parse handle item size before after
            r
          ≡ some s)
        × SameMessage (parse item.message) m
        × (e.context.include_statistics ≡ false → m ≡ parse item.message)
        × (s.calls ≡ r.calls ++ (handles_message h m ∷ stops h ∷ []))
        × ((k : String)
            → lookup k s.handlers
              ≡ (if str_eq (parse item.message).key k then none else lookup k r.handlers))
  route_item-exit item size before after r e h found raw proto exits own = (
    m,
    finish d parse handle e' before after s,
    route_item-protobuf item size before after r e h found raw proto,
    prepare-SameMessage item size before e r (parse item.message),
    prepare-same item size before e r (parse item.message),
    f.0 ∙ rw ((calls-count e r).0, append_assoc),
    λ k.
        rw (f.1, lookup-erase, (exits m e.context).1 ∙ own, lookup-insert, (calls-count e r).1)
          (ground arith),
  )
    where
      m : Message d.Num
      m = prepare d parse handle item size before e r (parse item.message)

      e' : HandlerEvent d.Num
      e' = record e { context = handle h m e.context }

      s : Router d.Num
      s = handled item size before e h r

      f :
          ((finish d parse handle e' before after s).calls ≡ s.calls ++ (stops h ∷ []))
          × ((finish d parse handle e' before after s).handlers ≡ erase e'.context.key s.handlers)
          × ((finish d parse handle e' before after s).sequence_number ≡ s.sequence_number)
      f = finish-exit e' before after s h (exits m e.context).0 raw proto
