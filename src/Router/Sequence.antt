-- ===== src/Router/Sequence.antt =====
-- The sequence numbers that the router stamps on the messages (server/DataRouter.cpp).
use wall_mon.Base.{
  ℕ, zero, suc, ◌+◌, ◌%◌, ◌^◌, ◌≡◌, refl, sym, ap, ◌∙◌, ◌⊎◌, inl, inr, true, Option, none, some,
  List, [], ◌∷◌, ◌++◌, arith, append_assoc, append-nil, Bool-cases, Option-cases, length, ◌≤◌,
}
use wall_mon.Base.StrMap.{lookup, AllValues, lookup-AllValues, insert-AllValues, erase-AllValues}
use wall_mon.Base.Double.{Double}
use wall_mon.Context.{Context}
use wall_mon.Message.{Message}
use wall_mon.Router.{
  HandlerEvent, Call, handles, handles_message, stops, RouterItem, Router, stamp, prepare, count,
  finish, route_item, route_forever,
}
use wall_mon.Router.Handlers.{route_item-protobuf, handled, finish-exit, finish-stay, calls-count}

-- The sequence numbers of the messages that handlers got, in the order of the calls.
abbrev pub stamps : {N : Type 0} → List (Call N) → List (Option ℕ)
stamps [] = []
stamps (handles h p ∷ cs) = stamps cs
stamps (handles_message h m ∷ cs) = m.server_sequence_number ∷ stamps cs
stamps (stops h ∷ cs) = stamps cs

-- `n` consecutive values of an unsigned int.
abbrev pub consecutive : ℕ → ℕ → List (Option ℕ)
consecutive zero s = []
consecutive (suc n) s = some s ∷ consecutive n ((s + 1) % 2 ^ 32)

-- A protobuf handler whose context asks for statistics.
pub record Counts {N : Type 0} (e : HandlerEvent N) : Type 0 where
  pub name : ℕ
  pub raw : e.handler ≡ none
  pub proto : e.handler_protobuf ≡ some name
  pub stats : e.context.include_statistics ≡ true

stamps-append : {N : Type 0} (cs ds : List (Call N)) → stamps (cs ++ ds) ≡ stamps cs ++ stamps ds
stamps-append [] ds = refl
stamps-append (handles h p ∷ cs) ds = stamps-append cs ds
stamps-append (handles_message h m ∷ cs) ds =
    ap (λ r. m.server_sequence_number ∷ r) (stamps-append cs ds)
stamps-append (stops h ∷ cs) ds = stamps-append cs ds

module _ (d : Double) (parse : List ℕ → Message d.Num)
    (handle : ℕ → Message d.Num → Context d.Num → Context d.Num)
    (keeps : (h : ℕ) (m : Message d.Num) (c : Context d.Num)
      → c.include_statistics ≡ true
      → (handle h m c).include_statistics ≡ true) where
  abbrev pub AllCount : Router d.Num → Type 0
  AllCount r = AllValues Counts r.handlers

  finish-stamps :
      (e : HandlerEvent d.Num) (before after : d.Num) (r : Router d.Num)
      → Counts e
      → let s = finish d parse handle e before after r in
        (stamps s.calls ≡ stamps r.calls)
        × (s.sequence_number ≡ r.sequence_number)
        × (AllCount r → AllCount s)
  finish-stamps e before after r c = elim (Bool-cases e.context.exits) [
    | inl x ↦
        let f = finish-exit d parse handle e before after r c.name x c.raw c.proto in
        (
          ap stamps f.0 ∙ stamps-append r.calls (stops c.name ∷ []) ∙ append-nil _,
          f.2,
          λ a. rw f.1 (erase-AllValues Counts e.context.key r.handlers a),
        )
    | inr x ↦
        let f = finish-stay d parse handle e before after r x in (ap stamps f.0, f.2, λ a. rw f.1 a)
  ]

  -- What one item does to the numbers.
  abbrev Advances : Router d.Num → Router d.Num → Type 0
  Advances r s =
      (stamps s.calls ≡ stamps r.calls ++ (some r.sequence_number ∷ []))
      × (s.sequence_number ≡ (r.sequence_number + 1) % 2 ^ 32)

  handled-Advances :
      (item : RouterItem) (size : ℕ) (before : d.Num) (r : Router d.Num) (e : HandlerEvent d.Num)
      (h : ℕ)
      → e.context.include_statistics ≡ true
      → Advances r (handled d parse handle item size before e h r)
  unfolding prepare count stamp
  handled-Advances item size before r e h stats =
      rw (stats, prepare, count) (stamps-append r.calls _, refl)

  handled-AllCount :
      (item : RouterItem) (size : ℕ) (before : d.Num) (r : Router d.Num) (e : HandlerEvent d.Num)
      (c : Counts e)
      → AllCount r
      → AllCount (handled d parse handle item size before e c.name r)
  handled-AllCount item size before r e c a =
      insert-AllValues Counts (parse item.message).key e' _
        (record {
          name = c.name;
          raw = c.raw;
          proto = c.proto;
          stats = keeps c.name m e.context c.stats;
        })
        (rw (calls-count d parse handle e r).1 a)
    where
      m : Message d.Num
      m = prepare d parse handle item size before e r (parse item.message)

      e' : HandlerEvent d.Num
      e' = record e { context = handle c.name m e.context }

  abbrev Routed : Router d.Num → Option (Router d.Num) → Type 0
  Routed r o = (s : Router d.Num) × (o ≡ some s) × AllCount s × ((s ≡ r) ⊎ Advances r s)

  found-Routed :
      (item : RouterItem) (size : ℕ) (before after : d.Num) (r : Router d.Num)
      (e : HandlerEvent d.Num)
      → lookup (parse item.message).key r.handlers ≡ some e
      → AllCount r
      → Routed r (route_item d parse handle item size before after r)
  found-Routed item size before after r e found a = (
    finish d parse handle e' before after s,
    route_item-protobuf d parse handle item size before after r e c.name found c.raw c.proto,
    f.2 (handled-AllCount item size before r e c a),
    inr (f.0 ∙ v.0, f.1 ∙ v.1),
  )
    where
      c : Counts e
      c = lookup-AllValues Counts (parse item.message).key r.handlers a found

      m : Message d.Num
      m = prepare d parse handle item size before e r (parse item.message)

      e' : HandlerEvent d.Num
      e' = record e { context = handle c.name m e.context }

      s : Router d.Num
      s = handled d parse handle item size before e c.name r

      v : Advances r s
      v = handled-Advances item size before r e c.name c.stats

      f :
          (stamps (finish d parse handle e' before after s).calls ≡ stamps s.calls)
          × ((finish d parse handle e' before after s).sequence_number ≡ s.sequence_number)
          × (AllCount s → AllCount (finish d parse handle e' before after s))
      f = finish-stamps e' before after s (record {
        name = c.name;
        raw = c.raw;
        proto = c.proto;
        stats = keeps c.name m e.context c.stats;
      })

  route_item-Routed :
      (item : RouterItem) (size : ℕ) (before after : d.Num) (r : Router d.Num)
      → AllCount r
      → Routed r (route_item d parse handle item size before after r)
  unfolding route_item
  route_item-Routed item size before after r a =
      elim (Option-cases (lookup (parse item.message).key r.handlers)) [
        | inl unknown ↦ rw (unknown, route_item) (r, refl, a, inl refl)
        | inr (e, found) ↦ found-Routed item size before after r e found a
      ]

  abbrev pub Numbered : ℕ → Router d.Num → Option (Router d.Num) → Type 0
  Numbered limit r o =
      (n : ℕ) × (s : Router d.Num) × (o ≡ some s)
      × (n ≤ limit)
      × (stamps s.calls ≡ stamps r.calls ++ consecutive n r.sequence_number)

  after-Numbered :
      (limit : ℕ) (r s : Router d.Num) (o : Option (Router d.Num))
      → (s ≡ r) ⊎ Advances r s
      → Numbered limit s o
      → Numbered (suc limit) r o
  after-Numbered limit r s o (inl e) (n, t, h, le, st) = (n, t, h, omega arith, rw (← e) st)
  after-Numbered limit r s o (inr (st, sq)) (n, t, h, le, st') =
      (suc n, t, h, omega arith, st' ∙ rw (st, sq, append_assoc))

  -- While every registered handler is a protobuf handler with statistics on, and none turns them
  -- off, routing any items ends with no fatal error, and the messages that handlers get on the way
  -- bear consecutive sequence numbers modulo 2^32, at most one for each item, from the number that
  -- the router held.
  pub route_forever-stamps :
      (items : List (RouterItem × ℕ × d.Num × d.Num)) (r : Router d.Num)
      → AllCount r
      → Numbered (length items) r (route_forever d parse handle items r)
  unfolding route_forever
  route_forever-stamps [] r a = (0, r, refl, omega arith, sym (append-nil _))
  route_forever-stamps ((item, size, before, after) ∷ items) r a =
      let (s, e, b, v) = route_item-Routed item size before after r a in
      rw (e, route_forever) (after-Numbered (length items) r s _ v (route_forever-stamps items s b))
