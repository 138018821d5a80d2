-- ===== src/Router.antt =====
-- server/DataRouter.h and server/DataRouter.cpp: the queue of received messages and the handlers.
-- What the user's handler does with a message and its context, how protobuf parses, and the clock
-- are parameters. `calls` is the sequence of calls into handlers, the newest last.
pub mod Handlers
pub mod Sequence
use wall_mon.Base.{
  ℕ, suc, ◌+◌, ◌%◌, ◌^◌, String, Bool, true, false, Option, none, some, List, [], ◌∷◌, ◌++◌, length,
  take, if◌then◌else◌, ℤ, pos, negsuc, ◌==◌,
}
use wall_mon.Base.StrMap.{lookup, insert, erase}
use wall_mon.Base.Double.{Double}
use wall_mon.Context.{Context}
use wall_mon.Message.{Message}

-- An IBase object: its identity, and which of the handler interfaces `dynamic_cast` finds.
pub record Monitor : Type 0 where
  pub name : ℕ
  pub is_handler : Bool
  pub is_handler_protobuf : Bool

pub record HandlerEvent (N : Type 0) : Type 0 where
  pub context : Context N
  pub handler : Option ℕ
  pub handler_protobuf : Option ℕ

pub data Call (N : Type 0) : Type 0 where
  handles : ℕ → List ℕ → Call N
  handles_message : ℕ → Message N → Call N
  stops : ℕ → Call N

pub record RouterItem : Type 0 where
  pub message : List ℕ
  pub size : ℕ

pub record Router (N : Type 0) : Type 0 where
  pub handlers : List (String × HandlerEvent N)
  pub sequence_number : ℕ
  pub handler_execution_time_msec : N
  pub calls : List (Call N)

-- `Route`, up to the push on the queue: the item to push, or nothing for an empty message.
-- `none` where the length is negative, for which `new char[length]` fails. `bytes` is what the
-- pointer shows.
unfoldable pub route : List ℕ → ℤ → Option (Option RouterItem)
route bytes (pos n) =
    if n == 0 then some none else some (some (record { message = take n bytes; size = n }))
route bytes (negsuc n) = none

-- The constructor does not set `_sequenceNumber`: its first value is what the memory held.
unfoldable pub init : (d : Double) → ℕ → Router d.Num
init d uninitialized = record {
  handlers = [];
  sequence_number = uninitialized;
  handler_execution_time_msec = d.num (negsuc 0);
  calls = [];
}

abbrev pub cast : Bool → ℕ → Option ℕ
cast true name = some name
cast false name = none

module _ {N : Type 0} where
  unfoldable pub register : Monitor → Context N → Router N → Router N
  register m c r = record r { handlers = insert c.key event r.handlers }
    where
      event : HandlerEvent N
      event = record {
        context = c;
        handler = cast m.is_handler m.name;
        handler_protobuf = cast m.is_handler_protobuf m.name;
      }

  -- `Remove` and `Event` have empty bodies.
  unfoldable pub remove : Monitor → Router N → Router N
  remove m r = r

  unfoldable pub delete_handler : HandlerEvent N → Router N → Router N
  delete_handler e r = record r { handlers = erase e.context.key r.handlers }

  -- `OnStop` of the handler, or of the other kind of handler where there is none.
  stop_call : HandlerEvent N → List (Call N)
  stop_call e = elim e.handler [
    | some h ↦ stops h ∷ []
    | none ↦ elim e.handler_protobuf [ some h ↦ stops h ∷ [] | none ↦ [] ]
  ]

module _ (d : Double)
    -- `_msg->ParseFromArray(item->message, item->length)`, whatever it leaves in `_msg`.
    (parse : List ℕ → Message d.Num)
    -- What `Handle` of a handler does to the context that it shares with the program.
    (handle : ℕ → Message d.Num → Context d.Num → Context d.Num) where
  abbrev N : Type 0
  N = d.Num

  -- The statistics of a message, `now` by the clock and `queue_size` items behind it.
  unfoldable pub stamp : RouterItem → ℕ → N → Router N → Message N → Message N
  stamp item queue_size now r m = record m {
    network_message_size_bytes = some item.size;
    server_sequence_number = some r.sequence_number;
    server_queue_size = some queue_size;
    server_timestamp_msec = some now;
    previous_handler_execution_time_msec =
        if d.lt (d.num (pos 0)) r.handler_execution_time_msec
        then some r.handler_execution_time_msec
        else m.previous_handler_execution_time_msec;
  }

  -- The calls of `Handle`, and the name of the handler; `none` is LOG(FATAL), which ends the
  -- program.
  unfoldable pub dispatch : HandlerEvent N → Message N → Option (ℕ × Call N)
  dispatch e m = elim e.handler [
    | some h ↦ some (h, handles h (elim m.payload [ some p ↦ p | none ↦ [] ]))
    | none ↦ elim e.handler_protobuf [ some h ↦ some (h, handles_message h m) | none ↦ none ]
  ]

  -- After `Handle`: the time it took (if statistics are on only now, the code subtracts a time that
  -- it never took; `before` stands for that too), and
  -- the removal of a handler that called `Exit`.
  unfoldable pub finish : HandlerEvent N → N → N → Router N → Router N
  unfolding stop_call delete_handler
  finish e before after r =
      let timed : Router N =
        (if e.context.include_statistics
          then record r { handler_execution_time_msec = d.sub after before }
          else r) in
      if e.context.exits
      then delete_handler e (record timed { calls = timed.calls ++ stop_call e })
      else timed

  -- What is handed to the handler, and the router with its counter advanced: only with statistics.
  unfoldable pub prepare : RouterItem → ℕ → N → HandlerEvent N → Router N → Message N → Message N
  prepare item queue_size now e r m =
      if e.context.include_statistics then stamp item queue_size now r m else m

  unfoldable pub count : HandlerEvent N → Router N → Router N
  count e r =
      if e.context.include_statistics
      then record r { sequence_number = (r.sequence_number + 1) % 2 ^ 32 }
      else r

  -- The branch of an item whose key has a handler; `Handle` may change the shared context.
  unfoldable pub deliver :
      RouterItem → ℕ → N → N → HandlerEvent N → Message N → Router N → Option (Router N)
  deliver item queue_size before after e m r =
      let m' : Message N = prepare item queue_size before e r m in
      let r' : Router N = count e r in
      elim (dispatch e m') [
        | none ↦ none
        | some (h, call) ↦
            let e' : HandlerEvent N = record e { context = handle h m' e.context } in
            some (
              finish e' before after (record r' {
                handlers = insert m.key e' r'.handlers;
                calls = r'.calls ++ (call ∷ []);
              }))
      ]

  -- One round of `_RouteForever` for an item from the queue, while the router runs.
  unfoldable pub route_item : RouterItem → ℕ → N → N → Router N → Option (Router N)
  route_item item queue_size before after r =
      let m : Message N = parse item.message in
      elim (lookup m.key r.handlers) [
        | none ↦ some r
        | some e ↦ deliver item queue_size before after e m r
      ]

  -- `_RouteForever` over the items that it pops until `Stop`, each with the length of the queue
  -- behind it and the clock before and after `Handle`.
  unfoldable pub route_forever : List (RouterItem × ℕ × N × N) → Router N → Option (Router N)
  route_forever [] r = some r
  route_forever ((item, size, before, after) ∷ items) r =
      elim (route_item item size before after r) [ none ↦ none | some r' ↦ route_forever items r' ]
