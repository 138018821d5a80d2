-- ===== src/Tests/RouterTests.antt =====
-- server/DataRouter.cpp.
use wall_mon.Base.{
  false, ℕ, ◌≡◌, refl, String, true, none, some, List, [], ◌∷◌, pos, negsuc, ℤ, if◌then◌else◌,
  str_eq,
}
use wall_mon.Base.StrMap.{lookup}
use wall_mon.Context
use wall_mon.Context.{Context}
use wall_mon.Message
use wall_mon.Message.{Message}
use wall_mon.Router.{
  HandlerEvent, handles_message, stops, RouterItem, Router, route_item, route_forever,
}
use wall_mon.Router.Handlers.{SameMessage, route_item-exit}
use wall_mon.Router.Sequence.{Numbered, route_forever-stamps}
use wall_mon.Tests.Numbers.{whole}

abbrev parse : List ℕ → Message ℤ
parse p = Message.with_key "cpu"

-- The handler's monitor calls `Exit` while it handles a message.
abbrev exits : ℕ → Message ℤ → Context ℤ → Context ℤ
exits h m c = Context.exit c

abbrev stays : ℕ → Message ℤ → Context ℤ → Context ℤ
stays h m c = c

abbrev event : HandlerEvent ℤ
event = record {
  context = record (Context.init whole) { key = "cpu"; include_statistics = true };
  handler = none;
  handler_protobuf = some 7;
}

-- The next message gets the last number before the wrap.
abbrev router : Router ℤ
router = record {
  handlers = ("cpu", event) ∷ [];
  sequence_number = 4294967295;
  handler_execution_time_msec = negsuc 0;
  calls = [];
}

abbrev item : RouterItem
item = record { message = 1 ∷ []; size = 1 }

route_item-exit_example :
    (m : Message ℤ) × (s : Router ℤ) × (route_item whole parse exits item 0 (pos 3) (pos 5) router
      ≡ some s)
    × SameMessage whole parse exits (parse item.message) m
    × (event.context.include_statistics ≡ false → m ≡ parse item.message)
    × (s.calls ≡ handles_message 7 m ∷ stops 7 ∷ [])
    × ((k : String)
        → lookup k s.handlers ≡ (if str_eq "cpu" k then none else lookup k router.handlers))
unfolding Message.with_key Context.exit Context.init
route_item-exit_example =
    route_item-exit whole parse exits item 0 (pos 3) (pos 5) router event 7 refl refl refl
      (λ m c. (refl, refl)) refl

route_forever-stamps_example :
    Numbered whole parse stays
      (λ h m c e. e)
      2
      router
      (route_forever whole parse stays
        ((item, 1, pos 3, pos 5) ∷ (item, 0, pos 6, pos 9) ∷ [])
        router)
unfolding Message.with_key Context.init
route_forever-stamps_example =
    route_forever-stamps whole parse stays (λ h m c e. e)
      ((item, 1, pos 3, pos 5) ∷ (item, 0, pos 6, pos 9) ∷ []) router
      (record { name = 7; raw = refl; proto = refl; stats = refl }, tt)
