-- ===== src/Tests/DispatcherTests.antt =====
-- lib/MonitorDispatcher.cpp.
use wall_mon.Base.{
  ◌≡◌, refl, String, Bool, true, false, Option, none, some, [], ◌∷◌, ℤ, if◌then◌else◌, str_eq,
}
use wall_mon.Base.StrMap.{lookup}
use wall_mon.Context.{Context}
use wall_mon.Router
use wall_mon.Router.{Monitor, Router}
use wall_mon.Dispatcher.{Dispatcher, init_monitor, stop_monitor, router_manager, listen_forever}
use wall_mon.Dispatcher.Lifecycle.{registered, key_of, listen_forever-stopped}
use wall_mon.Tests.Numbers.{whole}

abbrev monitor : Monitor
monitor = record { name = 4; is_handler = false; is_handler_protobuf = true }

abbrev load : String → Option Monitor
load path = if str_eq path "libcpu.so" then some monitor else none

abbrev on_init : Monitor → Context ℤ → Context ℤ × Bool
on_init m c = (record c { key = "cpu" }, true)

abbrev idle : Dispatcher (Router ℤ)
idle = record { monitors = []; manager = Router.init whole 0; stopped = [] }

listen_forever-stopped_example :
    (t : Dispatcher (Router ℤ)) × (listen_forever whole router_manager false load on_init
        (("h", init_monitor "libcpu.so") ∷ ("h", stop_monitor "libcpu.so") ∷ [])
        idle
      ≡ some t)
    × (t.stopped ≡ 4 ∷ [])
    × ((p : String)
        → lookup p t.monitors ≡ (if str_eq "libcpu.so" p then none else lookup p idle.monitors))
    × ((k : String)
        → lookup k t.manager.handlers ≡ (
            if str_eq (key_of whole false load on_init "h" monitor) k
            then some (registered whole false load on_init "h" monitor)
            else lookup k idle.manager.handlers))
listen_forever-stopped_example =
    listen_forever-stopped whole false load on_init "h" "h" "libcpu.so" monitor idle refl
