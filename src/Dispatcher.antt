-- ===== src/Dispatcher.antt =====
-- lib/MonitorDispatcher.h, lib/MonitorDispatcher.cpp and lib/IMonitorManager.h: loading and stopping
-- monitors on request. The class loader and what a monitor does in `OnInit` are parameters; the
-- manager is the Scheduler in a daemon and the DataRouter in a server.
pub mod Lifecycle
use wall_mon.Base.{
  ℕ, String, Bool, true, false, Option, none, some, List, [], ◌∷◌, ◌++◌, if◌then◌else◌, length,
  ◌==◌, ◌&&◌,
}
use wall_mon.Base.Results.{◌>>=◌}
use wall_mon.Base.StrMap.{lookup, insert, erase}
use wall_mon.Base.Double.{Double}
use wall_mon.Context
use wall_mon.Context.{Context}
use wall_mon.Router
use wall_mon.Router.{Monitor, Router}

-- IMonitorManager, whose state is `S`. What the dispatcher does not call is left out.
pub record Manager (N S : Type 0) : Type 0 where
  pub register : Monitor → Context N → S → S
  pub remove : Monitor → S → S

-- A datagram, as ParseFromArray finds it.
pub data Request : Type 0 where
  unparsed : Request
  init_monitor stop_monitor : String → Request
  event : List ℕ → Request

-- The dispatcher with its manager's state, and the monitors whose `OnStop` it has called.
pub record Dispatcher (S : Type 0) : Type 0 where
  pub monitors : List (String × Monitor)
  pub manager : S
  pub stopped : List ℕ

-- DataRouter as the manager.
abbrev pub router_manager : {N : Type 0} → Manager N (Router N)
router_manager = record { register = Router.register; remove = Router.remove }

module _ (d : Double) {S : Type 0} (manager : Manager d.Num S)
    -- `_multicastListenPort == DAEMON_MULTICAST_LISTEN_PORT`.
    (is_daemon : Bool)
    -- Loading and instantiating the class at a path; `none` is an exception.
    (load : String → Option Monitor)
    -- The context that `OnInit` leaves, and whether it returned rather than threw.
    (on_init : Monitor → Context d.Num → Context d.Num × Bool) where
  -- A daemon's monitor with no server gets the source of the request.
  unfoldable pub default_server : String → Context d.Num → Context d.Num
  default_server source c =
      if is_daemon && (length c.servers == 0) then Context.add_server_default source c else c

  unfoldable pub init_context : String → Monitor → Context d.Num
  init_context source m =
      let (c, returned) = on_init m (Context.init d) in
      if returned then default_server source c else c

  -- One request from `source`. `none` is the use of a null pointer.
  unfoldable pub dispatch : String → Request → Dispatcher S → Option (Dispatcher S)
  dispatch source unparsed s = some s
  dispatch source (init_monitor path) s = elim (load path) [
    | none ↦ some s
    | some m ↦ some (record s {
      manager = manager.register m (init_context source m) s.manager;
      monitors = insert path m s.monitors;
    })
  ]
  dispatch source (stop_monitor path) s = elim (lookup path s.monitors) [
    | none ↦ none
    | some m ↦ some (record s {
      manager = manager.remove m s.manager;
      stopped = s.stopped ++ (m.name ∷ []);
      monitors = erase path s.monitors;
    })
  ]
  dispatch source (event bytes) s = some s

  -- `_ListenForever` over the requests until `Stop`, each with its source.
  unfoldable pub listen_forever : List (String × Request) → Dispatcher S → Option (Dispatcher S)
  listen_forever [] s = some s
  listen_forever ((source, r) ∷ rs) s = dispatch source r s >>= listen_forever rs
