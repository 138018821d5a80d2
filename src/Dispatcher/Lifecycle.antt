-- ===== src/Dispatcher/Lifecycle.antt =====
-- A monitor from INIT to STOP (lib/MonitorDispatcher.cpp), with the DataRouter as the manager.
use wall_mon.Base.{
  ◌≡◌, refl, ◌∙◌, arith, String, Bool, Option, none, some, [], ◌∷◌, ◌++◌, if◌then◌else◌, str_eq,
}
use wall_mon.Base.StrMap.{lookup, lookup-insert, lookup-erase, str_eq_refl, insert}
use wall_mon.Base.Double.{Double}
use wall_mon.Context.{Context}
use wall_mon.Router.{Monitor, Router, HandlerEvent, register, remove, cast}
use wall_mon.Dispatcher.{
  Dispatcher, init_monitor, stop_monitor, router_manager, init_context, dispatch, listen_forever,
}

module _ (d : Double) (is_daemon : Bool) (load : String → Option Monitor)
    (on_init : Monitor → Context d.Num → Context d.Num × Bool) where
  -- What the router holds for a monitor after its registration.
  abbrev pub registered : String → Monitor → HandlerEvent d.Num
  registered source m = record {
    context = init_context d router_manager is_daemon load on_init source m;
    handler = cast m.is_handler m.name;
    handler_protobuf = cast m.is_handler_protobuf m.name;
  }

  abbrev pub key_of : String → Monitor → String
  key_of source m = (registered source m).context.key

  -- INIT and then STOP of a path at which a monitor can be loaded: both requests are served, and
  -- `OnStop` is called. The path is then unknown and other paths are as before; but the router
  -- still has the stopped monitor as the handler of its key, beside the handlers it had before.
  pub listen_forever-stopped :
      (source source' path : String) (m : Monitor) (s : Dispatcher (Router d.Num))
      → load path ≡ some m
      → (t : Dispatcher (Router d.Num)) × (listen_forever d router_manager is_daemon load on_init
            ((source, init_monitor path) ∷ (source', stop_monitor path) ∷ [])
            s
          ≡ some t)
        × (t.stopped ≡ s.stopped ++ (m.name ∷ []))
        × ((p : String)
            → lookup p t.monitors ≡ (if str_eq path p then none else lookup p s.monitors))
        × ((k : String)
            → lookup k t.manager.handlers ≡ (
                if str_eq (key_of source m) k
                then some (registered source m)
                else lookup k s.manager.handlers))
  unfolding listen_forever dispatch register remove
  listen_forever-stopped source source' path m s e =
      let known : lookup path (insert path m s.monitors) ≡ some m =
        lookup-insert path path m s.monitors ∙ rw str_eq_refl refl in
      rw (e, dispatch)
        (rw (known, dispatch)
          (
            _,
            refl,
            refl,
            (λ p.
                lookup-erase path p (insert path m s.monitors)
                ∙ rw (lookup-insert path p m s.monitors) (ground arith)),
            λ k. lookup-insert (key_of source m) k (registered source m) s.manager.handlers,
          ))
