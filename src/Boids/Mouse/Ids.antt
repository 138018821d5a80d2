-- ===== src/Boids/Mouse/Ids.antt =====
-- The ids of the touches that modules/boids2d/SdlMouseEventFetcher.cpp makes of the mouse.
use wall_mon.Base.{ℕ, suc, ◌≡◌, refl, true, Option, none, some, List, [], ◌∷◌, ◌++◌, if_lem}
use wall_mon.Base.Double.{Double, int}
use wall_mon.Boids.Events.{ShoutEvent, touch_location, touch_remove, sound_location, other_event}
use wall_mon.Boids.Mouse.{
  Fetcher, SdlEvent, mouse_button_down, mouse_button_up, key_down, other_sdl_event, Polled, init,
  create_shout_event, push_location, poll_events,
}

-- A call: SDL's new events, the place of the mouse and the time.
pub record Call (d : Double) : Type 0 where
  pub arrived : List SdlEvent
  pub mx : ℕ
  pub my : ℕ
  pub now : d.Num

module _ (d : Double) where
  abbrev more : Option (ShoutEvent d) → List (ShoutEvent d) → List (ShoutEvent d)
  more none es = es
  more (some e) es = e ∷ es

  -- The touches of the events have the ids from `k` on, one after the other: every place is of the
  -- touch that is not removed yet, and a removal ends it for good.
  abbrev pub OneByOne : ℕ → List (ShoutEvent d) → Type 0
  OneByOne k [] = Unit
  OneByOne k (touch_location none ∷ es) = ⊥
  OneByOne k (touch_location (some l) ∷ es) = (l.event_id ≡ k) × OneByOne k es
  OneByOne k (touch_remove none ∷ es) = ⊥
  OneByOne k (touch_remove (some i) ∷ es) = (i ≡ k) × OneByOne (suc k) es
  OneByOne k (sound_location b ∷ es) = OneByOne k es
  OneByOne k (other_event ∷ es) = OneByOne k es

  -- What a call pushes goes before whatever goes on with the id that it leaves.
  record Continues (k : ℕ) (r : Polled d) : Type 0 where
    goes_on :
        (es : List (ShoutEvent d)) → OneByOne r.fetcher.event_id es → OneByOne k (more r.pushed es)

  push_location-Continues :
      (x y now : d.Num) (f : Fetcher d) → Continues f.event_id (push_location d x y now f)
  unfolding push_location create_shout_event
  push_location-Continues x y now f =
      if_lem (Continues f.event_id) f.is_event_stream_active
        (λ active.
          if_lem (Continues f.event_id) (d.lt (d.sub now f.timestamp) (int d 10))
            (λ early. record { goes_on = λ es o. o })
            (λ late. record { goes_on = λ es o. (refl, o) }))
        (λ idle. record { goes_on = λ es o. o })

  module _ (trunc : d.Num → ℕ) where
    poll_events-Continues :
        (mx my : ℕ) (now : d.Num) (es : List SdlEvent) (f : Fetcher d)
        → Continues f.event_id (poll_events d trunc mx my now es f)
    unfolding poll_events
    poll_events-Continues mx my now [] f = push_location-Continues _ _ now f
    poll_events-Continues mx my now (mouse_button_down ∷ es) f =
        poll_events-Continues mx my now es (record f { is_event_stream_active = true })
    poll_events-Continues mx my now (mouse_button_up ∷ es) f = record {
      goes_on = λ es o. (refl, o);
    }
    poll_events-Continues mx my now (key_down ∷ es) f = record { goes_on = λ es o. o }
    poll_events-Continues mx my now (other_sdl_event ∷ es) f = poll_events-Continues mx my now es f

    -- The events of all calls; what a call does not take stays before SDL's new events.
    abbrev pub polled : List (Call d) → List SdlEvent → Fetcher d → List (ShoutEvent d)
    polled [] left f = []
    polled (c ∷ cs) left f =
        let r : Polled d = poll_events d trunc c.mx c.my c.now (left ++ c.arrived) f in
        more r.pushed (polled cs r.left r.fetcher)

    polled-from :
        (cs : List (Call d)) (left : List SdlEvent) (f : Fetcher d)
        → OneByOne f.event_id (polled cs left f)
    polled-from [] left f = tt
    polled-from (c ∷ cs) left f =
        let step = poll_events-Continues c.mx c.my c.now (left ++ c.arrived) f in
        step.goes_on _ (polled-from cs _ _)

    -- Whatever is done with the mouse and the keys, and whenever the events are polled: the touches
    -- that are pushed have the ids 0, 1, 2 and so on. Each place of the mouse belongs to the touch
    -- whose id has not been removed yet, and no event has the id of a touch that has been removed.
    pub polled-OneByOne :
        (start : d.Num) (cs : List (Call d)) → OneByOne 0 (polled cs [] (init d start))
    unfolding init
    polled-OneByOne start cs = polled-from cs [] (init d start)
