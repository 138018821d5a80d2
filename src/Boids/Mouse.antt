-- ===== src/Boids/Mouse.antt =====
-- modules/boids2d/SdlMouseEventFetcher.h and modules/boids2d/SdlMouseEventFetcher.cpp: the mouse in
-- place of the shout system. The queue is that of the `Push` calls, which wait while it is full: a
-- call pushes one event at most. `trunc` is the conversion to int. A shout event is what its parser
-- makes of it.
pub mod Ids
use wall_mon.Base.{ℕ, suc, Bool, true, false, Option, none, some, List, [], ◌∷◌, if◌then◌else◌}
use wall_mon.Base.Double.{Double, int, ratio}
use wall_mon.Boids.Events.{
  ShoutEvent, touch_location, touch_remove, sound_location, wall_screen_height,
}

abbrev pub wall_screen_width : ℕ
wall_screen_width = 7168

pub record Fetcher (d : Double) : Type 0 where
  pub timestamp : d.Num
  pub is_event_stream_active : Bool
  pub event_id : ℕ

pub data SdlEvent : Type 0 where
  mouse_button_down : SdlEvent
  mouse_button_up : SdlEvent
  key_down : SdlEvent
  other_sdl_event : SdlEvent

-- What a call leaves: the fetcher, the event it has pushed, and SDL's events that it has not taken.
pub record Polled (d : Double) : Type 0 where
  pub fetcher : Fetcher d
  pub pushed : Option (ShoutEvent d)
  pub left : List SdlEvent

module _ (d : Double) where
  unfoldable pub init : d.Num → Fetcher d
  init now = record { timestamp = now; is_event_stream_active = false; event_id = 0 }

  unfoldable pub create_shout_event : ℕ → d.Num → d.Num → ShoutEvent d
  create_shout_event event_id x y =
      touch_location
        (some (record { event_id = event_id; x = x; y = y; radius = int d 2; sender_id = 0 }))

  -- After the loop: the place of the mouse, at most every 10 milliseconds.
  unfoldable pub push_location : d.Num → d.Num → d.Num → Fetcher d → Polled d
  unfolding create_shout_event
  push_location x y now f =
      if f.is_event_stream_active
      then (if d.lt (d.sub now f.timestamp) (int d 10)
          then record { fetcher = f; pushed = none; left = [] }
          else record {
            fetcher = record f { timestamp = now };
            pushed = some (create_shout_event f.event_id x y);
            left = [];
          })
      else record { fetcher = f; pushed = none; left = [] }

  module _ (trunc : d.Num → ℕ) where
    unfoldable pub scaled : ℕ → ℕ → ℕ → d.Num
    scaled size pixels m = int d (trunc (d.mul (int d m) (ratio d size pixels)))

    unfoldable pub poll_events : ℕ → ℕ → d.Num → List SdlEvent → Fetcher d → Polled d
    poll_events mx my now [] f =
        push_location (scaled wall_screen_width 1600 mx) (scaled wall_screen_height 768 my) now f
    poll_events mx my now (mouse_button_down ∷ es) f =
        poll_events mx my now es (record f { is_event_stream_active = true })
    poll_events mx my now (mouse_button_up ∷ es) f = record {
      fetcher = record f { is_event_stream_active = false; event_id = suc f.event_id };
      pushed = some (touch_remove (some f.event_id));
      left = es;
    }
    poll_events mx my now (key_down ∷ es) f = record {
      fetcher = f;
      pushed = some (sound_location true);
      left = es;
    }
    poll_events mx my now (other_sdl_event ∷ es) f = poll_events mx my now es f
