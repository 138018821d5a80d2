-- ===== src/Tests/ButtonTests.antt =====
-- modules/boids2d: buttons, the mouse and the pace of the frames.
use wall_mon.Base.{ℕ, ◌≤◌, ◌≡◌, refl, arith, suc, true, false, List, [], ◌∷◌, pos, negsuc, ℤ, some}
use wall_mon.Boids.Fps.{Fps, minus, on_loop, delay_of, on_loop-Paced}
use wall_mon.Boids.Button
use wall_mon.Boids.Button.{Button, button_click, animate, lower_limit, upper_limit, handle_hit}
use wall_mon.Boids.Button.Animation.{Call, loop, hit, calls, Placed, calls-Placed}
use wall_mon.Boids.Events.{touch_location, touch_remove}
use wall_mon.Boids.Mouse
use wall_mon.Boids.Mouse.{
  mouse_button_down, mouse_button_up, other_sdl_event, push_location, poll_events,
}
use wall_mon.Boids.Mouse.Ids
use wall_mon.Boids.Mouse.Ids.{OneByOne, polled, polled-OneByOne}
use wall_mon.Tests.Numbers.{whole, thousandths}

-- The clock wraps around before the next frame.
abbrev before_wrap : Fps whole
before_wrap = record {
  old_time = 4294967000;
  last_time = 4294967286;
  current_time = 0;
  speed_factor = pos 1;
  num_frames = 30;
  frames = 12;
}

on_loop-Paced_example :
    ((on_loop whole 5 before_wrap).0 ≤ 28)
    × (28 ≤ minus (on_loop whole 5 before_wrap).1.last_time 4294967286)
    × (28 ≤ minus 5 4294967286 → (on_loop whole 5 before_wrap).0 ≡ 0)
on_loop-Paced_example = on_loop-Paced whole 5 before_wrap (omega arith) (omega arith)

waits : (on_loop whole 5 before_wrap).0 ≡ 13
unfolding on_loop delay_of
waits = refl

-- Two touches, each with frames, in thousandths of a second.
abbrev touches : List (Call thousandths)
touches = hit (pos 2000) ∷ loop (pos 2000) ∷ hit (pos 4000) ∷ loop (pos 4000) ∷ loop (pos 5000) ∷ []

abbrev new_button : Button thousandths ℕ
new_button = Button.init thousandths suc (pos 20000) true (pos 4000) (pos 0) 0

calls-Placed_example : Placed thousandths suc (pos 20000) (calls thousandths suc touches new_button)
calls-Placed_example = calls-Placed thousandths suc (pos 20000) (pos 4000) (pos 0) true 0 touches

-- The second touch ends early: the button is as before it, and the callback has been called twice.
called_twice :
    ((calls thousandths suc touches new_button).ctx ≡ 3)
    × ((calls thousandths suc touches new_button).is_activated ≡ false)
unfolding Button.init Button.on_loop handle_hit animate lower_limit upper_limit button_click
called_twice = (refl, refl)

abbrev truncated : ℤ → ℕ
truncated (pos n) = n
truncated (negsuc n) = 0

-- A click whose release comes with a second click, and a poll each for what is left.
abbrev mouse_calls : List (Ids.Call whole)
mouse_calls =
    record { arrived = other_sdl_event ∷ mouse_button_down ∷ []; mx = 10; my = 20; now = pos 100 }
    ∷ record { arrived = mouse_button_up ∷ mouse_button_down ∷ []; mx = 11; my = 20; now = pos 120 }
    ∷ record { arrived = []; mx = 12; my = 20; now = pos 140 }
    ∷ []

polled-OneByOne_example :
    OneByOne whole 0 (polled whole truncated mouse_calls [] (Mouse.init whole (pos 0)))
polled-OneByOne_example = polled-OneByOne whole truncated (pos 0) mouse_calls

mouse_events :
    polled whole truncated mouse_calls [] (Mouse.init whole (pos 0))
    ≡ touch_location
        (some (record { event_id = 0; x = pos 40; y = pos 80; radius = pos 2; sender_id = 0 }))
      ∷ touch_remove (some 0)
      ∷ touch_location
          (some (record { event_id = 1; x = pos 48; y = pos 80; radius = pos 2; sender_id = 0 }))
      ∷ []
unfolding Mouse.init poll_events push_location Mouse.scaled
mouse_events = refl
