-- ===== src/Boids/Button.antt =====
-- modules/boids2d/Button.h and modules/boids2d/Button.cpp: a button whose activation is animated.
-- The callback is an action on the program's state `C`; `now` is the time in seconds. What is drawn
-- and the shape are left out.
pub mod Animation
use wall_mon.Base.{Bool, true, false, not, ◌&&◌, if◌then◌else◌}
use wall_mon.Base.Double.{Double, int, ratio}

pub record Button (d : Double) (C : Type 0) : Type 0 where
  pub width : d.Num
  pub slow_activation : Bool
  pub timestamp_sec : d.Num
  pub animation_on : Bool
  pub offset : d.Num
  pub step_size : d.Num
  pub is_activated : Bool
  pub ctx : C

module _ (d : Double) {C : Type 0} (callback : C → C) where
  -- `iterations` is Fps::GetMaxIterationsPerTimeUnit(500).
  unfoldable pub init : d.Num → Bool → d.Num → d.Num → C → Button d C
  init w slow iterations now c = record {
    width = w;
    slow_activation = slow;
    timestamp_sec = now;
    animation_on = false;
    offset = int d 0;
    step_size = d.div w iterations;
    is_activated = true;
    ctx = c;
  }

  unfoldable pub button_click : Button d C → Button d C
  button_click b =
      if b.is_activated
      then record b { is_activated = false; offset = int d 0; ctx = callback b.ctx }
      else record b { is_activated = true; offset = b.width; ctx = callback b.ctx }

  -- The animation's step forward or backward.
  unfoldable pub animate : d.Num → Button d C → Button d C
  animate now b =
      let less : d.Num = d.sub b.offset b.step_size in
      let more : d.Num = d.add b.offset b.step_size in
      record b {
        offset =
            if d.lt (d.sub now b.timestamp_sec) (ratio d 2 10)
            then (if b.is_activated then less else more)
            else (if b.is_activated then more else less);
      }

  unfoldable pub lower_limit : Button d C → Button d C
  lower_limit b =
      if d.le b.offset (int d 0)
      then button_click (record b { offset = int d 0; animation_on = false })
      else b

  unfoldable pub upper_limit : Button d C → Button d C
  upper_limit b =
      if d.le b.width b.offset
      then button_click (record b { offset = b.width; animation_on = false })
      else b

  unfoldable pub on_loop : d.Num → Button d C → Button d C
  on_loop now b =
      if b.slow_activation && b.animation_on then upper_limit (lower_limit (animate now b)) else b

  unfoldable pub handle_hit : d.Num → Button d C → Button d C
  handle_hit now b =
      if b.slow_activation
      then (if not b.animation_on && d.lt (d.sub now b.timestamp_sec) (int d 1)
          then b
          else record b { animation_on = true; timestamp_sec = now })
      else button_click b
