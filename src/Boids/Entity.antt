-- ===== src/Boids/Entity.antt =====
-- modules/boids2d/Entity.h and modules/boids2d/Entity.cpp: what is drawn in a scene and touched. An
-- overriding method that a handler calls is a value of `Call`.

pub mod Speed
use wall_mon.Base.{ℕ, Bool, true, false, ◌&&◌, ◌||◌, List, [], ◌∷◌, ◌++◌, if◌then◌else◌, negsuc}
use wall_mon.Base.Double.{Double, int, neg, fabs, least, most, ratio}

pub record Box (d : Double) : Type 0 where
  pub tx : d.Num
  pub ty : d.Num
  pub width : d.Num
  pub height : d.Num

pub data Shape : Type 0 where
  quad : Shape
  diamond : Shape
  triangle_up : Shape
  triangle_down : Shape
  triangle_left : Shape
  triangle_right : Shape
  polygon : Shape

-- `TT_touch_state_t`.
pub record Touch (d : Double) : Type 0 where
  pub is_sound : Bool
  pub remove : Bool
  pub moved_distance : d.Num
  pub radius : d.Num
  pub last_updated : d.Num
  pub loc_x : d.Num
  pub loc_y : d.Num
  pub delta_x : d.Num
  pub delta_y : d.Num

pub data Call (d : Double) : Type 0 where
  tap : d.Num → d.Num → Call d
  scroll_down : d.Num → Call d
  scroll_up : d.Num → Call d
  swipe_left : d.Num → Call d
  swipe_right : d.Num → Call d
  clap : Call d

-- What `EntityEvent` keeps. A field that its constructor leaves alone has some value.
pub record EntityEvent (d : Double) : Type 0 where
  pub scroll_threshold : d.Num
  pub swipe_threshold : d.Num
  pub scroll_speed : d.Num
  pub swipe_speed : d.Num
  pub max_speed : d.Num
  pub min_speed : d.Num
  pub is_first_time : Bool
  pub tap_event_interval : d.Num
  pub previous_tap_event_timestamp : d.Num
  pub current_tap_event_timestamp : d.Num
  pub scroll_event_interval : d.Num
  pub previous_scroll_event_timestamp : d.Num
  pub current_scroll_event_timestamp : d.Num
  pub swipe_event_interval : d.Num
  pub previous_swipe_event_timestamp : d.Num
  pub current_swipe_event_timestamp : d.Num

module _ (d : Double) where
  unfoldable pub is_hit : d.Num → d.Num → Box d → Bool
  is_hit x y b =
      d.le b.tx x && (d.le x (d.add b.tx b.width) && (d.le b.ty y && d.le y (d.add b.ty b.height)))

  -- The lower left corner that `DrawEntityShape` takes.
  unfoldable pub corner : Bool → Box d → d.Num × d.Num
  corner center_shape b =
      if center_shape
      then (d.sub b.tx (d.div b.width (int d 2)), d.sub b.ty (d.div b.height (int d 2)))
      else (b.tx, b.ty)

  -- The vertices of a shape with the lower left corner `x`, `y`, in their order.
  unfoldable pub vertices : Shape → d.Num → d.Num → d.Num → d.Num → List (d.Num × d.Num)
  vertices quad x y w h = (x, y) ∷ (d.add x w, y) ∷ (d.add x w, d.add y h) ∷ (x, d.add y h) ∷ []
  vertices diamond x y w h =
      (x, d.add y (d.div h (int d 2)))
      ∷ (d.add x (d.div w (int d 2)), y)
      ∷ (d.add x w, d.add y (d.div h (int d 2)))
      ∷ (d.add x (d.div w (int d 2)), d.add y h)
      ∷ []
  vertices triangle_up x y w h =
      (x, y) ∷ (d.add x w, y) ∷ (d.add x (d.div w (int d 2)), d.add y h) ∷ []
  vertices triangle_down x y w h =
      (d.add x (d.div w (int d 2)), y) ∷ (d.add x w, d.add y h) ∷ (x, d.add y h) ∷ []
  vertices triangle_left x y w h =
      (x, d.add y (d.div h (int d 2))) ∷ (d.add x w, y) ∷ (d.add x w, d.add y h) ∷ []
  vertices triangle_right x y w h =
      (x, y) ∷ (d.add x w, d.add y (d.div h (int d 2))) ∷ (x, d.add y h) ∷ []
  vertices polygon x y w h =
      (x, d.add y (d.div h (int d 4)))
      ∷ (d.add x (d.div w (int d 4)), y)
      ∷ (d.sub (d.add x w) (d.div w (int d 4)), y)
      ∷ (d.add x w, d.add y (d.div h (int d 4)))
      ∷ (d.add x w, d.sub (d.add y h) (d.div h (int d 4)))
      ∷ (d.sub (d.add x w) (d.div w (int d 4)), d.add y h)
      ∷ (d.add x (d.div w (int d 4)), d.add y h)
      ∷ (x, d.sub (d.add y h) (d.div h (int d 4)))
      ∷ []

  unfoldable pub draw_entity_shape : Shape → Bool → Box d → List (d.Num × d.Num)
  draw_entity_shape entity_shape center_shape b =
      let (x, y) = corner center_shape b in vertices entity_shape x y b.width b.height

  -- The constructor: `junk` holds what the fields are that it leaves alone.
  unfoldable pub make : EntityEvent d → EntityEvent d
  make junk = record junk {
    is_first_time = true;
    scroll_speed = int d 0;
    swipe_speed = int d 0;
    tap_event_interval = d.num (negsuc 0);
    scroll_event_interval = d.num (negsuc 0);
    swipe_event_interval = d.num (negsuc 0);
    previous_tap_event_timestamp = d.num (negsuc 0);
    previous_scroll_event_timestamp = d.num (negsuc 0);
    previous_swipe_event_timestamp = d.num (negsuc 0);
  }

  -- The thresholds, set by the first touch.
  unfoldable pub set_thresholds : Box d → EntityEvent d → EntityEvent d
  set_thresholds b e =
      if e.is_first_time
      then record e {
        is_first_time = false;
        scroll_threshold = d.mul b.height (ratio d 2 100);
        swipe_threshold = d.mul b.width (ratio d 2 100);
        min_speed = d.mul b.height (ratio d 1 1000);
        max_speed = d.mul b.height (ratio d 3 100);
      }
      else e

  -- A speed `v` with the movement `delta` on top.
  unfoldable pub push : d.Num → d.Num → d.Num → d.Num → d.Num
  push min_speed max_speed v delta =
      let u = d.add v delta in
      if d.lt min_speed u
      then least d u max_speed
      else if d.lt u (neg d min_speed)
      then most d u (neg d max_speed)
      else u

  -- The part of `HandleHit` for a tap.
  unfoldable pub handle_tap : Touch d → EntityEvent d → List (Call d) × EntityEvent d
  handle_tap t e =
      let e' = record e { current_tap_event_timestamp = t.last_updated } in
      if d.lt e.tap_event_interval (d.sub t.last_updated e.previous_tap_event_timestamp)
      then (tap t.loc_x t.loc_y ∷ [], record e' { previous_tap_event_timestamp = t.last_updated })
      else ([], e')

  -- The part of `HandleHit` for a movement.
  unfoldable pub handle_move : Touch d → EntityEvent d → EntityEvent d
  handle_move t e =
      if d.lt (fabs d t.delta_y) e.scroll_threshold && d.lt (fabs d t.delta_x) e.swipe_threshold
      then e
      else if d.lt (fabs d t.delta_x) (fabs d t.delta_y)
      then record e {
        current_scroll_event_timestamp = t.last_updated;
        scroll_speed = push e.min_speed e.max_speed e.scroll_speed t.delta_y;
      }
      else record e {
        current_swipe_event_timestamp = t.last_updated;
        swipe_speed = push e.min_speed e.max_speed e.swipe_speed t.delta_x;
      }

  unfoldable pub handle_hit : Box d → Touch d → EntityEvent d → List (Call d) × EntityEvent d
  handle_hit b t e =
      let e' = set_thresholds b e in
      if t.is_sound
      then (clap ∷ [], e)
      else if (t.remove && d.lt t.moved_distance (int d 5)) || d.lt (int d 20) t.radius
      then handle_tap t e'
      else if t.remove
      then ([], e')
      else ([], handle_move t e')

  unfoldable pub set_tap_event_interval : d.Num → EntityEvent d → EntityEvent d
  set_tap_event_interval seconds e = record e { tap_event_interval = seconds }

  unfoldable pub set_scroll_event_interval : d.Num → EntityEvent d → EntityEvent d
  set_scroll_event_interval seconds e = record e { scroll_event_interval = seconds }

  unfoldable pub set_swipe_event_interval : d.Num → EntityEvent d → EntityEvent d
  set_swipe_event_interval seconds e = record e { swipe_event_interval = seconds }

  -- A speed `v` after one call of its method.
  unfoldable pub slow_down : d.Num → d.Num → d.Num → d.Num
  slow_down min_speed max_speed v =
      let friction = d.mul max_speed (ratio d 5 100) in
      if d.lt min_speed v
      then (let u = d.sub v friction in if d.lt u (int d 0) then int d 0 else u)
      else if d.lt v (neg d min_speed)
      then (let u = d.add v friction in if d.lt (int d 0) u then int d 0 else u)
      else int d 0

  unfoldable pub run_scroll_callbacks : EntityEvent d → List (Call d) × EntityEvent d
  run_scroll_callbacks e = (
    if d.lt e.min_speed e.scroll_speed
        then scroll_down e.scroll_speed ∷ []
        else if d.lt e.scroll_speed (neg d e.min_speed)
        then scroll_up (neg d e.scroll_speed) ∷ []
        else [],
    record e { scroll_speed = slow_down e.min_speed e.max_speed e.scroll_speed },
  )

  unfoldable pub run_swipe_callbacks : EntityEvent d → List (Call d) × EntityEvent d
  run_swipe_callbacks e = (
    if d.lt e.min_speed e.swipe_speed
        then swipe_right e.swipe_speed ∷ []
        else if d.lt e.swipe_speed (neg d e.min_speed)
        then swipe_left (neg d e.swipe_speed) ∷ []
        else [],
    record e { swipe_speed = slow_down e.min_speed e.max_speed e.swipe_speed },
  )

  unfoldable pub run_scroll : EntityEvent d → List (Call d) × EntityEvent d
  run_scroll e =
      if d.lt e.scroll_event_interval
        (d.sub e.current_scroll_event_timestamp e.previous_scroll_event_timestamp)
      then run_scroll_callbacks
          (record e { previous_scroll_event_timestamp = e.current_scroll_event_timestamp })
      else ([], e)

  unfoldable pub run_swipe : EntityEvent d → List (Call d) × EntityEvent d
  run_swipe e =
      if d.lt e.swipe_event_interval
        (d.sub e.current_swipe_event_timestamp e.previous_swipe_event_timestamp)
      then run_swipe_callbacks
          (record e { previous_swipe_event_timestamp = e.current_swipe_event_timestamp })
      else ([], e)

  unfoldable pub run_callbacks : EntityEvent d → List (Call d) × EntityEvent d
  run_callbacks e =
      let (scrolls, e1) = run_scroll e in let (swipes, e2) = run_swipe e1 in (scrolls ++ swipes, e2)

  unfoldable pub run_all_callbacks : List (EntityEvent d) → List (Call d) × List (EntityEvent d)
  run_all_callbacks [] = ([], [])
  run_all_callbacks (e ∷ es) =
      let (calls, e') = run_callbacks e in
      let (more, es') = run_all_callbacks es in (calls ++ more, e' ∷ es')
