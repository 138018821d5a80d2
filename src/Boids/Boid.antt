-- ===== src/Boids/Boid.antt =====
-- modules/boids2d/Boid.cpp, and of BoidAxis.cpp and ControlPanel.cpp the settings that are shared by
-- all boids. `trunc` is the conversion to an int and `max_fps` the constant `MAX_FPS`. What is drawn
-- is the list of the vertices.
pub mod Tail
use wall_mon.Base.{
  ℕ, zero, suc, ◌+◌, ◌-◌, Bool, true, false, not, ◌&&◌, ◌||◌, List, [], ◌∷◌, length, pos, negsuc,
  take, ◌==◌, if◌then◌else◌,
}
use wall_mon.Base.Double.{Double, int, fabs, least, most, ratio}
use wall_mon.Boids.Entity.{
  Box, Shape, quad, diamond, triangle_up, triangle_down, triangle_left, triangle_right, polygon,
  draw_entity_shape,
}
use wall_mon.Boids.TableItem.{BoidSharedContext}

-- The static members of `BoidSharedContext`, and `_showLegend` of the control panel.
pub record Settings (d : Double) : Type 0 where
  pub use_logarithmic_axis : Bool
  pub tail_length : d.Num
  pub show_cpu_boid : Bool
  pub show_memory_boid : Bool
  pub show_io_in_boid : Bool
  pub show_io_out_boid : Bool
  pub show_legend : Bool

pub record Boid (d : Double) : Type 0 where
  pub box : Box d
  pub speedx : d.Num
  pub speedy : d.Num
  pub old_destx : d.Num
  pub old_desty : d.Num
  pub tail : List (d.Num × d.Num)
  pub is_highlighted : Bool
  pub visible : Bool

-- What a frame draws of a boid: its shape and the line of its tail.
pub record Drawn (d : Double) : Type 0 where
  pub shape : List (d.Num × d.Num)
  pub tail : List (d.Num × d.Num)

-- `pop_back` of a list that is not empty.
unfoldable pub pop_back : {A : Type 0} → List A → List A
pop_back [] = []
pop_back (x ∷ []) = []
pop_back (x ∷ y ∷ xs) = x ∷ pop_back (y ∷ xs)

module _ (d : Double) where
  -- `fmax` and `fmin` keep a coordinate within the axes.
  unfoldable pub align : d.Num → d.Num → d.Num
  align size v = let half = d.div size (int d 2) in least d (most d v half) (d.sub (int d 100) half)

  unfoldable pub is_destination_reached : d.Num → d.Num → Boid d → Bool
  is_destination_reached destx desty b =
      d.lt (fabs d (d.sub b.box.tx destx)) (ratio d 5 10)
      && d.lt (fabs d (d.sub b.box.ty desty)) (ratio d 5 10)

  -- A new destination sets the speed.
  unfoldable pub aim : d.Num → d.Num → d.Num → Boid d → Boid d
  aim max_fps destx desty b =
      if not (d.eq destx b.old_destx) || not (d.eq desty b.old_desty)
      then record b {
        old_destx = destx;
        old_desty = desty;
        speedx = d.div (d.sub destx b.box.tx) max_fps;
        speedy = d.div (d.sub desty b.box.ty) max_fps;
      }
      else b

  unfoldable pub move : d.Num → d.Num → d.Num → Boid d → Boid d
  move max_fps destx desty b =
      let aimed = aim max_fps destx desty b in
      if is_destination_reached destx desty b
      then record b { speedx = int d 0; speedy = int d 0 }
      else record aimed {
        box = record aimed.box {
          tx = d.add aimed.box.tx aimed.speedx;
          ty = d.add aimed.box.ty aimed.speedy;
        };
      }

  -- A boid that is highlighted is twice as wide and high.
  unfoldable pub highlight : Bool → Boid d → Boid d
  highlight is_highlighted b =
      let size = if is_highlighted then int d 4 else int d 2 in
      record b {
        is_highlighted = is_highlighted;
        box = record b.box { width = size; height = size };
      }

  -- Whether `_DrawBoid` draws boids of the shape.
  unfoldable pub is_shown : Settings d → Shape → Bool
  is_shown s quad = s.show_cpu_boid
  is_shown s diamond = s.show_memory_boid
  is_shown s triangle_down = s.show_io_in_boid
  is_shown s triangle_up = s.show_io_out_boid
  is_shown s triangle_left = true
  is_shown s triangle_right = true
  is_shown s polygon = true

  unfoldable pub draw : Settings d → Shape → Boid d → Drawn d
  draw s shape b = record {
    shape = if is_shown s shape then draw_entity_shape d shape true b.box else [];
    tail = b.tail;
  }

  -- The end of `OnLoop`, with the limit of the tail.
  unfoldable pub grow_tail : ℕ → Boid d → Boid d
  unfolding pop_back
  grow_tail limit b =
      let shorter = if length b.tail == limit then pop_back b.tail else b.tail in
      if limit == 0
      then record b { tail = [] }
      else record b { tail = (b.box.tx, b.box.ty) ∷ shorter }

  -- `OnLoop`; a boid without a destination is not drawn and does not move.
  unfoldable pub on_loop :
      (d.Num → ℕ) → d.Num → Settings d → BoidSharedContext d → Boid d → List (Drawn d) × Boid d
  on_loop trunc max_fps s ctx b =
      let moved =
        move max_fps (align b.box.width ctx.destx) (align b.box.height ctx.desty)
          (record b { visible = true }) in
      let marked = highlight ctx.is_highlighted moved in
      if d.lt ctx.destx (int d 0) || d.lt ctx.desty (int d 0)
      then ([], record b { visible = false })
      else (draw s ctx.boid_shape marked ∷ [], grow_tail (trunc s.tail_length) marked)

  -- `OnRender` of the boid, without the number that it draws.
  unfoldable pub on_render : Boid d → Boid d
  on_render b =
      if b.visible && b.is_highlighted
      then record b {
        box = record b.box {
          width = d.sub b.box.width (int d 2);
          height = d.sub b.box.height (int d 2);
        };
      }
      else b

  -- The constructor, where `junk` holds the fields that it leaves alone.
  unfoldable pub make : Boid d → Boid d
  make junk = record junk {
    old_destx = d.num (negsuc 0);
    old_desty = d.num (negsuc 0);
    box = record { tx = int d 0; ty = int d 0; width = int d 2; height = int d 2 };
    visible = false;
    tail = [];
  }

  -- `ScrollDown` and `ScrollUp` of the axis.
  unfoldable pub scroll_axis : Settings d → Settings d
  scroll_axis s = record s { use_logarithmic_axis = not s.use_logarithmic_axis }

  -- `SwipeLeft` and `SwipeRight` of the axis.
  unfoldable pub swipe_left_axis : d.Num → Settings d → Settings d
  swipe_left_axis speed s = record s { tail_length = most d (d.sub s.tail_length speed) (int d 0) }

  unfoldable pub swipe_right_axis : d.Num → Settings d → Settings d
  swipe_right_axis speed s = record s {
    tail_length = least d (d.add s.tail_length speed) (int d 100);
  }

  -- `Clap` of the control panel, which `Tap` calls too.
  unfoldable pub clap_panel : Settings d → Settings d
  clap_panel s = record s { show_legend = not s.show_legend }

  -- The callbacks of the panel's buttons.
  unfoldable pub cpu_boid_button_callback : Settings d → Settings d
  cpu_boid_button_callback s = record s { show_cpu_boid = not s.show_cpu_boid }

  unfoldable pub memory_boid_button_callback : Settings d → Settings d
  memory_boid_button_callback s = record s { show_memory_boid = not s.show_memory_boid }

  unfoldable pub network_boid_button_callback : Settings d → Settings d
  network_boid_button_callback s = record s { show_io_in_boid = not s.show_io_in_boid }

  unfoldable pub storage_boid_button_callback : Settings d → Settings d
  storage_boid_button_callback s = record s { show_io_out_boid = not s.show_io_out_boid }
