-- ===== src/Tests/BoidTests.antt =====
-- modules/boids2d.
use wall_mon.Base.{ℕ, ◌+◌, ◌*◌, ◌≡◌, refl, arith, false, none, some, [], ◌∷◌, pos, negsuc, List}
use wall_mon.Base.Counts.{count}
use wall_mon.Base.NatMap.{lookup}
use wall_mon.Boids.Entity as Entity
use wall_mon.Boids.Entity.{Box, Touch, EntityEvent}
use wall_mon.Boids.Entity.Speed.{Rounded, touch, frame, after, Moving, after-Moving}
use wall_mon.Boids.Scene.{
  Scene, Scenes, make, get_all_entity_hits, hits_from, is_scene_hit, real_to_virtual_coords,
}
use wall_mon.Boids.Scene.Life.{Step, added, removed, ran, live, adds, inits, Follows, live-Follows}
use wall_mon.Boids.Scene.Hits.{hits_of, get_all_entity_hits_lem}
use wall_mon.Boids.Events.{
  Forward, EventSystem, ShoutEvent, Junk, touch_location, touch_remove, other_event, removal,
  filter_and_route_event, parse, route_parsed, outside, flip, associate, forward, found, claim,
}
use wall_mon.Boids.Events.Routing.{route_all, AllFor, route_all-Stays}
use wall_mon.WallView.{init, is_cords_within, global_to_grid_coords}
use wall_mon.Tests.Numbers.{whole, thousandths}

thousandths-Rounded : Rounded thousandths
thousandths-Rounded = record {
  order = record {
    irreflexive = λ a. ground arith;
    asymmetric = λ a b h. ground arith;
    not_less_trans = λ a b c h k. ground arith;
  };
  sub_le = λ a f h. ground arith;
  le_add = λ a f h. ground arith;
  neg_le = λ a b h. ground arith;
  neg_zero = refl;
  nonneg_1_1000 = λ a h. ground arith;
  nonneg_5_100 = λ a h. ground arith;
  le_1_1000_3_100 = λ a h. ground arith;
}

abbrev table_box : Box thousandths
table_box = record { tx = pos 0; ty = pos 0; width = pos 50000; height = pos 100000 }

-- Zeros in all fields.
abbrev blank : EntityEvent thousandths
blank = record {
  scroll_threshold = pos 0;
  swipe_threshold = pos 0;
  scroll_speed = pos 0;
  swipe_speed = pos 0;
  max_speed = pos 0;
  min_speed = pos 0;
  is_first_time = false;
  tap_event_interval = pos 0;
  previous_tap_event_timestamp = pos 0;
  current_tap_event_timestamp = pos 0;
  scroll_event_interval = pos 0;
  previous_scroll_event_timestamp = pos 0;
  current_scroll_event_timestamp = pos 0;
  swipe_event_interval = pos 0;
  previous_swipe_event_timestamp = pos 0;
  current_swipe_event_timestamp = pos 0;
}

-- A finger that moves up by 10.
abbrev up : Touch thousandths
up = record {
  is_sound = false;
  remove = false;
  moved_distance = pos 0;
  radius = pos 1000;
  last_updated = pos 5000;
  loc_x = pos 0;
  loc_y = pos 0;
  delta_x = pos 0;
  delta_y = pos 10000;
}

-- The touch makes the table move with its greatest speed, 3, and a frame slows it down.
scrolled :
    ((after thousandths table_box (touch up ∷ []) (Entity.make thousandths blank)).scroll_speed
      ≡ pos 3000)
    × ((after thousandths table_box
          (touch up ∷ frame ∷ [])
          (Entity.make thousandths blank)).scroll_speed
        ≡ pos 2850)
unfolding after Entity.handle_hit Entity.handle_move Entity.set_thresholds Entity.make Entity.push
    Entity.run_callbacks Entity.run_swipe Entity.run_scroll Entity.run_scroll_callbacks
    Entity.run_swipe_callbacks Entity.slow_down
scrolled = (refl, refl)

after-Moving_example : Moving thousandths thousandths-Rounded table_box (
    after thousandths table_box
      (touch up ∷ frame ∷ frame ∷ touch up ∷ [])
      (Entity.make thousandths blank))
after-Moving_example =
    after-Moving thousandths thousandths-Rounded table_box refl blank up
      (frame ∷ frame ∷ touch up ∷ []) refl

-- Entity 1 stays, entity 2 is removed after the first frame.
abbrev some_steps : List Step
some_steps = added 1 ∷ added 2 ∷ ran ∷ removed 2 ∷ ran ∷ []

live-Follows_example :
    Follows []
      (live whole some_steps (make whole (pos 0) (pos 0) (pos 10) (pos 10) (pos 5) (pos 5))).0
    × ((e : ℕ)
        → inits e
              (live whole some_steps
                (make whole (pos 0) (pos 0) (pos 10) (pos 10) (pos 5) (pos 5))).0
            + count e
                (live whole some_steps
                  (make whole (pos 0) (pos 0) (pos 10) (pos 10) (pos 5) (pos 5))).1.entity_list_init
          ≡ adds e some_steps)
live-Follows_example =
    live-Follows whole (pos 0) (pos 0) (pos 10) (pos 10) (pos 5) (pos 5) some_steps

abbrev scene : Scene whole
scene = record {
  x = pos 0;
  y = pos 0;
  w = pos 10000;
  h = pos 10000;
  scale = pos 1;
  entity_list = 1 ∷ 2 ∷ 3 ∷ [];
  entity_list_init = [];
}

abbrev boxes : ℕ → Box whole
boxes e = record { tx = pos (10 * e); ty = pos 2000; width = pos 10; height = pos 2000 }

abbrev scenes : Scenes whole
scenes = record { scenes = scene ∷ []; current = none }

get_all_entity_hits_lem_example :
    hits_of whole 0 2 (get_all_entity_hits whole boxes (pos 25) (pos 2500) scenes) ≡ 1
unfolding is_scene_hit Entity.is_hit real_to_virtual_coords count
get_all_entity_hits_lem_example = get_all_entity_hits_lem whole boxes 0 2 (pos 25) (pos 2500) scenes

abbrev junk : Junk whole
junk = record {
  x = negsuc 0;
  y = pos 0;
  event_id = 0;
  is_last = false;
  now = pos 0;
  touch = record {
    is_sound = false;
    remove = false;
    moved_distance = pos 0;
    radius = pos 0;
    last_updated = pos 0;
    loc_x = pos 0;
    loc_y = pos 0;
    delta_x = pos 0;
    delta_y = pos 0;
  };
}

-- Touch 7 is on entity 2; its next event is elsewhere, where entity 1 is.
abbrev system : EventSystem whole
system = record {
  wall_view = init 0 0 7 4;
  event_id_map = (7, (2, 0)) ∷ [];
  current_entity = none;
  event_queue = [];
}

abbrev moves : List (Junk whole × ShoutEvent whole)
moves =
    (
      junk,
      touch_location
          (some (record { event_id = 7; x = pos 15; y = pos 500; radius = pos 1; sender_id = 0 })),
    )
    ∷ (junk, other_event)
    ∷ (junk, touch_remove (some 8))
    ∷ []

route_all-Stays_example :
    AllFor whole 7 2 (route_all whole boxes scenes moves system).0
    × ((f : Forward whole) × (u : EventSystem whole) × (filter_and_route_event whole boxes scenes
            junk
            (touch_remove (some 7))
            (route_all whole boxes scenes moves system).1
          ≡ some (f, u))
        × (f.entity ≡ some 2)
        × (f.kind ≡ removal)
        × (lookup 7 u.event_id_map ≡ none))
route_all-Stays_example =
    route_all-Stays whole boxes scenes 7 (2, 0) moves junk system refl
      (λ e. absurd (omega (arith, e)), tt)

moved_one : (f : Forward whole) × ((route_all whole boxes scenes moves system).0 ≡ f ∷ [])
unfolding route_all filter_and_route_event parse route_parsed outside flip is_cords_within init
    associate forward found claim get_all_entity_hits hits_from is_scene_hit global_to_grid_coords
moved_one = (_, refl)
