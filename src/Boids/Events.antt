-- ===== src/Boids/Events.antt =====
-- modules/boids2d/EventSystemBase.h and modules/boids2d/EventSystemBase.cpp: how the events of the
-- shout system reach the entities. A shout event is what its parser makes of it, nothing where it
-- fails. The touch manager is not modelled: an event handed to it is a `Forward`, and what it calls
-- back with is an argument. The queue is that of the `Push` calls, which wait while it is full.
pub mod Routing
use wall_mon.Base.{
  ℕ, ◌+◌, Bool, true, false, not, ◌&&◌, Option, none, some, List, [], ◌∷◌, ◌++◌, get_elem?,
  if◌then◌else◌,
}
use wall_mon.Base.NatMap.{lookup, insert, erase}
use wall_mon.Base.Double.{Double, int}
use wall_mon.WallView.{WallView, is_cords_within, global_to_grid_coords}
use wall_mon.Boids.Entity.{Box, Touch}
use wall_mon.Boids.Scene.{Scenes, EntityHit, get_all_entity_hits, real_to_virtual_coords}

abbrev pub wall_screen_height : ℕ
wall_screen_height = 3072

-- What `parse_touch_location_event_v2` reads of an event, the id in `refcon` first.
pub record Location (d : Double) : Type 0 where
  pub event_id : ℕ
  pub x : d.Num
  pub y : d.Num
  pub radius : d.Num
  pub sender_id : ℕ

pub data ShoutEvent (d : Double) : Type 0 where
  touch_location : Option (Location d) → ShoutEvent d
  touch_remove : Option ℕ → ShoutEvent d
  sound_location : Bool → ShoutEvent d
  other_event : ShoutEvent d

-- What the local variables of `FilterAndRouteEvent` hold before they are set.
pub record Junk (d : Double) : Type 0 where
  pub x : d.Num
  pub y : d.Num
  pub event_id : ℕ
  pub is_last : Bool
  pub touch : Touch d
  pub now : d.Num

-- The variables when the event has been parsed.
pub record Parsed (d : Double) : Type 0 where
  pub event_id : ℕ
  pub x : d.Num
  pub y : d.Num
  pub is_last : Bool

-- What is made of the event.
pub data Kind (d : Double) : Type 0 where
  location : d.Num → ℕ → Kind d
  removal : Kind d
  sound : Kind d

-- An event for the touch manager, with `_currentEntity` as it is then, for whom the callbacks queue. The coordinates
-- are those in the scene; a removal and a sound go without them.
pub record Forward (d : Double) : Type 0 where
  pub entity : Option ℕ
  pub event_id : ℕ
  pub x : d.Num
  pub y : d.Num
  pub kind : Kind d

pub record EventSystem (d : Double) : Type 0 where
  pub wall_view : WallView
  pub event_id_map : List (ℕ × (ℕ × ℕ))
  pub current_entity : Option ℕ
  pub event_queue : List (Option ℕ × Touch d)

module _ (d : Double) where
  unfoldable pub make : WallView → EventSystem d
  make wall_view = record {
    wall_view = wall_view;
    event_id_map = [];
    current_entity = none;
    event_queue = [];
  }

  -- The first part of `FilterAndRouteEvent`.
  unfoldable pub parse : Junk d → ShoutEvent d → Option (Parsed d × Kind d)
  parse junk (touch_location none) = none
  parse junk (touch_location (some l)) = some (
    record { event_id = l.event_id; x = l.x; y = l.y; is_last = false },
    location l.radius l.sender_id,
  )
  parse junk (touch_remove none) = none
  parse junk (touch_remove (some event_id)) =
      some (record { event_id = event_id; x = junk.x; y = junk.y; is_last = true }, removal)
  parse junk (sound_location false) = none
  parse junk (sound_location true) = some (
    record { event_id = junk.event_id; x = int d 100; y = int d 100; is_last = junk.is_last },
    sound,
  )
  parse junk other_event = none

  -- `y = WALL_SCREEN_HEIGHT - y`.
  unfoldable pub flip : Parsed d → Parsed d
  flip p = record p { y = d.sub (int d wall_screen_height) p.y }

  unfoldable pub outside : Parsed d → EventSystem d → Bool
  outside p s = not p.is_last && not (is_cords_within d p.x p.y s.wall_view)

  abbrev is_removal : Kind d → Bool
  is_removal (location r i) = false
  is_removal removal = true
  is_removal sound = false

  -- The id has an owner: the event goes there, and a removal ends that.
  unfoldable pub found : ℕ → Kind d → ℕ × ℕ → EventSystem d → EventSystem d
  found event_id kind owner s = record s {
    current_entity = some owner.0;
    event_id_map = if is_removal kind then erase event_id s.event_id_map else s.event_id_map;
  }

  -- The id has none: it gets the first entity that is hit.
  unfoldable pub claim : ℕ → List (EntityHit d) → EventSystem d → Option ((ℕ × ℕ) × EventSystem d)
  claim event_id [] s = none
  claim event_id (hit ∷ hits) s = some (
    (hit.entity, hit.scene),
    record s {
      current_entity = some hit.entity;
      event_id_map = insert event_id (hit.entity, hit.scene) s.event_id_map;
    },
  )

  -- The association of the event's id with an entity and its scene.
  unfoldable pub associate :
      ℕ → Kind d → List (EntityHit d) → EventSystem d → Option ((ℕ × ℕ) × EventSystem d)
  associate event_id kind hits s = elim (lookup event_id s.event_id_map) [
    | some owner ↦ some (owner, found event_id kind owner s)
    | none ↦ claim event_id hits s
  ]

  -- `_HandleTouch`.
  unfoldable pub handle_touch : Touch d → EventSystem d → EventSystem d
  handle_touch t s = record s { event_queue = s.event_queue ++ ((s.current_entity, t) ∷ []) }

  -- The coordinates in the scene at place `i`; a scene that is associated is there.
  unfoldable pub virtual_coords : ℕ → d.Num → d.Num → Scenes d → d.Num × d.Num
  virtual_coords i x y w = elim (get_elem? w.scenes i) [
    | none ↦ (x, y)
    | some s ↦ real_to_virtual_coords d x y s
  ]

  -- The last part: the event is created again and handed on; a sound is put on the queue first.
  unfoldable pub forward :
      Junk d → Scenes d → ℕ × ℕ → Parsed d → Kind d → EventSystem d → Forward d × EventSystem d
  forward junk w owner p kind s =
      let (x, y) = virtual_coords owner.1 p.x p.y w in
      let f : Forward d = record {
        entity = s.current_entity;
        event_id = p.event_id;
        x = x;
        y = y;
        kind = kind;
      } in
      elim kind [
        | location r i ↦ (f, s)
        | removal ↦ (f, s)
        | sound ↦
            (f, handle_touch (record junk.touch { is_sound = true; last_updated = junk.now }) s)
      ]

  -- The part from the filter on.
  unfoldable pub route_parsed :
      (ℕ → Box d)
      → Scenes d
      → Junk d
      → Parsed d
      → Kind d
      → EventSystem d
      → Option (Forward d × EventSystem d)
  route_parsed box w junk p kind s =
      let (x, y) = global_to_grid_coords d p.x p.y s.wall_view in
      let q : Parsed d = record p { x = x; y = y } in
      if outside p s
      then none
      else elim (associate p.event_id kind (get_all_entity_hits d box x y w) s) [
        | none ↦ none
        | some (owner, s') ↦ some (forward junk w owner q kind s')
      ]

  -- `FilterAndRouteEvent`: nothing where it returns early and leaves all as it was.
  unfoldable pub filter_and_route_event :
      (ℕ → Box d)
      → Scenes d
      → Junk d
      → ShoutEvent d
      → EventSystem d
      → Option (Forward d × EventSystem d)
  filter_and_route_event box w junk event s = elim (parse junk event) [
    | none ↦ none
    | some (p, kind) ↦ route_parsed box w junk (flip p) kind s
  ]

  -- A loop of `_HandleTouchesCallback` over touches, each with its `wasUpdated`.
  unfoldable pub handle_touches : Bool → List (Bool × Touch d) → EventSystem d → EventSystem d
  handle_touches remove [] s = s
  handle_touches remove ((was_updated, t) ∷ ts) s =
      handle_touches remove ts
        (if was_updated then handle_touch (record t { is_sound = false; remove = remove }) s else s)

  unfoldable pub handle_touches_callback :
      List (Bool × Touch d) → List (Bool × Touch d) → EventSystem d → EventSystem d
  handle_touches_callback down up s = handle_touches true up (handle_touches false down s)
