-- ===== src/Boids/Scene.antt =====
-- modules/boids2d/Scene.h and modules/boids2d/Scene.cpp: the scenes of the application with their
-- entities. An entity is known by a number, which stands for its address, and a scene by its place
-- among the scenes; the calls of the entities' methods are listed in their order. No `OnInit`,
-- `OnLoop` or `OnRender` of modules/boids2d changes the entities of a scene.
pub mod Life
pub mod Hits
use wall_mon.Base.{
  ℕ, zero, suc, ◌+◌, Bool, true, false, ◌&&◌, Option, none, some, List, [], ◌∷◌, ◌++◌, length, set,
  get_elem?, ◌==◌, if◌then◌else◌, map,
}
use wall_mon.Base.Double.{Double, int, least}
use wall_mon.Boids.Entity.{Box, is_hit}

pub record Scene (d : Double) : Type 0 where
  pub x : d.Num
  pub y : d.Num
  pub w : d.Num
  pub h : d.Num
  pub scale : d.Num
  pub entity_list : List ℕ
  pub entity_list_init : List ℕ

-- `Scene::scenes` and `Scene::current`.
pub record Scenes (d : Double) : Type 0 where
  pub scenes : List (Scene d)
  pub current : Option ℕ

pub record EntityHit (d : Double) : Type 0 where
  pub virt_x : d.Num
  pub virt_y : d.Num
  pub scene : ℕ
  pub entity : ℕ

pub data Call : Type 0 where
  on_init : ℕ → Call
  on_loop : ℕ → Call
  on_render : ℕ → Call

-- The loop of `RemoveEntity`: after an erasure, the next entity is not looked at.
unfoldable pub erase : ℕ → List ℕ → List ℕ
erase entity [] = []
erase entity (e ∷ []) = if e == entity then [] else e ∷ []
erase entity (e ∷ f ∷ es) =
    let skipped : List ℕ = erase entity es in
    let rest : List ℕ = erase entity (f ∷ es) in if e == entity then f ∷ skipped else e ∷ rest

-- The loop of `Run` that takes the new entities from the back.
unfoldable pub start_all : List ℕ → List ℕ → List Call × List ℕ
start_all [] entity_list = ([], entity_list)
start_all (e ∷ es) entity_list =
    let (calls, list) = start_all es entity_list in (calls ++ (on_init e ∷ []), list ++ (e ∷ []))

module _ (d : Double) where
  -- The constructor.
  unfoldable pub make : d.Num → d.Num → d.Num → d.Num → d.Num → d.Num → Scene d
  make x y w h virtual_w virtual_h = record {
    x = x;
    y = y;
    w = w;
    h = h;
    scale = least d (d.div w virtual_w) (d.div h virtual_h);
    entity_list = [];
    entity_list_init = [];
  }

  unfoldable pub add_entity : ℕ → Scene d → Scene d
  add_entity entity s = record s { entity_list_init = s.entity_list_init ++ (entity ∷ []) }

  unfoldable pub remove_entity : ℕ → Scene d → Scene d
  unfolding erase
  remove_entity entity s = record s { entity_list = erase entity s.entity_list }

  unfoldable pub run : Scene d → List Call × Scene d
  run s =
      let (inits, list) = start_all s.entity_list_init s.entity_list in
      (
        inits ++ (map on_loop list ++ map on_render list),
        record s { entity_list = list; entity_list_init = [] },
      )

  unfoldable pub add_scene : Scene d → Scenes d → Scenes d
  add_scene s w = record w { scenes = w.scenes ++ (s ∷ []) }

  unfoldable pub add_entity_current : ℕ → Scenes d → Scenes d
  unfolding add_entity
  add_entity_current entity w = elim w.current [
    | none ↦ w
    | some i ↦ elim (get_elem? w.scenes i) [
      | none ↦ w
      | some s ↦ record w { scenes = set w.scenes i (add_entity entity s) }
    ]
  ]

  -- The loop of `RunAllScenes`, with the number of the next scene.
  unfoldable pub run_scenes : ℕ → List (Scene d) → Option ℕ → List Call × Scenes d
  run_scenes i [] current = ([], record { scenes = []; current = current })
  run_scenes i (s ∷ ss) current =
      let (calls, s') = run s in
      let (more, w) = run_scenes (suc i) ss (some i) in
      (calls ++ more, record w { scenes = s' ∷ w.scenes })

  unfoldable pub run_all_scenes : Scenes d → List Call × Scenes d
  run_all_scenes w = run_scenes 0 w.scenes w.current

  unfoldable pub real_to_virtual_coords : d.Num → d.Num → Scene d → d.Num × d.Num
  real_to_virtual_coords real_x real_y s = (
    d.mul (d.sub real_x s.x) (d.div (int d 1) s.scale),
    d.mul (d.sub real_y s.y) (d.div (int d 1) s.scale),
  )

  unfoldable pub is_scene_hit : d.Num → d.Num → Scene d → Bool
  is_scene_hit x y s =
      d.le s.x x && (d.le x (d.add s.x s.w) && (d.le s.y y && d.le y (d.add s.y s.h)))

  -- The loop of `GetEntityHits`; `box` is where an entity is.
  unfoldable pub entity_hits : (ℕ → Box d) → ℕ → d.Num → d.Num → List ℕ → List (EntityHit d)
  entity_hits box i x y [] = []
  entity_hits box i x y (e ∷ es) =
      let rest : List (EntityHit d) = entity_hits box i x y es in
      if is_hit d x y (box e)
      then record { virt_x = x; virt_y = y; scene = i; entity = e } ∷ rest
      else rest

  unfoldable pub get_entity_hits : (ℕ → Box d) → ℕ → d.Num → d.Num → Scene d → List (EntityHit d)
  get_entity_hits box i x y s = entity_hits box i x y s.entity_list

  -- The loop of `GetAllEntityHits`, with the number of the next scene.
  unfoldable pub hits_from : (ℕ → Box d) → ℕ → d.Num → d.Num → List (Scene d) → List (EntityHit d)
  hits_from box i x y [] = []
  hits_from box i x y (s ∷ ss) =
      let rest : List (EntityHit d) = hits_from box (suc i) x y ss in
      let (virt_x, virt_y) = real_to_virtual_coords x y s in
      if is_scene_hit x y s then get_entity_hits box i virt_x virt_y s ++ rest else rest

  unfoldable pub get_all_entity_hits : (ℕ → Box d) → d.Num → d.Num → Scenes d → List (EntityHit d)
  get_all_entity_hits box x y w = hits_from box 0 x y w.scenes

  unfoldable pub total : List (Scene d) → ℕ
  total [] = 0
  total (s ∷ ss) = length s.entity_list + total ss

  unfoldable pub get_total_num_entities : Scenes d → ℕ
  get_total_num_entities w = total w.scenes
