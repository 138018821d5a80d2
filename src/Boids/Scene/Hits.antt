-- ===== src/Boids/Scene/Hits.antt =====
-- Which entities `GetAllEntityHits` of modules/boids2d/Scene.cpp finds at a point.
use wall_mon.Base.{
  ℕ, zero, suc, ◌+◌, ◌<◌, ◌≡◌, ◌≢◌, refl, sym, ap, ◌∙◌, arith, ◌&&◌, Option, none, some, List, [],
  ◌∷◌, ◌++◌, get_elem?, ◌==◌, ==_iff, if◌then◌else◌, Bool-cases, inl, inr, subst,
}
use wall_mon.Base.Counts.{count}
use wall_mon.Base.Double.{Double}
use wall_mon.Boids.Entity.{Box, is_hit}
use wall_mon.Boids.Scene.{
  Scene, Scenes, EntityHit, entity_hits, get_entity_hits, hits_from, get_all_entity_hits,
  real_to_virtual_coords, is_scene_hit,
}

module _ (d : Double) where
  -- How often a list of hits has entity `e` of scene `i`.
  unfoldable pub hits_of : ℕ → ℕ → List (EntityHit d) → ℕ
  hits_of i e [] = 0
  hits_of i e (hit ∷ hits) =
      if (hit.scene == i) && (hit.entity == e) then suc (hits_of i e hits) else hits_of i e hits

  -- How often entity `e` of a scene is at the point.
  abbrev pub at_point : (ℕ → Box d) → d.Num → d.Num → ℕ → Option (Scene d) → ℕ
  at_point box x y e none = 0
  at_point box x y e (some s) =
      let (virt_x, virt_y) = real_to_virtual_coords d x y s in
      if is_scene_hit d x y s && is_hit d virt_x virt_y (box e) then count e s.entity_list else 0

  hits_of-append :
      (i e : ℕ) (xs ys : List (EntityHit d))
      → hits_of i e (xs ++ ys) ≡ hits_of i e xs + hits_of i e ys
  unfolding hits_of
  hits_of-append i e [] ys = omega arith
  hits_of-append i e (hit ∷ xs) ys = ground (arith, hits_of-append i e xs ys)

  module _ (box : ℕ → Box d) where
    own :
        (k e : ℕ) (x y : d.Num) (es : List ℕ)
        → hits_of k e (entity_hits d box k x y es)
          ≡ (if is_hit d x y (box e) then count e es else 0)
    unfolding hits_of entity_hits count
    own k e x y [] = ground arith
    own k e x y (f ∷ es) = elim (Bool-cases (f == e)) [
      | inl eq ↦
          subst
            (λ g.
              hits_of k e (entity_hits d box k x y (g ∷ es))
              ≡ (if is_hit d x y (box e) then count e (g ∷ es) else 0))
            (sym ((==_iff f e).0 eq)) (ground (arith, own k e x y es))
      | inr ne ↦ ground (arith, own k e x y es)
    ]

    others :
        (j k e : ℕ) (x y : d.Num) (es : List ℕ)
        → j ≢ k
        → hits_of j e (entity_hits d box k x y es) ≡ 0
    unfolding hits_of entity_hits
    others j k e x y [] ne = refl
    others j k e x y (f ∷ es) ne = ground (arith, others j k e x y es ne)

    below :
        (j k e : ℕ) (x y : d.Num) (ss : List (Scene d))
        → j < k
        → hits_of j e (hits_from d box k x y ss) ≡ 0
    unfolding hits_of hits_from get_entity_hits
    below j k e x y [] lt = refl
    below j k e x y (s ∷ ss) lt =
        let (vx, vy) = real_to_virtual_coords d x y s in
        elim (Bool-cases (is_scene_hit d x y s)) [
          | inl hit ↦ rw hit (
              hits_of-append j e (entity_hits d box k vx vy s.entity_list) _
              ∙ omega (
                arith,
                others j k e vx vy s.entity_list (λ q. omega (arith, q, lt)),
                below j (suc k) e x y ss (omega arith),
              ))
          | inr miss ↦ rw miss (below j (suc k) e x y ss (omega arith))
        ]

    hits_from_lem :
        (i k e : ℕ) (x y : d.Num) (ss : List (Scene d))
        → hits_of (k + i) e (hits_from d box k x y ss) ≡ at_point box x y e (get_elem? ss i)
    unfolding hits_of hits_from get_entity_hits
    hits_from_lem i k e x y [] = refl
    hits_from_lem zero k e x y (s ∷ ss) =
        let (vx, vy) = real_to_virtual_coords d x y s in
        let same : k + 0 ≡ k = omega arith in
        rw same (elim (Bool-cases (is_scene_hit d x y s)) [
          | inl hit ↦ rw hit (
              hits_of-append k e (entity_hits d box k vx vy s.entity_list) _
              ∙ ground (arith, own k e vx vy s.entity_list, below k (suc k) e x y ss (omega arith)))
          | inr miss ↦ rw miss (below k (suc k) e x y ss (omega arith))
        ])
    hits_from_lem (suc i) k e x y (s ∷ ss) =
        let (vx, vy) = real_to_virtual_coords d x y s in
        let same : k + suc i ≡ suc k + i = omega arith in
        rw same (elim (Bool-cases (is_scene_hit d x y s)) [
          | inl hit ↦ rw hit (
              hits_of-append (suc k + i) e (entity_hits d box k vx vy s.entity_list) _
              ∙ omega (
                arith,
                others (suc k + i) k e vx vy s.entity_list (λ q. omega (arith, q)),
                hits_from_lem i (suc k) e x y ss,
              ))
          | inr miss ↦ rw miss (hits_from_lem i (suc k) e x y ss)
        ])

    -- Whatever the scenes are: the hits that GetAllEntityHits returns for a point have an entity of
    -- the scene at place `i` as often as it stands in that scene, if the point is in the scene and,
    -- in the coordinates of the scene, in the entity; else they do not have it, and neither do they
    -- if there is no such scene.
    pub get_all_entity_hits_lem :
        (i e : ℕ) (x y : d.Num) (w : Scenes d)
        → hits_of i e (get_all_entity_hits d box x y w) ≡ at_point box x y e (get_elem? w.scenes i)
    unfolding get_all_entity_hits
    get_all_entity_hits_lem i e x y w =
        let same : i ≡ 0 + i = omega arith in
        ap (λ j. hits_of j e (hits_from d box 0 x y w.scenes)) same
        ∙ hits_from_lem i 0 e x y w.scenes
