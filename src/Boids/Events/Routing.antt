-- ===== src/Boids/Events/Routing.antt =====
-- Which entity gets the events of a touch that modules/boids2d/EventSystemBase.cpp routes.
use wall_mon.Base.{
  ℕ, ◌≡◌, ◌≢◌, refl, sym, ap, ◌∙◌, Bool, true, false, Option, none, some, List, [], ◌∷◌, ◌==◌,
  ==_iff, Bool-cases, Option-cases, inl, inr, subst, if_lem,
}
use wall_mon.Base.NatMap.{lookup, lookup-insert, lookup-erase}
use wall_mon.Base.Double.{Double}
use wall_mon.WallView.{global_to_grid_coords}
use wall_mon.Boids.Entity.{Box}
use wall_mon.Boids.Scene.{Scenes, EntityHit, get_all_entity_hits}
use wall_mon.Boids.Events.{
  ShoutEvent, touch_location, touch_remove, sound_location, other_event, Junk, Parsed, Kind,
  location, removal, sound, is_removal, Forward, EventSystem, parse, flip, outside, found, claim,
  associate, forward, route_parsed, filter_and_route_event, handle_touch,
}

module _ (d : Double) where
  -- Events one after the other; what each hands to the touch manager is listed.
  unfoldable pub route_all :
      (ℕ → Box d)
      → Scenes d
      → List (Junk d × ShoutEvent d)
      → EventSystem d
      → List (Forward d) × EventSystem d
  route_all box w [] s = ([], s)
  route_all box w ((junk, event) ∷ events) s = elim (filter_and_route_event d box w junk event s) [
    | none ↦ route_all box w events s
    | some (f, s') ↦ let (more, t) = route_all box w events s' in (f ∷ more, t)
  ]

  -- No event removes the touch `id`.
  abbrev pub Lasts : ℕ → List (Junk d × ShoutEvent d) → Type 0
  Lasts id [] = Unit
  Lasts id ((junk, touch_location l) ∷ events) = Lasts id events
  Lasts id ((junk, touch_remove none) ∷ events) = Lasts id events
  Lasts id ((junk, touch_remove (some i)) ∷ events) = (i ≢ id) × Lasts id events
  Lasts id ((junk, sound_location b) ∷ events) = Lasts id events
  Lasts id ((junk, other_event) ∷ events) = Lasts id events

  -- Each event with the id is handed on for that entity.
  abbrev pub AllFor : ℕ → ℕ → List (Forward d) → Type 0
  AllFor id entity [] = Unit
  AllFor id entity (f ∷ fs) = (f.event_id ≡ id → f.entity ≡ some entity) × AllFor id entity fs

  -- The owner of the touch `id` is kept, and the event `i` is given to its own owner.
  abbrev Given : ℕ → ℕ → ℕ × ℕ → Option ((ℕ × ℕ) × EventSystem d) → Type 0
  Given id i owner none = Unit
  Given id i owner (some (o, s)) =
      (lookup id s.event_id_map ≡ some owner) × (i ≡ id → s.current_entity ≡ some owner.0)

  found-Given :
      (id i : ℕ) (owner own : ℕ × ℕ) (kind : Kind d) (s : EventSystem d)
      → lookup id s.event_id_map ≡ some owner
      → lookup i s.event_id_map ≡ some own
      → (i ≡ id → is_removal d kind ≡ false)
      → Given id i owner (some (own, found d i kind own s))
  unfolding found
  found-Given id i owner own kind s e q lasts = (
    if_lem (λ m. lookup id m ≡ some owner) (is_removal d kind)
        (λ gone. lookup-erase i id s.event_id_map ∙ elim (Bool-cases (i == id)) [
          | inl same ↦ absurd (stays (lasts ((==_iff i id).0 same)) gone)
          | inr ne ↦ rw ne e
        ])
        (λ kept. e),
    λ same.
        ap (λ v. some v.0)
          (some_inj own owner
            (sym q ∙ subst (λ j. lookup j s.event_id_map ≡ some owner) (sym same) e)),
  )
    where
      stays : {b : Bool} → b ≡ false → b ≡ true → ⊥
      stays f t = cc

      some_inj : (v w : ℕ × ℕ) → some v ≡ some w → v ≡ w
      some_inj v w e = cc

  claim-Given :
      (id i : ℕ) (owner : ℕ × ℕ) (hits : List (EntityHit d)) (s : EventSystem d)
      → lookup id s.event_id_map ≡ some owner
      → lookup i s.event_id_map ≡ none
      → Given id i owner (claim d i hits s)
  unfolding claim
  claim-Given id i owner [] s e q = tt
  claim-Given id i owner (hit ∷ hits) s e q =
      let other : i ≡ id → ⊥ =
        λ same. taken (subst (λ j. lookup j s.event_id_map ≡ none) same q) e in
      (
        lookup-insert i id (hit.entity, hit.scene) s.event_id_map ∙ elim (Bool-cases (i == id)) [
          | inl same ↦ absurd (other ((==_iff i id).0 same))
          | inr ne ↦ rw ne e
        ],
        λ same. absurd (other same),
      )
    where
      taken : {o : Option (ℕ × ℕ)} {v : ℕ × ℕ} → o ≡ none → o ≡ some v → ⊥
      taken n t = cc

  associate-Given :
      (id i : ℕ) (owner : ℕ × ℕ) (kind : Kind d) (hits : List (EntityHit d)) (s : EventSystem d)
      → lookup id s.event_id_map ≡ some owner
      → (i ≡ id → is_removal d kind ≡ false)
      → Given id i owner (associate d i kind hits s)
  unfolding associate
  associate-Given id i owner kind hits s e lasts = elim (Option-cases (lookup i s.event_id_map)) [
    | inl q ↦
        let r : associate d i kind hits s ≡ claim d i hits s = rw (q, associate) refl in
        subst (Given id i owner) (sym r) (claim-Given id i owner hits s e q)
    | inr (own, q) ↦
        let r : associate d i kind hits s ≡ some (own, found d i kind own s) =
          rw (q, associate) refl in
        subst (Given id i owner) (sym r) (found-Given id i owner own kind s e q lasts)
  ]

  -- The owner is kept, and an event handed on with the id is for it.
  abbrev Routed : ℕ → ℕ × ℕ → Option (Forward d × EventSystem d) → Type 0
  Routed id owner none = Unit
  Routed id owner (some (f, s)) =
      (lookup id s.event_id_map ≡ some owner) × (f.event_id ≡ id → f.entity ≡ some owner.0)

  module _ (box : ℕ → Box d) (w : Scenes d) where
    forward-Routed :
        (id : ℕ) (owner o : ℕ × ℕ) (junk : Junk d) (p : Parsed d) (kind : Kind d)
        (s : EventSystem d)
        → lookup id s.event_id_map ≡ some owner
        → (p.event_id ≡ id → s.current_entity ≡ some owner.0)
        → Routed id owner (some (forward d junk w o p kind s))
    unfolding forward handle_touch
    forward-Routed id owner o junk p (location r i) s e own = (e, own)
    forward-Routed id owner o junk p removal s e own = (e, own)
    forward-Routed id owner o junk p sound s e own = (e, own)

    route_parsed-Routed :
        (id : ℕ) (owner : ℕ × ℕ) (junk : Junk d) (p : Parsed d) (kind : Kind d) (s : EventSystem d)
        → lookup id s.event_id_map ≡ some owner
        → (p.event_id ≡ id → is_removal d kind ≡ false)
        → Routed id owner (route_parsed d box w junk p kind s)
    unfolding route_parsed
    route_parsed-Routed id owner junk p kind s e lasts =
        let (x, y) = global_to_grid_coords d p.x p.y s.wall_view in
        let hits = get_all_entity_hits d box x y w in
        if_lem (Routed id owner) (outside d p s) (λ _. tt)
          (λ _.
            go (associate d p.event_id kind hits s)
              (associate-Given id p.event_id owner kind hits s e lasts))
      where
        go :
            (r : Option ((ℕ × ℕ) × EventSystem d))
            → Given id p.event_id owner r
            → Routed id owner (elim r [
              | none ↦ none
              | some (o, s') ↦ some (
                  forward d junk w o
                    (record p {
                      x = (global_to_grid_coords d p.x p.y s.wall_view).0;
                      y = (global_to_grid_coords d p.x p.y s.wall_view).1;
                    })
                    kind
                    s')
            ])
        go none g = tt
        go (some (o, s')) g = forward-Routed id owner o junk _ kind s' g.0 g.1

    route-Routed :
        (id : ℕ) (owner : ℕ × ℕ) (junk : Junk d) (event : ShoutEvent d)
        (events : List (Junk d × ShoutEvent d)) (s : EventSystem d)
        → Lasts id ((junk, event) ∷ events)
        → lookup id s.event_id_map ≡ some owner
        → Routed id owner (filter_and_route_event d box w junk event s) × Lasts id events
    unfolding filter_and_route_event parse flip
    route-Routed id owner junk (touch_location none) events s l e = (tt, l)
    route-Routed id owner junk (touch_location (some at)) events s l e =
        (route_parsed-Routed id owner junk _ (location at.radius at.sender_id) s e (λ _. refl), l)
    route-Routed id owner junk (touch_remove none) events s l e = (tt, l)
    route-Routed id owner junk (touch_remove (some i)) events s l e =
        (route_parsed-Routed id owner junk _ removal s e (λ same. absurd (l.0 same)), l.1)
    route-Routed id owner junk (sound_location false) events s l e = (tt, l)
    route-Routed id owner junk (sound_location true) events s l e =
        (route_parsed-Routed id owner junk _ sound s e (λ _. refl), l)
    route-Routed id owner junk other_event events s l e = (tt, l)

    route_all-Lasts :
        (id : ℕ) (owner : ℕ × ℕ) (events : List (Junk d × ShoutEvent d)) (s : EventSystem d)
        → lookup id s.event_id_map ≡ some owner
        → Lasts id events
        → AllFor id owner.0 (route_all box w events s).0
          × (lookup id (route_all box w events s).1.event_id_map ≡ some owner)
    unfolding route_all
    route_all-Lasts id owner [] s e l = (tt, e)
    route_all-Lasts id owner ((junk, event) ∷ events) s e l =
        let (r, l') = route-Routed id owner junk event events s l e in
        go (λ s' e'. route_all-Lasts id owner events s' e' l')
          (filter_and_route_event d box w junk event s) r
      where
        go :
            ((s' : EventSystem d)
              → lookup id s'.event_id_map ≡ some owner
              → AllFor id owner.0 (route_all box w events s').0
                × (lookup id (route_all box w events s').1.event_id_map ≡ some owner))
            → (r : Option (Forward d × EventSystem d)) → Routed id owner r
            → let after : List (Forward d) × EventSystem d = elim r [
              | none ↦ route_all box w events s
              | some (f, s') ↦ let (more, t) = route_all box w events s' in (f ∷ more, t)
            ] in
              AllFor id owner.0 after.0 × (lookup id after.1.event_id_map ≡ some owner)
        go all none r = all s e
        go all (some (f, s')) r = let (a, k) = all s' r.0 in ((r.1, a), k)

    remove_lem :
        (id : ℕ) (owner : ℕ × ℕ) (junk : Junk d) (t : EventSystem d)
        → lookup id t.event_id_map ≡ some owner
        → (f : Forward d) × (u : EventSystem d) × (filter_and_route_event d box w junk
              (touch_remove (some id))
              t
            ≡ some (f, u))
          × (f.entity ≡ some owner.0)
          × (f.kind ≡ removal)
          × (lookup id u.event_id_map ≡ none)
    unfolding filter_and_route_event parse flip route_parsed outside associate found forward
    remove_lem id owner junk t e =
        let p : Parsed d =
          flip d (record { event_id = id; x = junk.x; y = junk.y; is_last = true }) in
        let (x, y) = global_to_grid_coords d p.x p.y t.wall_view in
        let r : Forward d × EventSystem d =
          forward d junk w owner (record p { x = x; y = y }) removal (found d id removal owner t) in
        (
          r.0,
          r.1,
          rw e refl,
          refl,
          refl,
          lookup-erase id id t.event_id_map ∙ rw ((==_iff id id).1 refl) refl,
        )

    -- Of a touch that is associated with an entity, wherever the entities are and whatever events
    -- follow, as long as none of them removes the touch: each of its events that is handed to the
    -- touch manager is handed on with that entity as the current one. The removal that comes next is
    -- handed on for the entity too, and the touch has no entity after it.
    pub route_all-Stays :
        (id : ℕ) (owner : ℕ × ℕ) (events : List (Junk d × ShoutEvent d)) (junk : Junk d)
        (s : EventSystem d)
        → lookup id s.event_id_map ≡ some owner
        → Lasts id events
        → AllFor id owner.0 (route_all box w events s).0
          × ((f : Forward d) × (u : EventSystem d) × (filter_and_route_event d box w junk
                  (touch_remove (some id))
                  (route_all box w events s).1
                ≡ some (f, u))
              × (f.entity ≡ some owner.0)
              × (f.kind ≡ removal)
              × (lookup id u.event_id_map ≡ none))
    route_all-Stays id owner events junk s e l =
        let (a, k) = route_all-Lasts id owner events s e l in
        (a, remove_lem id owner junk (route_all box w events s).1 k)
