-- ===== src/Boids/Scene/Life.antt =====
-- The life of the entities of a scene of modules/boids2d/Scene.cpp.
use wall_mon.Base.{
  ℕ, suc, ◌+◌, ◌≤◌, ◌≡◌, refl, sym, ap, ◌∙◌, arith, List, [], ◌∷◌, ◌++◌, ◌==◌, if◌then◌else◌, map,
  ◌≢◌, subst,
}
use wall_mon.Base.Counts.{count, count-append}
use wall_mon.Base.Double.{Double}
use wall_mon.Boids.Scene.{
  make, Scene, Call, on_init, on_loop, on_render, erase, start_all, add_entity, remove_entity, run,
}

-- What is done with a scene.
pub data Step : Type 0 where
  added : ℕ → Step
  removed : ℕ → Step
  ran : Step

module _ (d : Double) where
  unfoldable pub live : List Step → Scene d → List Call × Scene d
  live [] s = ([], s)
  live (added e ∷ steps) s = live steps (add_entity d e s)
  live (removed e ∷ steps) s = live steps (remove_entity d e s)
  live (ran ∷ steps) s =
      let (calls, s') = run d s in let (more, t) = live steps s' in (calls ++ more, t)

-- How often an entity is added.
unfoldable pub adds : ℕ → List Step → ℕ
adds e [] = 0
adds e (added f ∷ steps) = if f == e then suc (adds e steps) else adds e steps
adds e (removed f ∷ steps) = adds e steps
adds e (ran ∷ steps) = adds e steps

-- How often its `OnInit` is called.
unfoldable pub inits : ℕ → List Call → ℕ
inits e [] = 0
inits e (on_init f ∷ calls) = if f == e then suc (inits e calls) else inits e calls
inits e (on_loop f ∷ calls) = inits e calls
inits e (on_render f ∷ calls) = inits e calls

-- Every `OnLoop` and `OnRender` is of an entity of `seen`, or one whose `OnInit` was called before.
abbrev pub Follows : List ℕ → List Call → Type 0
Follows seen [] = Unit
Follows seen (on_init f ∷ calls) = Follows (f ∷ seen) calls
Follows seen (on_loop f ∷ calls) = (1 ≤ count f seen) × Follows seen calls
Follows seen (on_render f ∷ calls) = (1 ≤ count f seen) × Follows seen calls

-- The entities whose `OnInit` is called, in front of `seen`.
abbrev pub seen_after : List Call → List ℕ → List ℕ
seen_after [] seen = seen
seen_after (on_init f ∷ calls) seen = seen_after calls (f ∷ seen)
seen_after (on_loop f ∷ calls) seen = seen_after calls seen
seen_after (on_render f ∷ calls) seen = seen_after calls seen

Follows-append :
    (seen : List ℕ) (xs ys : List Call)
    → Follows seen xs
    → Follows (seen_after xs seen) ys
    → Follows seen (xs ++ ys)
Follows-append seen [] ys f g = g
Follows-append seen (on_init e ∷ xs) ys f g = Follows-append (e ∷ seen) xs ys f g
Follows-append seen (on_loop e ∷ xs) ys f g = (f.0, Follows-append seen xs ys f.1 g)
Follows-append seen (on_render e ∷ xs) ys f g = (f.0, Follows-append seen xs ys f.1 g)

seen_after-append :
    (xs ys : List Call) (seen : List ℕ)
    → seen_after (xs ++ ys) seen ≡ seen_after ys (seen_after xs seen)
seen_after-append [] ys seen = refl
seen_after-append (on_init e ∷ xs) ys seen = seen_after-append xs ys (e ∷ seen)
seen_after-append (on_loop e ∷ xs) ys seen = seen_after-append xs ys seen
seen_after-append (on_render e ∷ xs) ys seen = seen_after-append xs ys seen

inits-append : (e : ℕ) (xs ys : List Call) → inits e (xs ++ ys) ≡ inits e xs + inits e ys
unfolding inits
inits-append e [] ys = omega arith
inits-append e (on_init f ∷ xs) ys = ground (arith, inits-append e xs ys)
inits-append e (on_loop f ∷ xs) ys = inits-append e xs ys
inits-append e (on_render f ∷ xs) ys = inits-append e xs ys

count-seen_after :
    (e : ℕ) (xs : List Call) (seen : List ℕ)
    → count e (seen_after xs seen) ≡ inits e xs + count e seen
unfolding inits count
count-seen_after e [] seen = omega arith
count-seen_after e (on_init f ∷ xs) seen = ground (arith, count-seen_after e xs (f ∷ seen))
count-seen_after e (on_loop f ∷ xs) seen = count-seen_after e xs seen
count-seen_after e (on_render f ∷ xs) seen = count-seen_after e xs seen

-- Who is in the second list is in the first.
abbrev Within : List ℕ → List ℕ → Type 0
Within seen list = (e : ℕ) → 1 ≤ count e list → 1 ≤ count e seen

-- Loops and renderings of entities that have begun.
map-Follows :
    (call : ℕ → Call)
    → ((f : ℕ) (seen : List ℕ) (calls : List Call)
        → (1 ≤ count f seen)
        → Follows seen calls
        → Follows seen (call f ∷ calls))
    → (seen list : List ℕ) → Within seen list
    → Follows seen (map call list)
unfolding count
map-Follows call one seen [] w = tt
map-Follows call one seen (f ∷ list) w =
    one f seen (map call list) (w f (ground arith))
      (map-Follows call one seen list (λ e h. w e (ground arith)))

quiet :
    (call : ℕ → Call)
    → ((f : ℕ) (calls : List Call) (seen : List ℕ)
        → seen_after (call f ∷ calls) seen ≡ seen_after calls seen)
    → (list seen : List ℕ) → seen_after (map call list) seen ≡ seen
quiet call none [] seen = refl
quiet call none (f ∷ list) seen = none f (map call list) seen ∙ quiet call none list seen

start_all-seen :
    (e : ℕ) (es list : List ℕ)
    → (inits e (start_all es list).0 ≡ count e es)
      × (count e (start_all es list).1 ≡ count e list + count e es)
unfolding start_all count inits
start_all-seen e [] list = (refl, omega arith)
start_all-seen e (f ∷ es) list =
    let (i, c) = start_all-seen e es list in
    (
      inits-append e (start_all es list).0 (on_init f ∷ []) ∙ ground (arith, i),
      count-append e (start_all es list).1 (f ∷ []) ∙ ground (arith, c),
    )

start_all-Follows : (seen es list : List ℕ) → Follows seen (start_all es list).0
unfolding start_all
start_all-Follows seen [] list = tt
start_all-Follows seen (f ∷ es) list =
    Follows-append seen (start_all es list).0 (on_init f ∷ []) (start_all-Follows seen es list) tt

count-erase : (x e : ℕ) (es : List ℕ) → count x (erase e es) ≤ count x es
unfolding erase count
count-erase x e [] = omega arith
count-erase x e (f ∷ []) = ground arith
count-erase x e (f ∷ g ∷ es) = ground (arith, count-erase x e es, count-erase x e (g ∷ es))

pub erase_own : (e : ℕ) (es : List ℕ) → count e es ≤ 1 → count e (erase e es) ≡ 0
unfolding erase count
erase_own e [] h = refl
erase_own e (f ∷ []) h = ground arith
erase_own e (f ∷ g ∷ es) h = ground (arith, erase_own e es, erase_own e (g ∷ es))

pub erase_other : (x e : ℕ) (es : List ℕ) → x ≢ e → count x (erase e es) ≡ count x es
unfolding erase count
erase_other x e [] ne = refl
erase_other x e (f ∷ []) ne = ground arith
erase_other x e (f ∷ g ∷ es) ne = ground (arith, erase_other x e es ne, erase_other x e (g ∷ es) ne)

inits-none :
    (call : ℕ → Call)
    → ((e f : ℕ) (calls : List Call) → inits e (call f ∷ calls) ≡ inits e calls)
    → (e : ℕ) (list : List ℕ) → inits e (map call list) ≡ 0
unfolding inits
inits-none call none e [] = refl
inits-none call none e (f ∷ list) = none e f (map call list) ∙ inits-none call none e list

module _ (d : Double) where
  -- One frame: who is in the scene then has begun, and the new entities are those whose `OnInit` it
  -- calls.
  run_lem :
      (seen : List ℕ) (s : Scene d)
      → Within seen s.entity_list
      → Follows seen (run d s).0
        × Within (seen_after (run d s).0 seen) (run d s).1.entity_list
        × ((e : ℕ) → inits e (run d s).0 ≡ count e s.entity_list_init)
  unfolding run inits count
  run_lem seen s w =
      let begun = (start_all s.entity_list_init s.entity_list).0 in
      let list = (start_all s.entity_list_init s.entity_list).1 in
      let now = seen_after begun seen in
      let frames = map on_loop list ++ map on_render list in
      let here : Within now list = λ e h.
        let (i, c) = start_all-seen e s.entity_list_init s.entity_list in
        ground (arith, count-seen_after e begun seen, i, c, h, w e) in
      let loops = map-Follows on_loop (λ f seen' calls a b. (a, b)) now list here in
      let same = quiet on_loop (λ f calls seen'. refl) list now in
      let renders = map-Follows on_render (λ f seen' calls a b. (a, b)) now list here in
      (
        Follows-append seen begun frames (start_all-Follows seen s.entity_list_init s.entity_list) (
            Follows-append now (map on_loop list) (map on_render list) loops
              (subst (λ l. Follows l (map on_render list)) (sym same) renders)),
        subst (λ l. Within l list)
            (sym (
              seen_after-append begun frames seen
              ∙ seen_after-append (map on_loop list) (map on_render list) now
              ∙ ap (seen_after (map on_render list)) same
              ∙ quiet on_render (λ f calls seen'. refl) list now))
            here,
        λ e.
            inits-append e begun frames
            ∙ omega (
              arith,
              start_all-seen e s.entity_list_init s.entity_list,
              inits-append e (map on_loop list) (map on_render list),
              inits-none on_loop (λ e f calls. refl) e list,
              inits-none on_render (λ e f calls. refl) e list,
            ),
      )

  none_left : (e : ℕ) (s : Scene d) → count e (run d s).1.entity_list_init ≡ 0
  unfolding run count
  none_left e s = refl

  live_lem :
      (steps : List Step) (seen : List ℕ) (s : Scene d)
      → Within seen s.entity_list
      → Follows seen (live d steps s).0
        × ((e : ℕ)
            → inits e (live d steps s).0 + count e (live d steps s).1.entity_list_init
              ≡ count e s.entity_list_init + adds e steps)
  unfolding live adds inits add_entity remove_entity count
  live_lem [] seen s w = (tt, λ e. omega arith)
  live_lem (added f ∷ steps) seen s w =
      let (fo, n) = live_lem steps seen (add_entity d f s) w in
      (fo, λ e. n e ∙ ground (arith, count-append e s.entity_list_init (f ∷ [])))
  live_lem (removed f ∷ steps) seen s w =
      live_lem steps seen (remove_entity d f s)
        (λ e h. w e (omega (arith, count-erase e f s.entity_list)))
  live_lem (ran ∷ steps) seen s w =
      let (fo, w', i) = run_lem seen s w in
      let (fo', n) = live_lem steps (seen_after (run d s).0 seen) (run d s).1 w' in
      (
        Follows-append seen (run d s).0 (live d steps (run d s).1).0 fo fo',
        λ e. omega (
          arith,
          inits-append e (run d s).0 (live d steps (run d s).1).0,
          n e,
          i e,
          none_left e s,
        ),
      )

  -- Of a scene that is made and then has entities added, removed and drawn in any order: `OnLoop`
  -- and `OnRender` are called of no entity before its `OnInit`, and each entity has as many calls of
  -- `OnInit`, those to come in the next `Run` included, as `AddEntity` has added it.
  pub live-Follows :
      (x y w h virtual_w virtual_h : d.Num) (steps : List Step)
      → Follows [] (live d steps (make d x y w h virtual_w virtual_h)).0
        × ((e : ℕ)
            → inits e (live d steps (make d x y w h virtual_w virtual_h)).0
                + count e (live d steps (make d x y w h virtual_w virtual_h)).1.entity_list_init
              ≡ adds e steps)
  unfolding make count
  live-Follows x y w h virtual_w virtual_h steps =
      let (f, n) = live_lem steps [] (make d x y w h virtual_w virtual_h) (λ e i. i) in
      (f, λ e. n e ∙ omega arith)

  -- A scene that holds an entity once holds it no more after `RemoveEntity`, and holds every other
  -- one as often as before.
  pub count-remove_entity :
      (e : ℕ) (s : Scene d)
      → count e s.entity_list ≡ 1
      → (count e (remove_entity d e s).entity_list ≡ 0)
        × ((x : ℕ) → x ≢ e → count x (remove_entity d e s).entity_list ≡ count x s.entity_list)
  unfolding remove_entity
  count-remove_entity e s once =
      (erase_own e s.entity_list (omega (arith, once)), λ x ne. erase_other x e s.entity_list ne)
