-- ===== src/Boids/Entity/Speed.antt =====
-- The speeds of scrolling and swiping that an `EntityEvent` of modules/boids2d/Entity.cpp keeps.
use wall_mon.Base.{◌≡◌, refl, sym, subst, ◌∙◌, true, false, List, [], ◌∷◌, if_lem, ◌&&◌, ◌||◌}
use wall_mon.Base.Double.{Double, int, neg, fabs, ratio}
use wall_mon.Stat.Extremes.{Ordered}
use wall_mon.Boids.Entity.{
  Box, Touch, Call, EntityEvent, set_thresholds, push, handle_tap, handle_move, handle_hit,
  slow_down, run_scroll, run_scroll_callbacks, run_swipe, run_swipe_callbacks, run_callbacks, make,
}

-- What holds of computing with finite floating point numbers: rounding keeps the order.
pub record Rounded (d : Double) : Type 0 where
  pub order : Ordered d
  pub sub_le : (a f : d.Num) → d.lt f (int d 0) ≡ false → d.lt a (d.sub a f) ≡ false
  pub le_add : (a f : d.Num) → d.lt f (int d 0) ≡ false → d.lt (d.add a f) a ≡ false
  pub neg_le : (a b : d.Num) → d.lt b a ≡ false → d.lt (neg d a) (neg d b) ≡ false
  pub neg_zero : d.lt (int d 0) (neg d (int d 0)) ≡ false
  pub nonneg_1_1000 :
      (a : d.Num) → d.lt a (int d 0) ≡ false → d.lt (d.mul a (ratio d 1 1000)) (int d 0) ≡ false
  pub nonneg_5_100 :
      (a : d.Num) → d.lt a (int d 0) ≡ false → d.lt (d.mul a (ratio d 5 100)) (int d 0) ≡ false
  pub le_1_1000_3_100 :
      (a : d.Num)
      → d.lt a (int d 0) ≡ false
      → d.lt (d.mul a (ratio d 3 100)) (d.mul a (ratio d 1 1000)) ≡ false

-- What befalls an entity: a touch, or a frame of the main loop.
pub data Happening (d : Double) : Type 0 where
  touch : Touch d → Happening d
  frame : Happening d

module _ (d : Double) where
  unfoldable pub after : Box d → List (Happening d) → EntityEvent d → EntityEvent d
  after b [] e = e
  after b (touch t ∷ hs) e = after b hs (handle_hit d b t e).1
  after b (frame ∷ hs) e = after b hs (run_callbacks d e).1

module _ (d : Double) (law : Rounded d) where
  abbrev Le : d.Num → d.Num → Type 0
  Le a b = d.lt b a ≡ false

  Le_trans : (a b c : d.Num) → Le a b → Le b c → Le a c
  Le_trans a b c h k = law.order.not_less_trans a b c h k

  Le_refl : (a : d.Num) → Le a a
  Le_refl a = law.order.irreflexive a

  -- `v` is no more than `m` in either direction.
  abbrev Within : d.Num → d.Num → Type 0
  Within m v = Le v m × Le (neg d m) v

  -- The limits are in order.
  abbrev Limits : d.Num → d.Num → Type 0
  Limits min_speed max_speed = Le (int d 0) min_speed × Le min_speed max_speed

  nonneg-neg : (m : d.Num) → Le (int d 0) m → Le (neg d m) (int d 0)
  nonneg-neg m h =
      Le_trans (neg d m) (neg d (int d 0)) (int d 0) (law.neg_le (int d 0) m h) law.neg_zero

  zero-Within : (m : d.Num) → Le (int d 0) m → Within m (int d 0)
  zero-Within m h = (h, nonneg-neg m h)

  push-Within : (mn mx v delta : d.Num) → Limits mn mx → Within mx (push d mn mx v delta)
  unfolding push
  push-Within mn mx v delta (h, k) =
      let u = d.add v delta in
      let top = Le_trans (int d 0) mn mx h k in
      if_lem (Within mx) (d.lt mn u)
        (λ fast.
          if_lem (Within mx) (d.lt mx u)
            (λ over. (Le_refl mx, Le_trans (neg d mx) (int d 0) mx (nonneg-neg mx top) top))
            (λ ok. (
              ok,
              Le_trans (neg d mx) mn u (Le_trans (neg d mx) (int d 0) mn (nonneg-neg mx top) h)
                  (law.order.asymmetric mn u fast),
            )))
        (λ slow.
          if_lem (Within mx) (d.lt u (neg d mn))
            (λ fast.
              if_lem (Within mx) (d.lt u (neg d mx))
                (λ over.
                  (Le_trans (neg d mx) (int d 0) mx (nonneg-neg mx top) top, Le_refl (neg d mx)))
                (λ ok. (Le_trans u mn mx slow k, ok)))
            (λ ok.
              (Le_trans u mn mx slow k, Le_trans (neg d mx) (neg d mn) u (law.neg_le mn mx k) ok)))

  slow_down-Within :
      (mn mx v : d.Num) → Limits mn mx → Within mx v → Within mx (slow_down d mn mx v)
  unfolding slow_down
  slow_down-Within mn mx v (h, k) (below, above) =
      let top = Le_trans (int d 0) mn mx h k in
      let f = d.mul mx (ratio d 5 100) in
      let f_nonneg = law.nonneg_5_100 mx top in
      let rest = zero-Within mx top in
      if_lem (Within mx) (d.lt mn v)
        (λ fast.
          if_lem (Within mx) (d.lt (d.sub v f) (int d 0)) (λ under. rest)
            (λ ok. (
              Le_trans (d.sub v f) v mx (law.sub_le v f f_nonneg) below,
              Le_trans (neg d mx) (int d 0) (d.sub v f) (nonneg-neg mx top) ok,
            )))
        (λ slow.
          if_lem (Within mx) (d.lt v (neg d mn))
            (λ fast.
              if_lem (Within mx) (d.lt (int d 0) (d.add v f)) (λ over. rest)
                (λ ok. (
                  Le_trans (d.add v f) (int d 0) mx ok top,
                  Le_trans (neg d mx) v (d.add v f) above (law.le_add v f f_nonneg),
                )))
            (λ ok. rest))

  -- The limits are those of an entity of the box's size, and the speeds are within them.
  pub record Moving (b : Box d) (e : EntityEvent d) : Type 0 where
    pub started : e.is_first_time ≡ false
    pub min_is : e.min_speed ≡ d.mul b.height (ratio d 1 1000)
    pub max_is : e.max_speed ≡ d.mul b.height (ratio d 3 100)
    pub scroll : Within e.max_speed e.scroll_speed
    pub swipe : Within e.max_speed e.swipe_speed

  module _ (b : Box d) (tall : d.lt b.height (int d 0) ≡ false) where
    limits : (e : EntityEvent d) → Moving b e → Limits e.min_speed e.max_speed
    limits e m =
        subst (λ v. Limits v e.max_speed) (sym m.min_is)
          (subst (Limits (d.mul b.height (ratio d 1 1000))) (sym m.max_is)
            (law.nonneg_1_1000 b.height tall, law.le_1_1000_3_100 b.height tall))

    record Then (r : List (Call d) × EntityEvent d) : Type 0 where
      kept : Moving b r.1

    -- The same limits with speeds that are within them.
    speeds :
        (e : EntityEvent d) {e' : EntityEvent d}
        → Moving b e
        → Within e.max_speed e'.scroll_speed
        → Within e.max_speed e'.swipe_speed
        → e'.is_first_time ≡ e.is_first_time
        → e'.min_speed ≡ e.min_speed
        → e'.max_speed ≡ e.max_speed
        → Moving b e'
    speeds e {e'} m v w f mn mx = record {
      started = f ∙ m.started;
      min_is = mn ∙ m.min_is;
      max_is = mx ∙ m.max_is;
      scroll = subst (λ x. Within x e'.scroll_speed) (sym mx) v;
      swipe = subst (λ x. Within x e'.swipe_speed) (sym mx) w;
    }

    -- The first touch makes the limits; later ones keep them.
    first-Moving :
        (e : EntityEvent d)
        → e.is_first_time ≡ true
        → e.scroll_speed ≡ int d 0
        → e.swipe_speed ≡ int d 0
        → Moving b (set_thresholds d b e)
    unfolding set_thresholds
    first-Moving e first v w =
        let top =
          Le_trans (int d 0) (d.mul b.height (ratio d 1 1000)) (d.mul b.height (ratio d 3 100))
            (law.nonneg_1_1000 b.height tall) (law.le_1_1000_3_100 b.height tall) in
        let rest = zero-Within (d.mul b.height (ratio d 3 100)) top in
        if_lem (Moving b) e.is_first_time
          (λ _. record {
            started = refl;
            min_is = refl;
            max_is = refl;
            scroll = subst (Within (d.mul b.height (ratio d 3 100))) (sym v) rest;
            swipe = subst (Within (d.mul b.height (ratio d 3 100))) (sym w) rest;
          })
          (λ old. absurd (cc))

    set_thresholds-Moving : (e : EntityEvent d) → Moving b e → Moving b (set_thresholds d b e)
    unfolding set_thresholds
    set_thresholds-Moving e m = if_lem (Moving b) e.is_first_time (λ new. absurd (cc)) (λ _. m)

    handle_tap-Moving : (t : Touch d) (e : EntityEvent d) → Moving b e → Then (handle_tap d t e)
    unfolding handle_tap
    handle_tap-Moving t e m =
        let k : Moving b (record e { current_tap_event_timestamp = t.last_updated }) =
          speeds e m m.scroll m.swipe refl refl refl in
        if_lem Then
          (d.lt e.tap_event_interval (d.sub t.last_updated e.previous_tap_event_timestamp))
          (λ _. record { kept = speeds e m m.scroll m.swipe refl refl refl })
          (λ _. record { kept = k })

    handle_move-Moving :
        (t : Touch d) (e : EntityEvent d) → Moving b e → Moving b (handle_move d t e)
    unfolding handle_move
    handle_move-Moving t e m =
        let l = limits e m in
        if_lem (Moving b)
          (d.lt (fabs d t.delta_y) e.scroll_threshold && d.lt (fabs d t.delta_x) e.swipe_threshold)
          (λ _. m)
          (λ _.
            if_lem (Moving b) (d.lt (fabs d t.delta_x) (fabs d t.delta_y))
              (λ _.
                speeds e m (push-Within e.min_speed e.max_speed e.scroll_speed t.delta_y l) m.swipe
                  refl refl refl)
              (λ _.
                speeds e m m.scroll (push-Within e.min_speed e.max_speed e.swipe_speed t.delta_x l)
                  refl refl refl))

    -- What follows on the limits.
    handle_hit-Moving :
        (t : Touch d) (e : EntityEvent d)
        → (t.is_sound ≡ true → Moving b e)
        → Moving b (set_thresholds d b e)
        → Then (handle_hit d b t e)
    unfolding handle_hit
    handle_hit-Moving t e sound m =
        let e' = set_thresholds d b e in
        if_lem Then t.is_sound (λ h. record { kept = sound h })
          (λ _.
            if_lem Then ((t.remove && d.lt t.moved_distance (int d 5)) || d.lt (int d 20) t.radius)
              (λ _. handle_tap-Moving t e' m)
              (λ _.
                if_lem Then t.remove (λ _. record { kept = m })
                  (λ _. record { kept = handle_move-Moving t e' m })))

    run_scroll-Moving : (e : EntityEvent d) → Moving b e → Then (run_scroll d e)
    unfolding run_scroll run_scroll_callbacks
    run_scroll-Moving e m =
        if_lem Then
          (d.lt e.scroll_event_interval
            (d.sub e.current_scroll_event_timestamp e.previous_scroll_event_timestamp))
          (λ _. record {
            kept =
                speeds e m
                  (slow_down-Within e.min_speed e.max_speed e.scroll_speed (limits e m) m.scroll)
                  m.swipe refl refl refl;
          })
          (λ _. record { kept = m })

    run_swipe-Moving : (e : EntityEvent d) → Moving b e → Then (run_swipe d e)
    unfolding run_swipe run_swipe_callbacks
    run_swipe-Moving e m =
        if_lem Then
          (d.lt e.swipe_event_interval
            (d.sub e.current_swipe_event_timestamp e.previous_swipe_event_timestamp))
          (λ _. record {
            kept =
                speeds e m m.scroll
                  (slow_down-Within e.min_speed e.max_speed e.swipe_speed (limits e m) m.swipe) refl
                  refl refl;
          })
          (λ _. record { kept = m })

    run_callbacks-Moving : (e : EntityEvent d) → Moving b e → Moving b (run_callbacks d e).1
    unfolding run_callbacks
    run_callbacks-Moving e m =
        (run_swipe-Moving (run_scroll d e).1 (run_scroll-Moving e m).kept).kept

    after-kept :
        (hs : List (Happening d)) (e : EntityEvent d) → Moving b e → Moving b (after d b hs e)
    unfolding after
    after-kept [] e m = m
    after-kept (touch t ∷ hs) e m =
        after-kept hs (handle_hit d b t e).1
          (handle_hit-Moving t e (λ _. m) (set_thresholds-Moving e m)).kept
    after-kept (frame ∷ hs) e m = after-kept hs (run_callbacks d e).1 (run_callbacks-Moving e m)

    -- In finite floating point numbers, whose rounding keeps the order, and for an entity that is
    -- no less than 0 high, is made by the constructor and is touched, not by a sound, before any
    -- frame or other touch: after that touch, and after any touches and frames that follow it, the
    -- greatest speed is the entity's height * 0.03, and neither the scroll nor the swipe speed is
    -- greater than that in either direction.
    pub after-Moving :
        (junk : EntityEvent d) (t : Touch d) (hs : List (Happening d))
        → t.is_sound ≡ false
        → Moving b (after d b (touch t ∷ hs) (make d junk))
    unfolding after make
    after-Moving junk t hs quiet =
        after-kept hs (handle_hit d b t (make d junk)).1
          (handle_hit-Moving t (make d junk) (λ loud. absurd (cc))
            (first-Moving (make d junk) refl refl refl)).kept
