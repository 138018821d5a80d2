-- ===== src/Boids/Button/Animation.antt =====
-- Where the animation of modules/boids2d/Button.cpp stands.
use wall_mon.Base.{
  ◌≡◌, refl, Bool, true, false, List, [], ◌∷◌, ◌⊎◌, inl, inr, if_lem, Bool-cases, ◌&&◌, not, subst,
  ◌∙◌,
}
use wall_mon.Base.Double.{Double, int}
use wall_mon.Boids.Button.{
  Button, init, button_click, animate, lower_limit, upper_limit, on_loop, handle_hit,
}

-- A call of `OnLoop` or `HandleHit`, with its time.
pub data Call (d : Double) : Type 0 where
  loop : d.Num → Call d
  hit : d.Num → Call d

module _ (d : Double) {C : Type 0} (callback : C → C) where
  abbrev pub calls : List (Call d) → Button d C → Button d C
  calls [] b = b
  calls (loop now ∷ rest) b = calls rest (on_loop d callback now b)
  calls (hit now ∷ rest) b = calls rest (handle_hit d callback now b)

  -- The offset is 0 or the width `w`, except in an animation, where it is one that neither test of
  -- the limits holds of.
  pub record Placed (w : d.Num) (b : Button d C) : Type 0 where
    pub width_kept : b.width ≡ w
    pub offset_at :
        (b.offset ≡ int d 0)
        ⊎ ((b.offset ≡ w)
            ⊎ ((b.animation_on ≡ true)
                × (d.le b.offset (int d 0) ≡ false)
                × (d.le w b.offset ≡ false)))

  button_click-Placed :
      (w : d.Num) (b : Button d C) → b.width ≡ w → Placed w (button_click d callback b)
  unfolding button_click
  button_click-Placed w b e =
      if_lem (Placed w) b.is_activated (λ on. record { width_kept = e; offset_at = inl refl })
        (λ off. record { width_kept = e; offset_at = inr (inl e) })

  kept : (now : d.Num) (b : Button d C) → (animate d callback now b).width ≡ b.width
  unfolding animate
  kept now b = refl

  moving : (now : d.Num) (b : Button d C) → (animate d callback now b).animation_on ≡ b.animation_on
  unfolding animate
  moving now b = refl

  both : (a b : Bool) → b ≡ false → (a && b) ≡ true → ⊥
  both true true off e = absurd (cc)
  both true false off e = absurd (cc)
  both false b off e = absurd (cc)

  -- As `Placed`, before the upper limit is looked at.
  record Above (w : d.Num) (b : Button d C) : Type 0 where
    width_same : b.width ≡ w
    above : (Placed w b) ⊎ ((b.animation_on ≡ true) × (d.le b.offset (int d 0) ≡ false))

  lower_limit-Above :
      (w : d.Num) (b : Button d C)
      → b.width ≡ w
      → b.animation_on ≡ true
      → Above w (lower_limit d callback b)
  unfolding lower_limit
  lower_limit-Above w b e on =
      if_lem (Above w) (d.le b.offset (int d 0))
        (λ reached.
          let placed =
            button_click-Placed w (record b { offset = int d 0; animation_on = false }) e in
          record { width_same = placed.width_kept; above = inl placed })
        (λ not_yet. record { width_same = e; above = inr (on, not_yet) })

  upper_limit-Placed :
      (w : d.Num) (b : Button d C) → Above w b → Placed w (upper_limit d callback b)
  unfolding upper_limit
  upper_limit-Placed w b a =
      if_lem (Placed w) (d.le b.width b.offset)
        (λ reached.
          button_click-Placed w (record b { offset = b.width; animation_on = false }) a.width_same)
        (λ not_yet. elim a.above [
          | inl placed ↦ placed
          | inr (on, above) ↦ record {
            width_kept = a.width_same;
            offset_at =
                inr (inr (on, above, subst (λ x. d.le x b.offset ≡ false) a.width_same not_yet));
          }
        ])

  on_loop-Placed :
      (w now : d.Num) (b : Button d C) → Placed w b → Placed w (on_loop d callback now b)
  unfolding on_loop
  on_loop-Placed w now b p = elim (Bool-cases b.animation_on) [
    | inl on ↦
        if_lem (Placed w) (b.slow_activation && b.animation_on)
          (λ moves. upper_limit-Placed w _ (
            lower_limit-Above w (animate d callback now b) (kept now b ∙ p.width_kept)
              (moving now b ∙ on)))
          (λ rests. p)
    | inr off ↦
        if_lem (Placed w) (b.slow_activation && b.animation_on)
          (λ moves. absurd (both _ _ off moves)) (λ rests. p)
  ]

  handle_hit-Placed :
      (w now : d.Num) (b : Button d C) → Placed w b → Placed w (handle_hit d callback now b)
  unfolding handle_hit
  handle_hit-Placed w now b p =
      if_lem (Placed w) b.slow_activation
        (λ slow.
          if_lem (Placed w) (not b.animation_on && d.lt (d.sub now b.timestamp_sec) (int d 1))
            (λ waits. p)
            (λ starts. record {
              width_kept = p.width_kept;
              offset_at = elim p.offset_at [
                | inl z ↦ inl z
                | inr (inl e) ↦ inr (inl e)
                | inr (inr (on, above, below)) ↦ inr (inr (refl, above, below))
              ];
            }))
        (λ quick. button_click-Placed w b p.width_kept)

  calls-from :
      (w : d.Num) (cs : List (Call d)) (b : Button d C) → Placed w b → Placed w (calls cs b)
  calls-from w [] b p = p
  calls-from w (loop now ∷ rest) b p = calls-from w rest _ (on_loop-Placed w now b p)
  calls-from w (hit now ∷ rest) b p = calls-from w rest _ (handle_hit-Placed w now b p)

  -- Whatever the touches and the frames of a new button are, at whatever times, and however the
  -- arithmetic rounds, infinities and NaNs included: its width stays, and its offset is 0 or its
  -- width, except while the animation is on, when neither `offset <= 0` nor `width <= offset` holds.
  pub calls-Placed :
      (w iterations now : d.Num) (slow : Bool) (c : C) (cs : List (Call d))
      → Placed w (calls cs (init d callback w slow iterations now c))
  unfolding init
  calls-Placed w iterations now slow c cs =
      calls-from w cs _ (record { width_kept = refl; offset_at = inl refl })
