-- ===== src/Boids/Boid/Tail.antt =====
-- How long the tail of a boid of modules/boids2d/Boid.cpp gets.
use wall_mon.Base.{
  ℕ, suc, ◌-◌, ◌≤◌, ◌≡◌, refl, arith, true, false, List, [], ◌∷◌, length, ◌==◌, if◌then◌else◌,
  if_lem, ◌||◌, not, ==_iff, subst, sym, Bool-cases, inl, inr,
}
use wall_mon.Base.Double.{Double, int}
use wall_mon.Boids.TableItem.{BoidSharedContext}
use wall_mon.Boids.Boid.{
  Settings, Boid, Drawn, pop_back, move, aim, highlight, grow_tail, on_loop, align, make,
  is_destination_reached,
}

length-pop_back : {A : Type 0} (xs : List A) → length (pop_back xs) ≡ length xs - 1
unfolding pop_back
length-pop_back [] = omega arith
length-pop_back (x ∷ []) = omega arith
length-pop_back (x ∷ y ∷ xs) = omega (arith, length-pop_back (y ∷ xs))

module _ (d : Double) where
  -- A state of the boid with the same tail.
  record Same (b c : Boid d) : Type 0 where
    same : c.tail ≡ b.tail

  aim-Same : (max_fps x y : d.Num) (b : Boid d) → Same b (aim d max_fps x y b)
  unfolding aim
  aim-Same max_fps x y b =
      if_lem (Same b) (not (d.eq x b.old_destx) || not (d.eq y b.old_desty))
        (λ _. record { same = refl }) (λ _. record { same = refl })

  move-Same : (max_fps x y : d.Num) (b : Boid d) → Same b (move d max_fps x y b)
  unfolding move
  move-Same max_fps x y b =
      if_lem (Same b) (is_destination_reached d x y b) (λ _. record { same = refl })
        (λ _. record { same = (aim-Same max_fps x y b).same })

  -- The tail is no longer than the limit.
  record Short (limit : ℕ) (b : Boid d) : Type 0 where
    short : length b.tail ≤ limit

  shorter :
      (limit : ℕ) (tail : List (d.Num × d.Num))
      → length tail ≤ limit
      → (limit == 0) ≡ false
      → suc (length (if length tail == limit then pop_back tail else tail)) ≤ limit
  shorter limit tail h nonzero = elim (Bool-cases (length tail == limit)) [
    | inl full ↦
        rw full (ground (arith, length-pop_back tail, (==_iff (length tail) limit).0 full, nonzero))
    | inr room ↦ rw room (ground (arith, h, room))
  ]

  grow_tail-Short :
      (limit : ℕ) (b : Boid d) → length b.tail ≤ limit → Short limit (grow_tail d limit b)
  unfolding grow_tail
  grow_tail-Short limit b h =
      if_lem (Short limit) (limit == 0) (λ _. record { short = omega arith })
        (λ nonzero. record { short = shorter limit b.tail h nonzero })

  record Then (limit : ℕ) (r : List (Drawn d) × Boid d) : Type 0 where
    kept : length r.1.tail ≤ limit

  module _ (trunc : d.Num → ℕ) (max_fps : d.Num) where
    on_loop-Short :
        (limit : ℕ) (s : Settings d) (ctx : BoidSharedContext d) (b : Boid d)
        → trunc s.tail_length ≡ limit
        → length b.tail ≤ limit
        → Then limit (on_loop d trunc max_fps s ctx b)
    unfolding on_loop highlight
    on_loop-Short limit s ctx b t h =
        let seen : Boid d = record b { visible = true } in
        let moved =
          move d max_fps (align d b.box.width ctx.destx) (align d b.box.height ctx.desty) seen in
        let m =
          move-Same max_fps (align d b.box.width ctx.destx) (align d b.box.height ctx.desty) seen in
        let long : length moved.tail ≤ limit = subst (λ n. length n ≤ limit) (sym m.same) h in
        if_lem (Then limit) (d.lt ctx.destx (int d 0) || d.lt ctx.desty (int d 0))
          (λ _. record { kept = h })
          (λ _. record {
            kept =
                subst
                  (λ n. length (grow_tail d n (highlight d ctx.is_highlighted moved)).tail ≤ limit)
                  (sym t) (grow_tail-Short limit (highlight d ctx.is_highlighted moved) long).short;
          })

    -- Frames one after the other.
    unfoldable pub frames : List (Settings d × BoidSharedContext d) → Boid d → Boid d
    frames [] b = b
    frames ((s, ctx) ∷ fs) b = frames fs (on_loop d trunc max_fps s ctx b).1

    abbrev pub AllLimit : ℕ → List (Settings d × BoidSharedContext d) → Type 0
    AllLimit limit [] = Unit
    AllLimit limit ((s, ctx) ∷ fs) = (trunc s.tail_length ≡ limit) × AllLimit limit fs

    -- A boid that is made, in frames that all have the same limit for the tail, wherever it goes: its
    -- tail is never longer than the limit.
    pub frames-Short :
        (limit : ℕ) (junk : Boid d) (fs : List (Settings d × BoidSharedContext d))
        → AllLimit limit fs
        → length (frames fs (make d junk)).tail ≤ limit
    unfolding frames make
    frames-Short limit junk fs a = go limit fs (make d junk) a (omega arith)
      where
        go :
            (limit : ℕ) (fs : List (Settings d × BoidSharedContext d)) (b : Boid d)
            → AllLimit limit fs
            → length b.tail ≤ limit
            → length (frames fs b).tail ≤ limit
        go limit [] b a h = h
        go limit ((s, ctx) ∷ fs) b a h =
            go limit fs (on_loop d trunc max_fps s ctx b).1 a.1
              (on_loop-Short limit s ctx b a.0 h).kept
