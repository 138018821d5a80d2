-- ===== src/Tests/ChartTests.antt =====
-- modules/barchart, and the boids.
use wall_mon.Base.{
  ℕ, ◌≤◌, ◌≡◌, refl, true, false, List, [], ◌∷◌, pos, negsuc, length, ◌⊎◌, pos_part, arith,
}
use wall_mon.Barchart.{BarData, find_greatest, keep_greatest, replace_min, push_heap, load}
use wall_mon.Barchart.Top.{In, AllAbove, find_greatest_lem}
use wall_mon.Boids.Entity.{quad}
use wall_mon.Boids.TableItem.{BoidSharedContext}
use wall_mon.Boids.Boid.{
  Settings, Boid, make, on_loop, grow_tail, move, aim, highlight, align, is_destination_reached,
  pop_back,
}
use wall_mon.Boids.Boid.Tail.{frames, frames-Short}
use wall_mon.Stat.Extremes.{Ordered}
use wall_mon.Tests.Numbers.{whole}

abbrev bar : ℕ → BarData whole
bar n = record { label = n ∷ []; user = pos n; system = pos 1 }

abbrev bars : List (BarData whole)
bars = bar 4 ∷ bar 9 ∷ bar 2 ∷ bar 7 ∷ bar 5 ∷ bar 1 ∷ bar 8 ∷ bar 3 ∷ bar 6 ∷ []

whole_order : Ordered whole
whole_order = record {
  irreflexive = λ a. ground arith;
  asymmetric = λ a b h. ground arith;
  not_less_trans = λ a b c h k. ground arith;
}

find_greatest_lem_example :
    (length (find_greatest whole bars []) ≡ 7)
    × ((z : BarData whole) → In whole z (find_greatest whole bars []) → In whole z bars)
    × ((z : BarData whole)
        → In whole z bars
        → In whole z (find_greatest whole bars []) ⊎ AllAbove whole z (find_greatest whole bars []))
find_greatest_lem_example = find_greatest_lem whole whole_order bars

-- Without the loads 1 and 2, the least one in front.
greatest : find_greatest whole bars [] ≡ bar 3 ∷ bar 4 ∷ bar 5 ∷ bar 6 ∷ bar 7 ∷ bar 8 ∷ bar 9 ∷ []
unfolding find_greatest keep_greatest replace_min push_heap load
greatest = refl

abbrev settings : Settings whole
settings = record {
  use_logarithmic_axis = false;
  tail_length = pos 2;
  show_cpu_boid = true;
  show_memory_boid = true;
  show_io_in_boid = true;
  show_io_out_boid = true;
  show_legend = false;
}

abbrev ctx : BoidSharedContext whole
ctx = record {
  red = 0;
  green = 0;
  blue = 0;
  boid_shape = quad;
  is_highlighted = false;
  highlight_number = negsuc 0;
  destx = pos 70;
  desty = pos 70;
  tail_length = pos 0;
}

abbrev boid : Boid whole
boid = record {
  box = record { tx = pos 0; ty = pos 0; width = pos 2; height = pos 2 };
  speedx = pos 0;
  speedy = pos 0;
  old_destx = pos 0;
  old_desty = pos 0;
  tail = [];
  is_highlighted = false;
  visible = false;
}

abbrev three_frames : List (Settings whole × BoidSharedContext whole)
three_frames = (settings, ctx) ∷ (settings, ctx) ∷ (settings, ctx) ∷ []

frames-Short_example :
    length (frames whole pos_part (pos 35) three_frames (make whole boid)).tail ≤ 2
frames-Short_example =
    frames-Short whole pos_part (pos 35) 2 boid three_frames (refl, (refl, (refl, tt)))

-- With a limit that has become smaller, the tail goes on to grow.
grown :
    length
      (frames whole pos_part
        (pos 35)
        ((settings, ctx) ∷ [])
        (record boid { tail = (pos 1, pos 1) ∷ (pos 2, pos 2) ∷ (pos 3, pos 3) ∷ [] })).tail
    ≡ 4
unfolding frames on_loop grow_tail move aim highlight align is_destination_reached pop_back
grown = refl
