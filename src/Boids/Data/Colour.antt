-- ===== src/Boids/Data/Colour.antt =====
-- The colours of modules/boids2d/DataContainers.cpp.
use wall_mon.Base.{ℕ, ◌≤◌, arith, List}
use wall_mon.Boids.Data.{name_to_rgb_color}

abbrev pub Visible : ℕ → Type 0
Visible c = (20 ≤ c) × (c ≤ 255)

-- Whatever the name: each of its three colours is a byte that is no less than 20.
pub name_to_rgb_color-Visible :
    (name : List ℕ)
    → Visible (name_to_rgb_color name).0
      × Visible (name_to_rgb_color name).1
      × Visible (name_to_rgb_color name).2
unfolding name_to_rgb_color
name_to_rgb_color-Visible name =
    ((ground arith, ground arith), (ground arith, ground arith), (ground arith, ground arith))
