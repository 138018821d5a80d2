-- ===== src/WallView.antt =====
-- lib/WallView.h and lib/WallView.cpp: a grid of tiles on the display wall. The positions and sizes
-- of a grid are numbers, none of them negative.
pub mod Grid
use wall_mon.Base.{
  ℕ, zero, suc, ◌+◌, ◌*◌, ◌/◌, ◌%◌, String, Bool, true, false, not, ◌&&◌, List, [], ◌∷◌, ◌++◌, ltb,
  get_or, if◌then◌else◌, pos,
}
use wall_mon.Base.Double.{Double}

abbrev pub wall_width : ℕ
wall_width = 7

abbrev pub wall_height : ℕ
wall_height = 4

abbrev pub tile_screen_width : ℕ
tile_screen_width = 1024

abbrev pub tile_screen_height : ℕ
tile_screen_height = 768

-- `HOSTNAMES`, row by row from the bottom.
abbrev pub hostnames : List String
hostnames =
    "tile-0-0" ∷ "tile-1-0" ∷ "tile-2-0" ∷ "tile-3-0" ∷ "tile-4-0" ∷ "tile-5-0" ∷ "tile-6-0"
    ∷ "tile-0-1" ∷ "tile-1-1" ∷ "tile-2-1" ∷ "tile-3-1" ∷ "tile-4-1" ∷ "tile-5-1" ∷ "tile-6-1"
    ∷ "tile-0-2" ∷ "tile-1-2" ∷ "tile-2-2" ∷ "tile-3-2" ∷ "tile-4-2" ∷ "tile-5-2" ∷ "tile-6-2"
    ∷ "tile-0-3" ∷ "tile-1-3" ∷ "tile-2-3" ∷ "tile-3-3" ∷ "tile-4-3" ∷ "tile-5-3" ∷ "tile-6-3" ∷ []

abbrev pub tile : ℕ → ℕ → String
tile j i = get_or hostnames (j + i * wall_width) ""

pub record WallView : Type 0 where
  pub x : ℕ
  pub y : ℕ
  pub w : ℕ
  pub h : ℕ
  pub grid : List String

-- The inner loop, with `left` columns to go from `j` on, and the outer one, with `left` rows.
unfoldable pub row : ℕ → ℕ → ℕ → List String
row zero j i = []
row (suc left) j i =
    let rest : List String = row left (suc j) i in if ltb j wall_width then tile j i ∷ rest else []

unfoldable pub rows : ℕ → ℕ → ℕ → ℕ → List String
unfolding row
rows x w zero i = []
rows x w (suc left) i =
    let rest : List String = rows x w left (suc i) in
    if ltb i wall_height then row w x i ++ rest else []

-- The constructor.
unfoldable pub init : ℕ → ℕ → ℕ → ℕ → WallView
unfolding rows
init x y w h = record { x = x; y = y; w = w; h = h; grid = rows x w h y }

unfoldable pub index_to_coordinates : ℕ → WallView → ℕ × ℕ
index_to_coordinates index v = (index % v.w, index / v.w)

unfoldable pub get_total_pixel_width : WallView → ℕ
get_total_pixel_width v = tile_screen_width * v.w

unfoldable pub get_total_pixel_height : WallView → ℕ
get_total_pixel_height v = tile_screen_height * v.h

module _ (d : Double) where
  abbrev int : ℕ → d.Num
  int n = d.num (pos n)

  unfoldable pub is_cords_within : d.Num → d.Num → WallView → Bool
  is_cords_within x y v =
      d.le (int (v.x * tile_screen_width)) x
      && (d.le x (int ((v.x + v.w) * tile_screen_width))
          && (d.le (int (v.y * tile_screen_height)) y
              && d.le y (int ((v.y + v.h) * tile_screen_height))))

  unfoldable pub global_to_grid_coords : d.Num → d.Num → WallView → d.Num × d.Num
  global_to_grid_coords x y v =
      (d.sub x (int (tile_screen_width * v.x)), d.sub y (int (tile_screen_height * v.y)))
