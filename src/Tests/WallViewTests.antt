-- ===== src/Tests/WallViewTests.antt =====
-- lib/WallView.cpp.
use wall_mon.Base.{◌≡◌, arith, get_or}
use wall_mon.WallView.{WallView, init, index_to_coordinates}
use wall_mon.WallView.Grid.{init-tiles}

-- The grid of 2 times 3 tiles from column 4 and row 1 on.
abbrev view : WallView
view = init 4 1 2 3

init-tiles_example : (get_or view.grid 3 "" ≡ "tile-5-2") × (index_to_coordinates 3 view ≡ (1, 1))
init-tiles_example = init-tiles 4 1 2 3 1 1 (omega arith) (omega arith) (omega arith) (omega arith)
