-- ===== src/Boids/Table/Touches.antt =====
-- What the touches of modules/boids2d/Table.cpp make of a position, and what the top table draws
-- where. `trunc` is the conversion to an int, and `fmod` that of the C library. A handler gives the
-- message that `_SynchronizeState` sends, if it sends one.
use wall_mon.Base.{
  ℕ, suc, Bool, false, not, ◌||◌, Option, none, some, List, [], ◌∷◌, ℤ, pos, negsuc, ◌+ℤ◌, ◌-ℤ◌,
  pos_part, length, drop, ◌==◌, if◌then◌else◌, max,
}
use wall_mon.Base.Double.{Double, int, least, most, ratio}
use wall_mon.Boids.Table.{StateMessage, Table}

abbrev pub table_top : ℕ
table_top = 85

abbrev pub table_bottom : ℕ
table_bottom = 15

-- An entry that is drawn: the group's number, the height, its first item, how many it has, and
-- whether it is marked as selected.
pub record Row (d : Double) : Type 0 where
  pub index : ℕ
  pub y : d.Num
  pub item : ℕ
  pub group_size : ℕ
  pub marked : Bool

module _ (d : Double) (trunc : d.Num → ℤ) (fmod : d.Num → d.Num → d.Num) where
  unfoldable pub current_pixel_to_item_index : Table d → ℤ
  current_pixel_to_item_index t = trunc (d.div t.current_pixel_index t.item_height)

  unfoldable pub item_number_to_pixel : ℤ → Table d → d.Num
  item_number_to_pixel number t =
      d.sub (d.add (int d table_top) (fmod t.current_pixel_index t.item_height))
        (d.mul t.item_height (d.num number))

  unfoldable pub relative_pixel_to_item_index : d.Num → Table d → ℤ
  relative_pixel_to_item_index relative_y t =
      trunc (
        d.div
          (d.add (d.sub (int d table_top) relative_y) (fmod t.current_pixel_index t.item_height))
          t.item_height)
      +ℤ current_pixel_to_item_index t

  -- `_SynchronizeState` with `GetStateMessage`.
  unfoldable pub synchronize_state : d.Num → ℤ → d.Num → d.Num → Table d → StateMessage d
  synchronize_state pixel_index selected_index swipe_left swipe_right t = record {
    is_top_table = t.is_top_level_table;
    pixel_index = pixel_index;
    selected_index = elim selected_index [ pos i ↦ some (pos i) | negsuc i ↦ none ];
    swipe_left = d.lt (int d 0) swipe_left;
    swipe_right = d.lt (int d 0) swipe_right;
  }

  abbrev minus_one : d.Num
  minus_one = d.num (negsuc 0)

  unfoldable pub tap : d.Num → Table d → Option (StateMessage d)
  tap y t =
      if not t.is_master || (d.lt (int d table_top) y || d.lt y (int d table_bottom))
      then none
      else some (
          synchronize_state t.current_pixel_index (relative_pixel_to_item_index y t) minus_one
            minus_one t)

  -- How many items `ScrollDown` counts; nothing for a sub-table without items.
  unfoldable pub items_shown : Table d → Option ℕ
  items_shown t =
      if t.is_top_level_table
      then some (length t.items)
      else elim t.items [ [] ↦ none | group ∷ groups ↦ some (length group) ]

  unfoldable pub max_pixel_index : ℕ → d.Num → ℤ
  max_pixel_index num_items item_height =
      trunc
        (d.sub (d.mul (int d (max num_items 2)) item_height) (d.mul item_height (ratio d 15 10)))

  unfoldable pub scroll_down : d.Num → Table d → Option (StateMessage d)
  scroll_down speed t = elim (items_shown t) [
    | none ↦ none
    | some num_items ↦
        if t.is_master
        then some (
            synchronize_state
              (least d (d.add t.current_pixel_index speed)
                (d.num (max_pixel_index num_items t.item_height)))
              (negsuc 0) minus_one minus_one t)
        else none
  ]

  unfoldable pub scroll_up : d.Num → Table d → Option (StateMessage d)
  scroll_up speed t =
      if t.is_master
      then some (
          synchronize_state (most d (d.sub t.current_pixel_index speed) (d.num (negsuc 14)))
            (negsuc 0) minus_one minus_one t)
      else none

  unfoldable pub swipe_left : d.Num → Table d → Option (StateMessage d)
  swipe_left speed t =
      if t.is_master
      then some (synchronize_state t.current_pixel_index (negsuc 0) speed minus_one t)
      else none

  unfoldable pub swipe_right : d.Num → Table d → Option (StateMessage d)
  swipe_right speed t =
      if t.is_master
      then some (synchronize_state t.current_pixel_index (negsuc 0) minus_one speed t)
      else none

  -- The loop of `_DrawTopLevelTable` from group `i` on, until it would draw below 0; there is no
  -- empty group.
  unfoldable pub rows_from : ℕ → List (List ℕ) → Table d → List (Row d)
  rows_from i [] t = []
  rows_from i ([] ∷ gs) t = []
  rows_from i ((x ∷ g) ∷ gs) t =
      let y = item_number_to_pixel (pos i -ℤ current_pixel_to_item_index t) t in
      let rest : List (Row d) = rows_from (suc i) gs t in
      if d.lt y (int d 0)
      then []
      else record {
        index = i;
        y = d.sub y (ratio d 45 10);
        item = x;
        group_size = suc (length g);
        marked = elim t.selected_item_index [ none ↦ false | some j ↦ j == i ];
      }
        ∷ rest

  unfoldable pub draw_top_level_table : Table d → List (Row d)
  draw_top_level_table t =
      let start : ℕ = pos_part (current_pixel_to_item_index t) in
      rows_from start (drop start t.items) t

  -- The loop of `_DrawSubLevelTable`, an item of the group with the height it is drawn at.
  unfoldable pub sub_rows_from : ℕ → List ℕ → Table d → List (ℕ × d.Num)
  sub_rows_from i [] t = []
  sub_rows_from i (x ∷ g) t =
      let y = item_number_to_pixel (pos i -ℤ current_pixel_to_item_index t) t in
      let rest : List (ℕ × d.Num) = sub_rows_from (suc i) g t in
      if d.lt y (int d 0) then [] else (x, y) ∷ rest

  unfoldable pub draw_sub_level_table : Table d → List (ℕ × d.Num)
  draw_sub_level_table t =
      let start : ℕ = pos_part (current_pixel_to_item_index t) in
      elim t.items [ [] ↦ [] | group ∷ groups ↦ sub_rows_from start (drop start group) t ]
