-- ===== src/Boids/Table.antt =====
-- modules/boids2d/Table.h and modules/boids2d/Table.cpp: the table of process names and, for the one
-- that is selected, the table of its processes. An item is known by a number, which stands for its
-- address. `none` is undefined behaviour: reading past the end of a vector.
pub mod Messages
pub mod Loop
pub mod Touches
pub mod Groups
pub mod Removal
pub mod Selection
use wall_mon.Base.Bytes.{key_eq, key_less}
use wall_mon.Base.{
  ℕ, zero, suc, ◌+◌, ◌≤◌, Bool, true, false, not, ◌&&◌, ◌||◌, Option, none, some, List, [], ◌∷◌,
  ◌++◌, ℤ, pos, negsuc, length, map, ltb, leb, ◌==◌, if◌then◌else◌,
}
use wall_mon.Base.Double.{Double, int, ratio}
use wall_mon.Boids.Scene.{erase}
use wall_mon.Boids.TableItem.{BoidSharedContext, TableItem, enable_highlight, disable_highlight}

-- The items and the boids' contexts by their addresses.
pub record Store (d : Double) : Type 0 where
  pub item : ℕ → TableItem d
  pub context : ℕ → BoidSharedContext d

-- `TableStateMessage`; the swipes are there or not.
pub record StateMessage (d : Double) : Type 0 where
  pub is_top_table : Bool
  pub pixel_index : d.Num
  pub selected_index : Option ℤ
  pub swipe_left : Bool
  pub swipe_right : Bool

pub record Table (d : Double) : Type 0 where
  pub items : List (List ℕ)
  pub current_pixel_index : d.Num
  pub item_height : d.Num
  pub selected_item_index : Option ℕ
  pub add_queue : List ℕ
  pub remove_queue : List (Option ℕ)
  pub is_highlighted : Bool
  pub is_top_level_table : Bool
  pub is_master : Bool
  pub startup_sort_done : Bool
  pub process_termination_index : Option ℕ
  pub start_timestamp : d.Num

abbrev pub consed : List ℕ → Option (List (List ℕ)) → Option (List (List ℕ))
consed g none = none
consed g (some gs) = some (g ∷ gs)

-- `tolower` of a byte, in the locale that a program starts in.
unfoldable pub lower : ℕ → ℕ
lower c = if leb 65 c && leb c 90 then c + 32 else c

-- `ToLower`.
unfoldable pub to_lower : List ℕ → List ℕ
to_lower = map lower

-- `std::sort`, of which the code relies on no more than the order by `less`.
module _ {A : Type 0} (less : A → A → Bool) where
  unfoldable pub insert_sorted : A → List A → List A
  insert_sorted x [] = x ∷ []
  insert_sorted x (y ∷ ys) =
      let rest : List A = insert_sorted x ys in if less y x then y ∷ rest else x ∷ y ∷ ys

  unfoldable pub sort : List A → List A
  sort [] = []
  sort (x ∷ xs) = insert_sorted x (sort xs)

-- The part of the inner loop of a removal after its first round, and the whole of it: after an
-- erasure, the next item is not looked at.
unfoldable pub erase_rest : ℕ → List ℕ → List ℕ
unfolding erase
erase_rest i [] = []
erase_rest i (x ∷ g) = x ∷ erase i g

-- The loops that remove an item. When a group gets empty and is erased, the inner loop goes on with
-- the next group, from its second item on.
unfoldable pub remove_item : ℕ → List (List ℕ) → Option (List (List ℕ))
unfolding erase
remove_item i [] = some []
remove_item i ([] ∷ gs) = consed [] (remove_item i gs)
remove_item i ((x ∷ []) ∷ []) = if x == i then none else some ((x ∷ []) ∷ [])
remove_item i ((x ∷ []) ∷ h ∷ hs) =
    let rest = remove_item i hs in
    let others = remove_item i (h ∷ hs) in
    if x == i then consed (erase_rest i h) rest else consed (x ∷ []) others
remove_item i ((x ∷ y ∷ g) ∷ gs) = consed (erase i (x ∷ y ∷ g)) (remove_item i gs)

-- `_TableItemToIndex`, with the number of the next group.
unfoldable pub index_from : ℕ → ℕ → List (List ℕ) → ℕ
index_from n i [] = 0
index_from n i (g ∷ gs) =
    let rest = index_from (suc n) i gs in elim g [ [] ↦ rest | x ∷ xs ↦ if x == i then n else rest ]

unfoldable pub table_item_to_index : ℕ → List (List ℕ) → ℕ
table_item_to_index i gs = index_from 0 i gs

-- `_GetTotalNumItems`.
unfoldable pub total_num_items : List (List ℕ) → ℕ
total_num_items [] = 0
total_num_items (g ∷ gs) = length g + total_num_items gs

module _ (d : Double) where
  -- `_LookupItemGroup` and the addition of an item to what it finds.
  unfoldable pub add_item : Store d → ℕ → List (List ℕ) → Option (List (List ℕ))
  add_item s i [] = some ((i ∷ []) ∷ [])
  add_item s i ([] ∷ gs) = none
  add_item s i ((x ∷ g) ∷ gs) =
      let rest : Option (List (List ℕ)) = add_item s i gs in
      if key_eq (s.item x).key (s.item i).key
      then some ((x ∷ g ++ (i ∷ [])) ∷ gs)
      else consed (x ∷ g) rest

  unfoldable pub add_items : Store d → List ℕ → List (List ℕ) → Option (List (List ℕ))
  add_items s [] gs = some gs
  add_items s (i ∷ is) gs = elim (add_item s i gs) [ none ↦ none | some hs ↦ add_items s is hs ]

  -- A group's first key; there is no empty group.
  abbrev pub head_key : Store d → List ℕ → List ℕ
  head_key s [] = []
  head_key s (x ∷ g) = (s.item x).key

  unfoldable pub group_score : Store d → List ℕ → d.Num
  group_score s g =
      let average = d.div (score_sum s (int d 0) g) (int d (length g)) in
      d.add average (d.mul (d.mul average (ratio d 3 100)) (int d (length g)))
    where
      score_sum : Store d → d.Num → List ℕ → d.Num
      score_sum s sum [] = sum
      score_sum s sum (x ∷ g) = score_sum s (d.add sum (s.item x).score) g

  -- `TableGroupCompareUtilization` and, where the keys are lower case, `TableGroupCompareAlphabetically`.
  unfoldable pub higher_score : Store d → List ℕ → List ℕ → Bool
  higher_score s a b = d.lt (group_score s b) (group_score s a)

  unfoldable pub earlier_key : Store d → List ℕ → List ℕ → Bool
  earlier_key s a b = key_less (head_key s a) (head_key s b)

  unfoldable pub set_item : ℕ → TableItem d → Store d → Store d
  set_item i v s = record s { item = λ j. if j == i then v else s.item j }

  unfoldable pub set_context : ℕ → BoidSharedContext d → Store d → Store d
  set_context i v s = record s { context = λ j. if j == i then v else s.context j }

  -- The comparisons of the alphabetical sort make the first key of each group lower case.
  unfoldable pub lower_keys : List (List ℕ) → Store d → Store d
  lower_keys [] s = s
  lower_keys ([] ∷ gs) s = lower_keys gs s
  lower_keys ((x ∷ g) ∷ gs) s =
      lower_keys gs (set_item x (record (s.item x) { key = to_lower (s.item x).key }) s)

  -- One group alone is not compared.
  unfoldable pub compared : List (List ℕ) → Store d → Store d
  compared [] s = s
  compared (g ∷ []) s = s
  compared (g ∷ h ∷ gs) s = lower_keys (g ∷ h ∷ gs) s
