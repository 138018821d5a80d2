-- ===== src/Boids/Table/Messages.antt =====
-- What the messages of the state synchronizer do in `OnLoop` of modules/boids2d/Table.cpp, and the
-- sorting and highlighting that they ask for.
use wall_mon.Base.{
  ℕ, suc, Bool, true, false, ◌||◌, Option, none, some, List, [], ◌∷◌, ◌++◌, ℤ, pos, negsuc,
  get_elem?, ◌==◌, if◌then◌else◌,
}
use wall_mon.Base.Double.{Double}
use wall_mon.Boids.TableItem.{BoidSharedContext, enable_highlight, disable_highlight}
use wall_mon.Boids.Table.{
  Store, StateMessage, Table, sort, table_item_to_index, higher_score, earlier_key, set_item,
  set_context, compared,
}

-- The two tables, and the processes that `_TerminateProcess` kills, each by its host and pid.
pub record Tables (d : Double) : Type 0 where
  pub top : Table d
  pub sub : Table d
  pub store : Store d
  pub killed : List (List ℕ × List ℕ)

-- `_items[i][0]`, where there is such a group.
unfoldable pub first_of : ℕ → List (List ℕ) → Option ℕ
first_of i gs = elim (get_elem? gs i) [ none ↦ none | some g ↦ get_elem? g 0 ]

module _ (d : Double) where
  -- A loop over a group's items and their boids.
  unfoldable pub each_boid :
      (BoidSharedContext d → BoidSharedContext d) → List ℕ → Store d → Store d
  each_boid f [] s = s
  each_boid f (c ∷ cs) s = each_boid f cs (set_context d c (f (s.context c)) s)

  -- `_HighlightBoids`, with the number of the next item.
  unfoldable pub highlight_boids : ℕ → List ℕ → Store d → Store d
  highlight_boids n [] s = s
  highlight_boids n (x ∷ g) s =
      let numbered : Store d = set_item d x (record (s.item x) { highlight_number = pos n }) s in
      highlight_boids (suc n) g (each_boid (enable_highlight d (pos n)) (s.item x).boids numbered)

  unfoldable pub unhighlight_boids : List ℕ → Store d → Store d
  unhighlight_boids [] s = s
  unhighlight_boids (x ∷ g) s =
      let numbered : Store d = set_item d x (record (s.item x) { highlight_number = negsuc 0 }) s in
      unhighlight_boids g (each_boid (disable_highlight d) (s.item x).boids numbered)

  unfoldable pub unhighlight_groups : List (List ℕ) → Store d → Store d
  unhighlight_groups [] s = s
  unhighlight_groups (g ∷ gs) s = unhighlight_groups gs (unhighlight_boids g s)

  -- The groups sorted, with the index of the item that was selected.
  unfoldable pub reselect : List (List ℕ) → Option ℕ → Table d → Option (Table d)
  reselect sorted none t = none
  reselect sorted (some selected) t = some (record t {
    items = sorted;
    selected_item_index = some (table_item_to_index selected sorted);
  })

  unfoldable pub place_sorted : List (List ℕ) → Option ℕ → Table d → Option (Table d)
  place_sorted sorted none t = some (record t { items = sorted })
  place_sorted sorted (some i) t = reselect sorted (first_of i t.items) t

  -- Sorting by an order, with the selected entry kept.
  unfoldable pub sort_table : (List ℕ → List ℕ → Bool) → Table d → Option (Table d)
  sort_table less t = place_sorted (sort less t.items) t.selected_item_index t

  -- `_SortTableAlphabetically` of the top table.
  unfoldable pub sort_table_alphabetically : Tables d → Option (Tables d)
  sort_table_alphabetically w =
      let store = compared d w.top.items w.store in
      elim (sort_table (earlier_key d store) w.top) [
        | none ↦ none
        | some t ↦ some (record w { top = t; store = store })
      ]

  -- `_SortTableScore` of a table.
  unfoldable pub sort_table_score : Store d → Table d → Option (Table d)
  sort_table_score s t = sort_table (higher_score d s) t

  -- A tap on group `i` of the top table.
  unfoldable pub select_group : ℕ → List ℕ → Tables d → Tables d
  select_group i group w =
      let cleared : List (Option ℕ) = w.sub.remove_queue ++ (none ∷ []) in
      let again : Bool = elim w.top.selected_item_index [ none ↦ false | some j ↦ i == j ] in
      if again
      then record w {
        top = record w.top { selected_item_index = none };
        sub = record w.sub { remove_queue = cleared };
      }
      else record w {
        top = record w.top { selected_item_index = some i };
        sub = record w.sub { remove_queue = cleared; add_queue = w.sub.add_queue ++ group };
      }

  -- A tap on process `i` of the sub-table.
  unfoldable pub terminate_process : ℕ → ℕ → Tables d → Tables d
  terminate_process i x w = record w {
    sub = record w.sub { process_termination_index = some i };
    killed = w.killed ++ (((w.store.item x).host_name, (w.store.item x).pid) ∷ []);
  }

  abbrev pub elem_at : {A : Type 0} → ℤ → List A → Option A
  elem_at (pos i) xs = get_elem? xs i
  elem_at (negsuc i) xs = none

  abbrev magnitude : ℤ → ℕ
  magnitude (pos i) = i
  magnitude (negsuc i) = i

  -- The tap of a message: `none` where `OnLoop` returns.
  unfoldable pub tap_top : Option ℤ → Tables d → Option (Tables d)
  tap_top none w = some w
  tap_top (some i) w = elim (elem_at i w.top.items) [
    | none ↦ none
    | some group ↦ some (select_group (magnitude i) group w)
  ]

  unfoldable pub tap_sub : Option ℤ → Tables d → Option (Tables d)
  tap_sub none w = some w
  tap_sub (some i) w = elim w.sub.items [
    | [] ↦ none
    | group ∷ groups ↦ elim (elem_at i group) [
      | none ↦ none
      | some x ↦ some (terminate_process (magnitude i) x w)
    ]
  ]

  -- A swipe over the sub-table.
  unfoldable pub swipe_sub : Tables d → Option (Tables d)
  swipe_sub w = elim w.sub.items [
    | [] ↦ none
    | group ∷ groups ↦
        if w.sub.is_highlighted
        then some (record w {
          sub = record w.sub { is_highlighted = false };
          store = unhighlight_boids group w.store;
        })
        else some (record w {
          sub = record w.sub { is_highlighted = true };
          store = highlight_boids 0 group w.store;
        })
  ]

  -- How `OnLoop` goes on after a message: it does, it returns, or it is undefined.
  pub data Outcome : Type 0 where
    goes_on : Tables d → Outcome
    returns : Tables d → Outcome
    undefined : Outcome

  unfoldable pub sorted_top : Bool → Bool → Tables d → Option (Tables d)
  sorted_top swipe_left swipe_right w =
      let by_score : Tables d → Option (Tables d) = λ v. elim (sort_table_score v.store v.top) [
        | none ↦ none
        | some t ↦ some (record v { top = t })
      ] in
      elim (if swipe_left then sort_table_alphabetically w else some w) [
        | none ↦ none
        | some v ↦ if swipe_right then by_score v else some v
      ]

  unfoldable pub message_top : StateMessage d → Tables d → Outcome
  message_top m w =
      let moved : Tables d = record w {
        top = record w.top { current_pixel_index = m.pixel_index };
      } in
      elim (tap_top m.selected_index moved) [
        | none ↦ returns moved
        | some v ↦ elim (sorted_top m.swipe_left m.swipe_right v) [
          | none ↦ undefined
          | some u ↦ goes_on u
        ]
      ]

  unfoldable pub message_sub : StateMessage d → Tables d → Outcome
  message_sub m w =
      let moved : Tables d = record w {
        sub = record w.sub { current_pixel_index = m.pixel_index };
      } in
      elim (tap_sub m.selected_index moved) [
        | none ↦ returns moved
        | some v ↦
            if m.swipe_left || m.swipe_right
            then elim (swipe_sub v) [ none ↦ returns v | some u ↦ goes_on u ]
            else goes_on v
      ]

  -- The loop over the messages, and what is left of them.
  unfoldable pub messages :
      (StateMessage d → Tables d → Outcome)
      → List (StateMessage d)
      → Tables d
      → List (StateMessage d) × Outcome
  messages step [] w = ([], goes_on w)
  messages step (m ∷ ms) w = elim (step m w) [
    | goes_on v ↦ messages step ms v
    | returns v ↦ (ms, returns v)
    | undefined ↦ (ms, undefined)
  ]
