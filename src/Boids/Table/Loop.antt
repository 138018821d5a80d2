-- ===== src/Boids/Table/Loop.antt =====
-- `OnLoop` of modules/boids2d/Table.cpp. Of its queues it takes what is in them when it looks.
use wall_mon.Base.{ℕ, true, not, ◌&&◌, Option, none, some, List, [], ◌∷◌, if◌then◌else◌}
use wall_mon.Base.Double.{Double, int}
use wall_mon.Boids.Table.{Store, StateMessage, Table, remove_item, add_items}
use wall_mon.Boids.Table.Messages.{
  Tables, unhighlight_groups, sort_table_score, goes_on, returns, undefined, message_top,
  message_sub, messages,
}

module _ (d : Double) where
  -- The loop over the removals.
  unfoldable pub removals : List (Option ℕ) → Store d → Table d → Option (Store d × Table d)
  removals [] s t = some (s, record t { remove_queue = [] })
  removals (none ∷ is) s t = removals is (unhighlight_groups d t.items s) (record t {
    items = [];
    current_pixel_index = int d 0;
    selected_item_index = none;
    process_termination_index = none;
  })
  removals (some i ∷ is) s t = elim (remove_item i t.items) [
    | none ↦ none
    | some gs ↦ removals is s (record t { items = gs })
  ]

  -- The rest of `OnLoop`, from the removals on, at the time `now`.
  unfoldable pub update : d.Num → Store d → Table d → Option (Store d × Table d)
  update now s t = elim (removals t.remove_queue s t) [
    | none ↦ none
    | some (s', u) ↦ elim (add_items d s' u.add_queue u.items) [
      | none ↦ none
      | some gs ↦
          let added : Table d = record u { items = gs; add_queue = [] } in
          let sorted : Option (Table d) =
            sort_table_score d s' (record added { startup_sort_done = true }) in
          if not u.startup_sort_done && d.lt (int d 2) (d.sub now u.start_timestamp)
          then elim sorted [ none ↦ none | some v ↦ some (s', v) ]
          else some (s', added)
    ]
  ]

  -- `OnLoop` of the top table, and of the sub-table.
  unfoldable pub on_loop_top :
      d.Num → List (StateMessage d) → Tables d → Option (List (StateMessage d) × Tables d)
  on_loop_top now ms w =
      let (rest, outcome) = messages d (message_top d) ms w in
      elim outcome [
        | undefined ↦ none
        | returns v ↦ some (rest, v)
        | goes_on v ↦ elim (update now v.store v.top) [
          | none ↦ none
          | some (s, t) ↦ some (rest, record v { store = s; top = t })
        ]
      ]

  unfoldable pub on_loop_sub :
      d.Num → List (StateMessage d) → Tables d → Option (List (StateMessage d) × Tables d)
  on_loop_sub now ms w =
      let (rest, outcome) = messages d (message_sub d) ms w in
      elim outcome [
        | undefined ↦ none
        | returns v ↦ some (rest, v)
        | goes_on v ↦ elim (update now v.store v.sub) [
          | none ↦ none
          | some (s, t) ↦ some (rest, record v { store = s; sub = t })
        ]
      ]
