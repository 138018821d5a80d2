-- ===== src/Boids/Table/Selection.antt =====
-- What sorting does to a table of modules/boids2d/Table.cpp, and to its selected entry.
use wall_mon.Base.{
  ℕ, zero, suc, ◌+◌, ◌≤◌, ◌≡◌, refl, sym, ap, ◌∙◌, arith, Bool, false, some, List, [], ◌∷◌,
  get_elem?, ◌==◌, subst, if_lem,
}
use wall_mon.Base.Counts.{count}
use wall_mon.Base.Double.{Double}
use wall_mon.Boids.Table.{Table, insert_sorted, sort, index_from, table_item_to_index}
use wall_mon.Boids.Table.Groups.{occurrences}
use wall_mon.Boids.Table.Messages.{first_of, reselect, place_sorted, sort_table}

-- The group has a place among the groups.
abbrev At : List ℕ → List (List ℕ) → Type 0
At g gs = (k : ℕ) × (get_elem? gs k ≡ some g)

some_inj : (v w : List ℕ) → some v ≡ some w → v ≡ w
some_inj v w e = cc

module _ (less : List ℕ → List ℕ → Bool) where
  occurrences-insert_sorted :
      (i : ℕ) (g : List ℕ) (gs : List (List ℕ))
      → occurrences i (insert_sorted less g gs) ≡ occurrences i (g ∷ gs)
  unfolding insert_sorted occurrences
  occurrences-insert_sorted i g [] = refl
  occurrences-insert_sorted i g (h ∷ gs) =
      if_lem (λ r. occurrences i r ≡ occurrences i (g ∷ h ∷ gs)) (less h g)
        (λ _. omega (arith, occurrences-insert_sorted i g gs)) (λ _. refl)

  occurrences-sort : (i : ℕ) (gs : List (List ℕ)) → occurrences i (sort less gs) ≡ occurrences i gs
  unfolding sort occurrences
  occurrences-sort i [] = refl
  occurrences-sort i (g ∷ gs) =
      occurrences-insert_sorted i g (sort less gs) ∙ omega (arith, occurrences-sort i gs)

  insert_sorted-new : (g : List ℕ) (gs : List (List ℕ)) → At g (insert_sorted less g gs)
  unfolding insert_sorted
  insert_sorted-new g [] = (0, refl)
  insert_sorted-new g (h ∷ gs) =
      let (k, e) = insert_sorted-new g gs in
      if_lem (At g) (less h g) (λ _. (suc k, e)) (λ _. (0, refl))

  insert_sorted-old : (f g : List ℕ) (gs : List (List ℕ)) → At f gs → At f (insert_sorted less g gs)
  unfolding insert_sorted
  insert_sorted-old f g [] (k, e) = absurd (cc)
  insert_sorted-old f g (h ∷ gs) (zero, e) = if_lem (At f) (less h g) (λ _. (0, e)) (λ _. (1, e))
  insert_sorted-old f g (h ∷ gs) (suc k, e) =
      let (m, e') = insert_sorted-old f g gs (k, e) in
      if_lem (At f) (less h g) (λ _. (suc m, e')) (λ _. (suc (suc k), e))

  sort-At : (f : List ℕ) (gs : List (List ℕ)) → At f gs → At f (sort less gs)
  unfolding sort
  sort-At f [] (k, e) = (k, e)
  sort-At f (g ∷ gs) (zero, e) =
      subst (λ h. At h (insert_sorted less g (sort less gs))) (some_inj g f e)
        (insert_sorted-new g (sort less gs))
  sort-At f (g ∷ gs) (suc k, e) = insert_sorted-old f g (sort less gs) (sort-At f gs (k, e))

-- A group that is somewhere has its first item there.
occurs :
    (x k : ℕ) (g : List ℕ) (gs : List (List ℕ))
    → get_elem? gs k ≡ some (x ∷ g)
    → 1 ≤ occurrences x gs
unfolding occurrences count
occurs x k g [] e = absurd (cc)
occurs x zero g (h ∷ gs) e =
    subst (λ m. 1 ≤ occurrences x (m ∷ gs)) (sym (some_inj h (x ∷ g) e)) (own x g gs)
  where
    own : (x : ℕ) (g : List ℕ) (gs : List (List ℕ)) → 1 ≤ occurrences x ((x ∷ g) ∷ gs)
    own x g gs = ground arith
occurs x (suc k) g (h ∷ gs) e = omega (arith, occurs x k g gs e)

-- An item that is in the groups once is found where its group is.
index_from_lem :
    (n x k : ℕ) (g : List ℕ) (gs : List (List ℕ))
    → get_elem? gs k ≡ some (x ∷ g)
    → occurrences x gs ≤ 1
    → index_from n x gs ≡ n + k
unfolding index_from occurrences count
index_from_lem n x k g [] e once = absurd (cc)
index_from_lem n x zero g ([] ∷ gs) e once = absurd (cc)
index_from_lem n x zero g ((y ∷ h) ∷ gs) e once =
    let same : y ≡ x = head_inj y x h g e in ground (arith, same)
  where
    head_inj : (y x : ℕ) (h g : List ℕ) → some (y ∷ h) ≡ some (x ∷ g) → y ≡ x
    head_inj y x h g e = cc
index_from_lem n x (suc k) g ([] ∷ gs) e once =
    index_from_lem (suc n) x k g gs e (omega (arith, once)) ∙ omega arith
index_from_lem n x (suc k) g ((y ∷ h) ∷ gs) e once =
    let later : 1 ≤ occurrences x gs = occurs x k g gs e in
    let other : (y == x) ≡ false = ground (arith, once, later) in
    let rest : occurrences x gs ≤ 1 = ground (arith, once) in
    rw other (index_from_lem (suc n) x k g gs e rest ∙ omega arith)

first_at :
    (i x : ℕ) (g : List ℕ) (gs : List (List ℕ))
    → get_elem? gs i ≡ some (x ∷ g)
    → first_of i gs ≡ some x
unfolding first_of
first_at i x g gs at = rw (at, first_of) refl

module _ (d : Double) where
  -- Whatever order a table is sorted by: if the entry that is selected is a group that is in the
  -- table, and its first item is in the table no more than once, then after the sort, which is
  -- defined, the selected entry is the same group, and the table has every item as often as before.
  pub sort_table-Selects :
      (less : List ℕ → List ℕ → Bool) (t : Table d) (i x : ℕ) (g : List ℕ)
      → t.selected_item_index ≡ some i
      → get_elem? t.items i ≡ some (x ∷ g)
      → occurrences x t.items ≤ 1
      → (u : Table d) × (j : ℕ) × (sort_table d less t ≡ some u)
        × (u.selected_item_index ≡ some j)
        × (get_elem? u.items j ≡ some (x ∷ g))
        × ((y : ℕ) → occurrences y u.items ≡ occurrences y t.items)
  unfolding sort_table place_sorted reselect table_item_to_index
  sort_table-Selects less t i x g e at once =
      let (k, here) = sort-At less (x ∷ g) t.items (i, at) in
      let sorted = sort less t.items in
      let found =
        index_from_lem 0 x k g sorted here
          (subst (λ n. n ≤ 1) (sym (occurrences-sort less x t.items)) once) in
      (
        record t { items = sorted; selected_item_index = some (index_from 0 x sorted) },
        k,
        ap (λ o. place_sorted d sorted o t) e
            ∙ ap (λ o. reselect d sorted o t) (first_at i x g t.items at),
        ap some (found ∙ omega arith),
        here,
        λ y. occurrences-sort less y t.items,
      )
