-- ===== src/Boids/Table/Groups.antt =====
-- The groups of a table of modules/boids2d/Table.cpp, and the addition of items to them.
use wall_mon.Base.Bytes.{key_eq, key_eq_refl, key_eq→eq, differ}
use wall_mon.Base.{
  ℕ, ◌+◌, ◌≡◌, ◌≢◌, refl, sym, ◌∙◌, arith, false, Option, some, List, [], ◌∷◌, ◌++◌, Bool-cases,
  inl, inr, subst,
}
use wall_mon.Base.Counts.{count, count-append}
use wall_mon.Base.Double.{Double}
use wall_mon.Boids.Table.{Store, add_item, add_items}

-- How often an item is in the groups.
unfoldable pub occurrences : ℕ → List (List ℕ) → ℕ
occurrences i [] = 0
occurrences i (g ∷ gs) = count i g + occurrences i gs

module _ (d : Double) (s : Store d) where
  abbrev pub key : ℕ → List ℕ
  key i = (s.item i).key

  -- Every item of the list has the key.
  abbrev pub AllKey : List ℕ → List ℕ → Type 0
  AllKey k [] = Unit
  AllKey k (x ∷ g) = (key x ≡ k) × AllKey k g

  -- No group begins with the key.
  abbrev pub NoKey : List ℕ → List (List ℕ) → Type 0
  NoKey k [] = Unit
  NoKey k ([] ∷ gs) = NoKey k gs
  NoKey k ((x ∷ g) ∷ gs) = (key x ≢ k) × NoKey k gs

  -- No group is empty, the items of a group have one key, and no two groups have the same.
  abbrev pub Grouped : List (List ℕ) → Type 0
  Grouped [] = Unit
  Grouped ([] ∷ gs) = ⊥
  Grouped ((x ∷ g) ∷ gs) = AllKey (key x) g × NoKey (key x) gs × Grouped gs

  -- The result is groups with item `i` more.
  abbrev Added : ℕ → List (List ℕ) → Option (List (List ℕ)) → Type 0
  Added i gs o =
      (hs : List (List ℕ)) × (o ≡ some hs)
      × Grouped hs
      × ((j : ℕ) → occurrences j hs ≡ occurrences j gs + count j (i ∷ []))
      × ((k : List ℕ) → key i ≢ k → NoKey k gs → NoKey k hs)

  AllKey-append : (k g : List ℕ) (i : ℕ) → AllKey k g → key i ≡ k → AllKey k (g ++ (i ∷ []))
  AllKey-append k [] i a e = (e, tt)
  AllKey-append k (x ∷ g) i a e = (a.0, AllKey-append k g i a.1 e)

  add_item-Added : (i : ℕ) (gs : List (List ℕ)) → Grouped gs → Added i gs (add_item d s i gs)
  unfolding add_item occurrences
  add_item-Added i [] gr = ((i ∷ []) ∷ [], refl, (tt, tt, tt), λ j. omega arith, λ k ne n. (ne, tt))
  add_item-Added i ([] ∷ gs) gr = absurd gr
  add_item-Added i ((x ∷ g) ∷ gs) (a, n, gr) = elim (Bool-cases (key_eq (key x) (key i))) [
    | inl same ↦
        let e = key_eq→eq (key x) (key i) same in
        (
          (x ∷ g ++ (i ∷ [])) ∷ gs,
          rw same refl,
          (AllKey-append (key x) g i a (sym e), n, gr),
          λ j. omega (arith, count-append j (x ∷ g) (i ∷ [])),
          λ k ne m. m,
        )
    | inr other ↦
        let (hs, e, gr', c, keeps) = add_item-Added i gs gr in
        (
          (x ∷ g) ∷ hs,
          rw (other, e) refl,
          (
            a,
            keeps (key x)
                (λ q. differ (key_eq_refl (key x)) (subst (λ m. key_eq (key x) m ≡ false) q other))
                n,
            gr',
          ),
          λ j. omega (arith, c j),
          λ k ne m. (m.0, keeps k ne m.1),
        )
  ]

  -- A table whose groups each have one key, all different, and the items `is` that are added: the
  -- result is defined and such groups again, and has every item as often as the groups and `is` had
  -- it together.
  pub add_items-Grouped :
      (is : List ℕ) (gs : List (List ℕ))
      → Grouped gs
      → (hs : List (List ℕ)) × (add_items d s is gs ≡ some hs)
        × Grouped hs
        × ((j : ℕ) → occurrences j hs ≡ occurrences j gs + count j is)
  unfolding add_items count
  add_items-Grouped [] gs gr = (gs, refl, gr, λ j. omega arith)
  add_items-Grouped (i ∷ is) gs gr =
      let (hs, e, gr', c, keeps) = add_item-Added i gs gr in
      let (fs, e', gr'', c') = add_items-Grouped is hs gr' in
      (fs, rw (e, add_items) e', gr'', λ j. c' j ∙ ground (arith, c j))
