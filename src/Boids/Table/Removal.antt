-- ===== src/Boids/Table/Removal.antt =====
-- The removal of an item from the groups of a table of modules/boids2d/Table.cpp.
use wall_mon.Base.{
  ℕ, ◌+◌, ◌-◌, ◌≤◌, ◌≡◌, ◌≢◌, refl, sym, ap, ap₂, ◌∙◌, arith, false, Option, some, List, [], ◌∷◌,
  ◌==◌, ==_iff, Bool-cases, inl, inr, subst, if_lem,
}
use wall_mon.Base.Counts.{count}
use wall_mon.Base.Double.{Double}
use wall_mon.Boids.Scene.{erase}
use wall_mon.Boids.Scene.Life.{erase_own, erase_other}
use wall_mon.Boids.Table.{Store, consed, remove_item, erase_rest}
use wall_mon.Boids.Table.Groups.{occurrences, key, AllKey, NoKey, Grouped}

one_own : (i : ℕ) → count i (i ∷ []) ≡ 1
unfolding count
one_own i = ground arith

one_other : (i j : ℕ) → j ≢ i → count j (i ∷ []) ≡ 0
unfolding count
one_other i j ne = ground arith

-- What an erasure leaves of an item that is in a group and other groups at most once, and of others.
left :
    (i j occ : ℕ) (g : List ℕ) (gs : List (List ℕ))
    → count i g + occurrences i gs ≤ 1
    → occ ≡ occurrences j gs - count j (i ∷ [])
    → count j (erase i g) + occ ≡ count j g + occurrences j gs - count j (i ∷ [])
left i j occ g gs once c = elim (Bool-cases (j == i)) [
  | inl own ↦
      let e : i ≡ j = sym ((==_iff j i).0 own) in
      subst
        (λ k.
          (occ' : ℕ)
          → occ' ≡ occurrences k gs - count k (i ∷ [])
          → count k (erase i g) + occ' ≡ count k g + occurrences k gs - count k (i ∷ []))
        e (λ occ' c'. omega (arith, c', once, one_own i, erase_own i g (omega (arith, once)))) occ c
  | inr other ↦
      let ne : j ≢ i = λ q. ground (arith, q, other) in
      omega (arith, c, one_other i j ne, erase_other j i g ne)
]

module _ (d : Double) (s : Store d) where
  -- The item is not the only one of the last group.
  abbrev pub Removable : ℕ → List (List ℕ) → Type 0
  Removable i [] = Unit
  Removable i (g ∷ []) = g ≢ (i ∷ [])
  Removable i (g ∷ h ∷ gs) = Removable i (h ∷ gs)

  -- The result is groups with item `i` less.
  abbrev pub Removed : ℕ → List (List ℕ) → Option (List (List ℕ)) → Type 0
  Removed i gs o =
      (hs : List (List ℕ)) × (o ≡ some hs)
      × Grouped d s hs
      × ((j : ℕ) → occurrences j hs ≡ occurrences j gs - count j (i ∷ []))
      × ((k : List ℕ) → NoKey d s k gs → NoKey d s k hs)

  erase_none : (i : ℕ) (g : List ℕ) → count i g ≡ 0 → erase i g ≡ g
  unfolding erase count
  erase_none i [] h = refl
  erase_none i (x ∷ []) h = ground arith
  erase_none i (x ∷ y ∷ g) h = ground (arith, erase_none i (y ∷ g))

  remove_none :
      (i : ℕ) (gs : List (List ℕ))
      → occurrences i gs ≡ 0
      → Grouped d s gs
      → remove_item i gs ≡ some gs
  unfolding remove_item occurrences count
  remove_none i [] h gr = refl
  remove_none i ([] ∷ gs) h gr = absurd gr
  remove_none i ((x ∷ []) ∷ []) h gr = ground arith
  remove_none i ((x ∷ []) ∷ k ∷ gs) h gr =
      let ne : (x == i) ≡ false = ground (arith, h) in
      let rest : occurrences i (k ∷ gs) ≡ 0 = ground (arith, h) in
      rw ne (ap (consed (x ∷ [])) (remove_none i (k ∷ gs) rest gr.2))
  remove_none i ((x ∷ y ∷ g) ∷ gs) h gr =
      let here : count i (x ∷ y ∷ g) ≡ 0 = omega (arith, h) in
      ap₂ consed (erase_none i (x ∷ y ∷ g) here) (remove_none i gs (omega (arith, h)) gr.2)

  erase_rest_none : (i : ℕ) (g : List ℕ) → count i g ≡ 0 → erase_rest i g ≡ g
  unfolding erase_rest count
  erase_rest_none i [] h = refl
  erase_rest_none i (x ∷ g) h = ap (λ r. x ∷ r) (erase_none i g (ground (arith, h)))

  AllKey-erase : (k : List ℕ) (i : ℕ) (g : List ℕ) → AllKey d s k g → AllKey d s k (erase i g)
  unfolding erase
  AllKey-erase k i [] a = tt
  AllKey-erase k i (x ∷ []) a = if_lem (AllKey d s k) (x == i) (λ _. tt) (λ _. a)
  AllKey-erase k i (x ∷ y ∷ g) a =
      if_lem (AllKey d s k) (x == i) (λ _. (a.1.0, AllKey-erase k i g a.1.1))
        (λ _. (a.0, AllKey-erase k i (y ∷ g) a.1))

  -- The erasure of an item that is not the only one leaves a group of the same key.
  abbrev Group : List ℕ → List ℕ → Type 0
  Group k [] = ⊥
  Group k (x ∷ g) = (key d s x ≡ k) × AllKey d s k g

  erase-Group :
      (k : List ℕ) (i x y : ℕ) (g : List ℕ)
      → AllKey d s k (x ∷ y ∷ g)
      → Group k (erase i (x ∷ y ∷ g))
  unfolding erase
  erase-Group k i x y g a =
      if_lem (Group k) (x == i) (λ _. (a.1.0, AllKey-erase k i g a.1.1))
        (λ _. (a.0, AllKey-erase k i (y ∷ g) a.1))

  -- A group in front, of which `h` is left.
  consed-Removed :
      (i x : ℕ) (g h : List ℕ) (gs : List (List ℕ)) (o : Option (List (List ℕ)))
      → Grouped d s ((x ∷ g) ∷ gs)
      → Group (key d s x) h
      → ((j occ : ℕ)
          → occ ≡ occurrences j gs - count j (i ∷ [])
          → count j h + occ ≡ count j (x ∷ g) + occurrences j gs - count j (i ∷ []))
      → Removed i gs o
      → Removed i ((x ∷ g) ∷ gs) (consed h o)
  unfolding occurrences
  consed-Removed i x g [] gs o gr one c r = absurd one
  consed-Removed i x g (y ∷ h) gs o (a, n, gr) (e, a') c (hs, q, gr', c', keeps) = (
    (y ∷ h) ∷ hs,
    rw q refl,
    (
      subst (λ k. AllKey d s k h) (sym e) a',
      subst (λ k. NoKey d s k hs) (sym e) (keeps (key d s x) n),
      gr',
    ),
    λ j. c j (occurrences j hs) (c' j),
    λ k m. (λ q'. m.0 (sym e ∙ q'), keeps k m.1),
  )

  behind : (g : List ℕ) (gs : List (List ℕ)) → Grouped d s (g ∷ gs) → Grouped d s gs
  behind [] gs gr = absurd gr
  behind (x ∷ g) gs gr = gr.2

  Removable-tail : (i : ℕ) (g : List ℕ) (gs : List (List ℕ)) → Removable i (g ∷ gs) → Removable i gs
  Removable-tail i g [] r = tt
  Removable-tail i g (h ∷ gs) r = r

  -- A table whose groups each have one key, all different, and an item that is in them at most once:
  -- unless it is the only item of the last group, its removal is defined and leaves such groups
  -- again, which have it no more, and every other item as often as before.
  pub remove_item-Grouped :
      (i : ℕ) (gs : List (List ℕ))
      → Grouped d s gs
      → occurrences i gs ≤ 1
      → Removable i gs
      → Removed i gs (remove_item i gs)
  unfolding remove_item occurrences count
  remove_item-Grouped i [] gr once r = ([], refl, tt, λ j. omega arith, λ k n. n)
  remove_item-Grouped i ([] ∷ gs) gr once r = absurd gr
  remove_item-Grouped i ((x ∷ []) ∷ []) gr once r = elim (Bool-cases (x == i)) [
    | inl own ↦ absurd (r (ap (λ z. z ∷ []) ((==_iff x i).0 own)))
    | inr other ↦ ((x ∷ []) ∷ [], rw other refl, gr, λ j. ground (arith, other), λ k n. n)
  ]
  remove_item-Grouped i ((x ∷ []) ∷ h ∷ gs) gr once r = elim (Bool-cases (x == i)) [
    | inl own ↦
        let here : count i h ≡ 0 = ground (arith, once) in
        let rest : occurrences i gs ≡ 0 = ground (arith, once) in
        (
          h ∷ gs,
          rw own (ap₂ consed (erase_rest_none i h here) (remove_none i gs rest (behind h gs gr.2))),
          gr.2,
          λ j. ground (arith, own),
          λ k n. n.1,
        )
    | inr other ↦ rw other (
        consed-Removed i x [] (x ∷ []) (h ∷ gs) (remove_item i (h ∷ gs)) gr (refl, tt)
          (λ j occ c. ground (arith, c, other))
          (remove_item-Grouped i (h ∷ gs) gr.2 (ground (arith, once)) r))
  ]
  remove_item-Grouped i ((x ∷ y ∷ g) ∷ gs) gr once r =
      consed-Removed i x (y ∷ g) (erase i (x ∷ y ∷ g)) gs (remove_item i gs) gr
        (erase-Group (key d s x) i x y g (refl, gr.0))
        (λ j occ c. left i j occ (x ∷ y ∷ g) gs once c)
        (remove_item-Grouped i gs gr.2 (omega (arith, once)) (Removable-tail i (x ∷ y ∷ g) gs r))
