-- ===== src/Boids/Data/Balance.antt =====
-- That `Data` of modules/boids2d/DataContainers.cpp puts a process into the table and takes it out.
use wall_mon.Base.Bytes.{key_eq, or_else, key_eq_refl}
use wall_mon.Base.{
  ℕ, suc, ◌+◌, ◌≤◌, ◌≡◌, refl, sym, ap, ◌∙◌, arith, false, Option, none, some, List, [], ◌∷◌, ◌++◌,
  ◌==◌, ==_iff, ◌⊎◌, if◌then◌else◌, Bool-cases, inl, inr, subst, if_lem,
}
use wall_mon.Base.Counts.{count, count-append}
use wall_mon.Base.Double.{Double}
use wall_mon.Boids.TableItem.{BoidSharedContext, TableItem}
use wall_mon.Boids.Data.{
  Proc, Data, HostMessage, create_proc_key, find, erase_key, create_boid, init_boids, remove_proc,
  new_proc, update, key_changed,
}

-- How often an item is in a queue of removals.
unfoldable pub removals_of : ℕ → List (Option ℕ) → ℕ
removals_of x [] = 0
removals_of x (none ∷ q) = removals_of x q
removals_of x (some y ∷ q) = if y == x then suc (removals_of x q) else removals_of x q

removals_of-append :
    (x y : ℕ) (q : List (Option ℕ))
    → removals_of x (q ++ (some y ∷ [])) ≡ removals_of x q + count x (y ∷ [])
unfolding removals_of count
removals_of-append x y [] = ground arith
removals_of-append x y (none ∷ q) = removals_of-append x y q
removals_of-append x y (some z ∷ q) = ground (arith, removals_of-append x y q)

single : (x y : ℕ) → ((x ≡ y) × (count x (y ∷ []) ≡ 1)) ⊎ (count x (y ∷ []) ≡ 0)
unfolding count
single x y = elim (Bool-cases (y == x)) [
  | inl e ↦ rw e (inl (sym ((==_iff y x).0 e), refl))
  | inr e ↦ rw e (inr refl)
]

module _ (d : Double) where
  -- How many processes of the map have the item for their entry.
  unfoldable pub entries : ℕ → List (List ℕ × Proc d) → ℕ
  entries x [] = 0
  entries x ((k, p) ∷ m) = count x (p.visual.table_item ∷ []) + entries x m

  entries-erase_key :
      (x : ℕ) (k : List ℕ) (p : Proc d) (m : List (List ℕ × Proc d))
      → find k m ≡ some p
      → entries x m ≡ entries x (erase_key k m) + count x (p.visual.table_item ∷ [])
  unfolding entries erase_key find
  entries-erase_key x k p [] e = absurd (cc)
  entries-erase_key x k p ((j, q) ∷ m) e = elim (Bool-cases (key_eq j k)) [
    | inl hit ↦ rw hit (
        subst
          (λ r.
            count x (q.visual.table_item ∷ []) + entries x m
            ≡ entries x m + count x (r.visual.table_item ∷ []))
          (some_inj q p (rw hit at e)) (omega arith))
    | inr miss ↦ rw miss (omega (arith, entries-erase_key x k p m (rw miss at e)))
  ]
    where
      some_inj : (v w : Proc d) → some v ≡ some w → v ≡ w
      some_inj v w e = cc

  -- An item that has been put into the table is that of one process in the map, or has been taken
  -- out, and not both; and it has been put in once. The next number is no item yet.
  pub record Balanced (s : Data d) : Type 0 where
    pub in_or_out :
        (x : ℕ)
        → count x s.table.add_queue ≡ entries x s.proc_map + removals_of x s.table.remove_queue
    pub once : (x : ℕ) → count x s.table.add_queue ≤ 1
    pub fresh : (x : ℕ) → s.next ≤ x → count x s.table.add_queue ≡ 0

  pub record Then (r : Option (Proc d) × Data d) : Type 0 where
    pub balanced : Balanced r.1

  kept : {o : Option (Proc d)} {s : Data d} → Balanced s → Then (o, s)
  kept b = record { balanced = b }

  remove_proc-Balanced :
      (key : List ℕ) (p : Proc d) (s : Data d)
      → find key s.proc_map ≡ some p
      → Balanced s
      → Balanced (remove_proc d key p s)
  unfolding remove_proc
  remove_proc-Balanced key p s e b = record {
    in_or_out = λ x. omega (
      arith,
      b.in_or_out x,
      entries-erase_key x key p s.proc_map e,
      removals_of-append x p.visual.table_item s.table.remove_queue,
    );
    once = b.once;
    fresh = b.fresh;
  }

  module _ (junk : BoidSharedContext d) (junk_item : TableItem d) where
    new_proc-Balanced :
        (key name : List ℕ) (s : Data d)
        → Balanced s
        → Balanced (new_proc d junk junk_item key name s).1
    unfolding new_proc init_boids create_boid entries
    new_proc-Balanced key name s b =
        let n = suc (suc (suc (suc s.next))) in
        let after : (x : ℕ)
            → count x (s.table.add_queue ++ (n ∷ []))
              ≡ count x s.table.add_queue + count x (n ∷ []) =
          λ x. count-append x s.table.add_queue (n ∷ []) in
        record {
          in_or_out = λ x. omega (arith, b.in_or_out x, after x);
          once = λ x. elim (single x n) [
            | inl (e, c) ↦ omega (arith, after x, c, b.fresh x (omega (arith, e)))
            | inr c ↦ omega (arith, after x, c, b.once x)
          ];
          fresh = λ x h. elim (single x n) [
            | inl (e, c) ↦ absurd (omega (arith, e, h))
            | inr c ↦ omega (arith, after x, c, b.fresh x (omega (arith, h)))
          ];
        }

    pub update-Balanced :
        (m : HostMessage d) (s : Data d) → Balanced s → Then (update d junk junk_item m s)
    unfolding update
    update-Balanced m s b =
        let key = create_proc_key m.host_name (or_else 0 m.message.pid) in
        let name = or_else [] m.message.process_name in
        if_lem Then (or_else false m.message.is_terminated)
          (λ _. ended key (find key s.proc_map) refl) (λ _. going key name (find key s.proc_map))
      where
        ended :
            (key : List ℕ) (o : Option (Proc d))
            → find key s.proc_map ≡ o
            → Then (none, elim o [ none ↦ s | some proc ↦ remove_proc d key proc s ])
        ended key none e = kept b
        ended key (some p) e = kept (remove_proc-Balanced key p s e b)

        going :
            (key name : List ℕ) (o : Option (Proc d))
            → Then (elim o [
              | none ↦ (
                some (new_proc d junk junk_item key name s).0,
                (new_proc d junk junk_item key name s).1,
              )
              | some proc ↦ (some proc, s)
            ])
        going key name none = kept (new_proc-Balanced key name s b)
        going key name (some p) = kept b

  -- Another state of a process of the map, with the same boids and entry.
  pub entries-key_changed :
      (x : ℕ) (k : List ℕ) (p q : Proc d) (m : List (List ℕ × Proc d))
      → find k m ≡ some p
      → q.visual ≡ p.visual
      → entries x (key_changed k q m) ≡ entries x m
  unfolding entries key_changed find
  entries-key_changed x k p q [] e v = refl
  entries-key_changed x k p q ((j, r) ∷ m) e v = elim (Bool-cases (key_eq j k)) [
    | inl hit ↦ rw hit (
        ap (λ u. count x (u.table_item ∷ []) + entries x m)
          (v ∙ ap (λ z. z.visual) (sym (proc_inj r p (rw hit at e)))))
    | inr miss ↦ rw miss (
        ap (λ n. count x (r.visual.table_item ∷ []) + n)
          (entries-key_changed x k p q m (rw miss at e) v))
  ]
    where
      proc_inj : (v w : Proc d) → some v ≡ some w → v ≡ w
      proc_inj v w e = cc

  -- The process that an update gives is that of its key.
  abbrev pub Own : List ℕ → Option (Proc d) × Data d → Type 0
  Own key (none, s) = Unit
  Own key (some p, s) = find key s.proc_map ≡ some p

  module _ (junk : BoidSharedContext d) (junk_item : TableItem d) where
    pub update-Own :
        (m : HostMessage d) (s : Data d)
        → Own (create_proc_key m.host_name (or_else 0 m.message.pid)) (update d junk junk_item m s)
    unfolding update new_proc find
    update-Own m s =
        let key = create_proc_key m.host_name (or_else 0 m.message.pid) in
        let name = or_else [] m.message.process_name in
        if_lem (Own key) (or_else false m.message.is_terminated) (λ _. tt)
          (λ _. go key name (find key s.proc_map) refl)
      where
        go :
            (key name : List ℕ) (o : Option (Proc d))
            → find key s.proc_map ≡ o
            → Own key (elim o [
              | none ↦ (
                some (new_proc d junk junk_item key name s).0,
                (new_proc d junk junk_item key name s).1,
              )
              | some proc ↦ (some proc, s)
            ])
        go key name none e = rw (key_eq_refl key) refl
        go key name (some p) e = e
