-- ===== src/Barchart/Top.antt =====
-- Which processes `_UpdateBarChart` of modules/barchart/Handler.cpp shows.
use wall_mon.Base.{
  suc, ◌+◌, ◌≤◌, ◌<◌, ◌≡◌, refl, sym, ap, ◌∙◌, arith, false, List, [], ◌∷◌, length, min, ltb, ◌⊎◌,
  inl, inr, if_lem, subst,
}
use wall_mon.Base.Double.{Double}
use wall_mon.Stat.Extremes.{Ordered}
use wall_mon.Barchart.{BarData, load, push_heap, replace_min, keep_greatest, find_greatest}

module _ (d : Double) where
  abbrev pub In : BarData d → List (BarData d) → Type 0
  In x [] = ⊥
  In x (y ∷ ys) = (x ≡ y) ⊎ In x ys

  -- None of the bars has a smaller load.
  abbrev pub AllAbove : BarData d → List (BarData d) → Type 0
  AllAbove x ys = (y : BarData d) → In y ys → d.lt (load d y) (load d x) ≡ false

  abbrev Ascending : List (BarData d) → Type 0
  Ascending [] = Unit
  Ascending (y ∷ ys) = AllAbove y ys × Ascending ys

  module _ (o : Ordered d) where
    trans :
        (x y z : BarData d)
        → d.lt (load d y) (load d x) ≡ false
        → d.lt (load d z) (load d y) ≡ false
        → d.lt (load d z) (load d x) ≡ false
    trans x y z h k = o.not_less_trans (load d x) (load d y) (load d z) h k

    -- A bar in a heap is the new one or an old one, and both are in it.
    record Pushed (b : BarData d) (heap new : List (BarData d)) : Type 0 where
      from : (z : BarData d) → In z new → (z ≡ b) ⊎ In z heap
      has_new : In b new
      has_old : (z : BarData d) → In z heap → In z new
      one_more : length new ≡ suc (length heap)
      ordered : Ascending heap → Ascending new

    push_heap-Pushed :
        (b : BarData d) (heap : List (BarData d)) → Pushed b heap (push_heap d b heap)
    unfolding push_heap
    push_heap-Pushed b [] = record {
      from = λ z i. i;
      has_new = inl refl;
      has_old = λ z i. absurd i;
      one_more = refl;
      ordered = λ a. ((λ y i. absurd i), tt);
    }
    push_heap-Pushed b (c ∷ heap) =
        let p = push_heap-Pushed b heap in
        if_lem (Pushed b (c ∷ heap)) (d.lt (load d c) (load d b))
          (λ less. record {
            from = λ z i. elim i [
              | inl e ↦ inr (inl e)
              | inr j ↦ elim (p.from z j) [ inl e ↦ inl e | inr k ↦ inr (inr k) ]
            ];
            has_new = inr p.has_new;
            has_old = λ z i. elim i [ inl e ↦ inl e | inr j ↦ inr (p.has_old z j) ];
            one_more = ap suc p.one_more;
            ordered = λ a. (
              λ y i. elim (p.from y i) [
                | inl e ↦
                    subst (λ x. d.lt (load d x) (load d c) ≡ false) (sym e)
                      (o.asymmetric (load d c) (load d b) less)
                | inr j ↦ a.0 y j
              ],
              p.ordered a.1,
            );
          })
          (λ more. record {
            from = λ z i. i;
            has_new = inl refl;
            has_old = λ z i. inr i;
            one_more = refl;
            ordered = λ a. (
              λ y i. elim i [
                | inl e ↦ subst (λ x. d.lt (load d x) (load d b) ≡ false) (sym e) more
                | inr j ↦ trans b c y more (a.0 y j)
              ],
              a,
            );
          })

    -- The heap when the bars `seen` have been looked at.
    record Top (seen heap : List (BarData d)) : Type 0 where
      ascending : Ascending heap
      only : (z : BarData d) → In z heap → In z seen
      size : length heap ≡ min 7 (length seen)
      greatest : (z : BarData d) → In z seen → In z heap ⊎ ((7 ≤ length heap) × AllAbove z heap)

    -- There is room for one more.
    push-Top :
        (b : BarData d) (seen heap : List (BarData d))
        → length heap < 7
        → Top seen heap
        → Top (b ∷ seen) (push_heap d b heap)
    push-Top b seen heap room t =
        let p = push_heap-Pushed b heap in
        record {
          ascending = p.ordered t.ascending;
          only = λ z i. elim (p.from z i) [ inl e ↦ inl e | inr j ↦ inr (t.only z j) ];
          size = omega (arith, p.one_more, t.size, room);
          greatest = λ z i. elim i [
            | inl e ↦ inl (subst (λ x. In x (push_heap d b heap)) (sym e) p.has_new)
            | inr j ↦ elim (t.greatest z j) [
              | inl k ↦ inl (p.has_old z k)
              | inr (full, above) ↦ absurd (omega (arith, full, room))
            ]
          ];
        }

    -- There is none: the least one goes, or the new one.
    replace-Top :
        (b : BarData d) (seen heap : List (BarData d))
        → 7 ≤ length heap
        → Top seen heap
        → Top (b ∷ seen) (replace_min d b heap)
    unfolding replace_min
    replace-Top b seen [] full t = absurd (omega (arith, full))
    replace-Top b seen (m ∷ heap) full t =
        let p = push_heap-Pushed b heap in
        if_lem (Top (b ∷ seen)) (d.lt (load d m) (load d b))
          (λ less.
            let above : AllAbove m (push_heap d b heap) = λ y i. elim (p.from y i) [
              | inl e ↦
                  subst (λ x. d.lt (load d x) (load d m) ≡ false) (sym e)
                    (o.asymmetric (load d m) (load d b) less)
              | inr j ↦ t.ascending.0 y j
            ] in
            let full' : 7 ≤ length (push_heap d b heap) = omega (arith, p.one_more, full) in
            record {
              ascending = p.ordered t.ascending.1;
              only = λ z i. elim (p.from z i) [ inl e ↦ inl e | inr j ↦ inr (t.only z (inr j)) ];
              size = omega (arith, p.one_more, t.size, full);
              greatest = λ z i. elim i [
                | inl e ↦ inl (subst (λ x. In x (push_heap d b heap)) (sym e) p.has_new)
                | inr j ↦ elim (t.greatest z j) [
                  | inl (inl e) ↦
                      inr (full', subst (λ x. AllAbove x (push_heap d b heap)) (sym e) above)
                  | inl (inr k) ↦ inl (p.has_old z k)
                  | inr (f, a) ↦ inr (full', λ y i'. trans z m y (a m (inl refl)) (above y i'))
                ]
              ];
            })
          (λ more. record {
            ascending = t.ascending;
            only = λ z i. inr (t.only z i);
            size = omega (arith, t.size, full);
            greatest = λ z i. elim i [
              | inl e ↦ inr (
                full,
                subst (λ x. AllAbove x (m ∷ heap)) (sym e)
                    (λ y i'. elim i' [
                      | inl e' ↦ subst (λ x. d.lt (load d x) (load d b) ≡ false) (sym e') more
                      | inr j ↦ trans b m y more (t.ascending.0 y j)
                    ]),
              )
              | inr j ↦ t.greatest z j
            ];
          })

    keep_greatest-Top :
        (b : BarData d) (seen heap : List (BarData d))
        → Top seen heap
        → Top (b ∷ seen) (keep_greatest d b heap)
    unfolding keep_greatest
    keep_greatest-Top b seen heap t =
        if_lem (Top (b ∷ seen)) (ltb (length heap + 1) 8)
          (λ room. push-Top b seen heap (ground (arith, room)) t)
          (λ full. replace-Top b seen heap (ground (arith, full)) t)

    -- All of the bars, the last one in front.
    abbrev onto : List (BarData d) → List (BarData d) → List (BarData d)
    onto [] seen = seen
    onto (b ∷ bs) seen = onto bs (b ∷ seen)

    find_greatest-Top :
        (bs seen heap : List (BarData d))
        → Top seen heap
        → Top (onto bs seen) (find_greatest d bs heap)
    unfolding find_greatest
    find_greatest-Top [] seen heap t = t
    find_greatest-Top (b ∷ bs) seen heap t =
        find_greatest-Top bs (b ∷ seen) (keep_greatest d b heap) (keep_greatest-Top b seen heap t)

    length-onto : (bs seen : List (BarData d)) → length (onto bs seen) ≡ length bs + length seen
    length-onto [] seen = omega arith
    length-onto (b ∷ bs) seen = omega (arith, length-onto bs (b ∷ seen))

    onto-keeps : (bs seen : List (BarData d)) (z : BarData d) → In z seen → In z (onto bs seen)
    onto-keeps [] seen z i = i
    onto-keeps (b ∷ bs) seen z i = onto-keeps bs (b ∷ seen) z (inr i)

    onto-has : (bs seen : List (BarData d)) (z : BarData d) → In z bs → In z (onto bs seen)
    onto-has [] seen z i = absurd i
    onto-has (b ∷ bs) seen z (inl e) = onto-keeps bs (b ∷ seen) z (inl e)
    onto-has (b ∷ bs) seen z (inr i) = onto-has bs (b ∷ seen) z i

    onto-only :
        (bs seen : List (BarData d)) (z : BarData d) → In z (onto bs seen) → In z bs ⊎ In z seen
    onto-only [] seen z i = inr i
    onto-only (b ∷ bs) seen z i = elim (onto-only bs (b ∷ seen) z i) [
      | inl j ↦ inl (inr j)
      | inr (inl e) ↦ inl (inl e)
      | inr (inr j) ↦ inr j
    ]

    -- On doubles that are no NaN, of the bars of any processes the loop keeps all, if they are seven
    -- or less, and else seven; it keeps none but those; and a bar that it does not keep has no
    -- greater load than any that it keeps.
    pub find_greatest_lem :
        (bs : List (BarData d))
        → (length (find_greatest d bs []) ≡ min 7 (length bs))
          × ((z : BarData d) → In z (find_greatest d bs []) → In z bs)
          × ((z : BarData d)
              → In z bs
              → In z (find_greatest d bs []) ⊎ AllAbove z (find_greatest d bs []))
    find_greatest_lem bs =
        let t = find_greatest-Top bs [] [] start in
        (
          t.size ∙ ap (min 7) (length-onto bs [] ∙ omega arith),
          λ z i. elim (onto-only bs [] z (t.only z i)) [ inl j ↦ j | inr n ↦ absurd n ],
          λ z i. elim (t.greatest z (onto-has bs [] z i)) [ inl j ↦ inl j | inr (f, a) ↦ inr a ],
        )
      where
        start : Top [] []
        start = record { ascending = tt; only = λ z i. i; size = refl; greatest = λ z i. absurd i }
