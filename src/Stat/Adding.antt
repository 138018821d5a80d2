-- ===== src/Stat/Adding.antt =====
-- What `Add` of lib/Stat.h changes.
use wall_mon.Base.{
  ℕ, zero, suc, ◌+◌, ◌<◌, ◌≡◌, refl, sym, ap, ◌∙◌, arith, some, List, [], ◌∷◌, ◌++◌, length,
  length-append, pos,
}
use wall_mon.Base.Double.{Double}
use wall_mon.Stat.{Stat, nth, add, add_last, num_samples_total, total_length, sum_from, sum_of, sum}

module _ (d : Double) where
  sum_from-snoc :
      (acc v : d.Num) (xs : List d.Num)
      → sum_from d acc (xs ++ (v ∷ [])) ≡ d.add (sum_from d acc xs) v
  unfolding sum_from
  sum_from-snoc acc v [] = refl
  sum_from-snoc acc v (x ∷ xs) = sum_from-snoc (d.add acc x) v xs

  -- The samples `r` have come to `t` by a value for the last of them.
  record Added (v : d.Num) (r t : List (List d.Num)) : Type 0 where
    before : List (List d.Num)
    last : List d.Num
    was : r ≡ before ++ (last ∷ [])
    now : t ≡ before ++ ((last ++ (v ∷ [])) ∷ [])

  add_last-Added :
      (v : d.Num) (xs : List d.Num) (r : List (List d.Num))
      → (t : List (List d.Num)) × (add_last v (xs ∷ r) ≡ some t) × Added v (xs ∷ r) t
  unfolding add_last
  add_last-Added v xs [] = (_, refl, record { before = []; last = xs; was = refl; now = refl })
  add_last-Added v xs (ys ∷ r) =
      let (t, e, a) = add_last-Added v ys r in
      (
        xs ∷ t,
        rw (e, add_last) refl,
        record {
          before = xs ∷ a.before;
          last = a.last;
          was = ap (λ l. xs ∷ l) a.was;
          now = ap (λ l. xs ∷ l) a.now;
        },
      )

  nth-last : {A : Type 0} (xs : List A) (x : A) → nth (length xs) (xs ++ (x ∷ [])) ≡ some x
  nth-last [] x = refl
  nth-last (y ∷ xs) x = nth-last xs x

  nth-before :
      {A : Type 0} (i : ℕ) (xs : List A) (x : A) → i < length xs → nth i (xs ++ (x ∷ [])) ≡ nth i xs
  nth-before i [] x h = absurd (omega arith)
  nth-before zero (y ∷ xs) x h = refl
  nth-before (suc i) (y ∷ xs) x h = nth-before i xs x (omega arith)

  total_length-snoc :
      (r : List (List d.Num)) (xs : List d.Num)
      → total_length (r ++ (xs ∷ [])) ≡ total_length r + length xs
  unfolding total_length
  total_length-snoc [] xs = omega arith
  total_length-snoc (ys ∷ r) xs = omega (arith, total_length-snoc r xs)

  -- Once there is a sample, `Add` of a value returns: one value more in total, the sum of the last
  -- sample is the one before plus the value, and all other samples are as before.
  add_lem :
      (v : d.Num) (xs : List d.Num) (r : List (List d.Num))
      → let s : Stat d.Num = record { samples = xs ∷ r } in
        (t : Stat d.Num) × (add v s ≡ some t)
        × (num_samples_total t ≡ num_samples_total s + 1)
        × ((old : d.Num) × (sum d (length r) s ≡ some old)
            × (sum d (length r) t ≡ some (d.add old v)))
        × ((i : ℕ) → i < length r → nth i t.samples ≡ nth i s.samples)
  unfolding add num_samples_total sum sum_of
  add_lem v xs r =
      let (t, e, a) = add_last-Added v xs r in
      let n : length r ≡ length a.before =
        omega (arith, ap length a.was, length-append a.before (a.last ∷ [])) in
      (
        record { samples = t },
        rw (e, add) refl,
        ap total_length a.now
            ∙ omega (
              arith,
              total_length-snoc a.before (a.last ++ (v ∷ [])),
              total_length-snoc a.before a.last,
              ap total_length a.was,
              length-append a.last (v ∷ []),
            ),
        (
          sum_of d a.last,
          rw (n, a.was) (rw (nth-last a.before a.last) refl),
          rw (n, a.now)
              (rw (nth-last a.before (a.last ++ (v ∷ [])))
                (ap some (sum_from-snoc (d.num (pos 0)) v a.last))),
        ),
        λ i h.
            ap (nth i) a.now
            ∙ nth-before i a.before (a.last ++ (v ∷ [])) (omega (arith, n))
            ∙ sym (ap (nth i) a.was ∙ nth-before i a.before a.last (omega (arith, n))),
      )
