-- ===== src/Stat/Extremes.antt =====
-- The minima and maxima of lib/Stat.h.
use wall_mon.Base.{
  ℕ, ◌≡◌, refl, sym, ap, ◌∙◌, inl, inr, true, false, some, List, [], ◌∷◌, Bool-cases, subst,
  if◌then◌else◌, ◌⊎◌,
}
use wall_mon.Base.Double.{Double}
use wall_mon.Stat.{Stat, nth, min_from, max_from, min_of, max_of, min_val, max_val}

-- What holds of comparing doubles that are no NaN.
pub record Ordered (d : Double) : Type 0 where
  pub irreflexive : (a : d.Num) → d.lt a a ≡ false
  pub asymmetric : (a b : d.Num) → d.lt a b ≡ true → d.lt b a ≡ false
  pub not_less_trans : (a b c : d.Num) → d.lt b a ≡ false → d.lt c b ≡ false → d.lt c a ≡ false

module _ (d : Double) (o : Ordered d) where
  abbrev pub In : d.Num → List d.Num → Type 0
  In x [] = ⊥
  In x (y ∷ ys) = (x ≡ y) ⊎ In x ys

  -- `m` is one of the values, and none is less.
  abbrev pub IsLeast : d.Num → List d.Num → Type 0
  IsLeast m xs = In m xs × ((x : d.Num) → In x xs → d.lt x m ≡ false)

  abbrev pub IsGreatest : d.Num → List d.Num → Type 0
  IsGreatest m xs = In m xs × ((x : d.Num) → In x xs → d.lt m x ≡ false)

  head-IsLeast : (m : d.Num) → IsLeast m (m ∷ [])
  head-IsLeast m = (inl refl, λ x i. elim i [ inl e ↦ rw e (o.irreflexive m) | inr n ↦ absurd n ])

  -- One more value, which is not less than the least of them: it is in the way of none.
  more-IsLeast :
      (m y z : d.Num) (xs : List d.Num)
      → d.lt y z ≡ false
      → IsLeast m (z ∷ xs)
      → (x : d.Num) → (x ≡ y) ⊎ In x (z ∷ xs)
      → d.lt x m ≡ false
  more-IsLeast m y z xs h l x (inl e) = rw e (o.not_less_trans m z y (l.1 z (inl refl)) h)
  more-IsLeast m y z xs h l x (inr i) = l.1 x i

  min_from-IsLeast : (least : d.Num) (xs : List d.Num) → IsLeast (min_from d least xs) (least ∷ xs)
  unfolding min_from
  min_from-IsLeast least [] = head-IsLeast least
  min_from-IsLeast least (y ∷ xs) = elim (Bool-cases (d.lt y least)) [
    | inl lt ↦
        let l = min_from-IsLeast y xs in
        subst (λ m. IsLeast m (least ∷ y ∷ xs))
          (sym (ap (λ b. min_from d (if b then y else least) xs) lt))
          (inr l.0, more-IsLeast (min_from d y xs) least y xs (o.asymmetric y least lt) l)
    | inr ge ↦
        let l = min_from-IsLeast least xs in
        subst (λ m. IsLeast m (least ∷ y ∷ xs))
          (sym (ap (λ b. min_from d (if b then y else least) xs) ge))
          (
            skip least y (min_from d least xs) xs l.0,
            λ x i. more-IsLeast (min_from d least xs) y least xs ge l x (swap least y x xs i),
          )
  ]
    where
      skip : (least y m : d.Num) (xs : List d.Num) → In m (least ∷ xs) → In m (least ∷ y ∷ xs)
      skip least y m xs (inl e) = inl e
      skip least y m xs (inr i) = inr (inr i)

      swap :
          (least y x : d.Num) (xs : List d.Num)
          → In x (least ∷ y ∷ xs)
          → (x ≡ y) ⊎ In x (least ∷ xs)
      swap least y x xs (inl e) = inr (inl e)
      swap least y x xs (inr (inl e)) = inl e
      swap least y x xs (inr (inr i)) = inr (inr i)

  -- On doubles that are no NaN, `MinVal` of a sample that is there and not empty returns one of its
  -- values, than which none is less.
  pub min_val-IsLeast :
      (i : ℕ) (s : Stat d.Num) (x : d.Num) (xs : List d.Num)
      → nth i s.samples ≡ some (x ∷ xs)
      → (m : d.Num) × (min_val d i s ≡ some m) × IsLeast m (x ∷ xs)
  unfolding min_val min_of
  min_val-IsLeast i s x xs e = (min_from d x xs, rw (e, min_val) refl, min_from-IsLeast x xs)

-- The doubles in the other order, in which a maximum is a minimum.
abbrev dual : Double → Double
dual d = record d { lt = λ a b. d.lt b a }

dual-Ordered : (d : Double) → Ordered d → Ordered (dual d)
dual-Ordered d o = record {
  irreflexive = o.irreflexive;
  asymmetric = λ a b. o.asymmetric b a;
  not_less_trans = λ a b c h k. o.not_less_trans c b a k h;
}

max_from-dual :
    (d : Double) (most : d.Num) (xs : List d.Num) → max_from d most xs ≡ min_from (dual d) most xs
unfolding max_from min_from
max_from-dual d most [] = refl
max_from-dual d most (x ∷ xs) = max_from-dual d (if d.lt most x then x else most) xs

max_of-dual : (d : Double) (xs : List d.Num) → max_of d xs ≡ min_of (dual d) xs
unfolding max_of min_of
max_of-dual d [] = refl
max_of-dual d (x ∷ xs) = ap some (max_from-dual d x xs)

-- On doubles that are no NaN, `MaxVal` of a sample that is there and not empty returns one of its
-- values, than which none is greater.
pub max_val-IsGreatest :
    (d : Double) (o : Ordered d) (i : ℕ) (s : Stat d.Num) (x : d.Num) (xs : List d.Num)
    → nth i s.samples ≡ some (x ∷ xs)
    → (m : d.Num) × (max_val d i s ≡ some m) × IsGreatest d o m (x ∷ xs)
unfolding max_val min_val
max_val-IsGreatest d o i s x xs e =
    let (m, e1, l) = min_val-IsLeast (dual d) (dual-Ordered d o) i s x xs e in
    (m, rw (e, max_val) (max_of-dual d (x ∷ xs) ∙ (rw (e, min_val) at e1)), l)
