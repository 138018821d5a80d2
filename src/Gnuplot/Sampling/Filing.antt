-- ===== src/Gnuplot/Sampling/Filing.antt =====
-- The maps in which modules/gnuplot/Handler.cpp files what it receives.
use wall_mon.Base.{
  ℕ, suc, ◌+◌, ◌≡◌, refl, ap, arith, Option, none, some, List, [], ◌∷◌, ◌++◌, length, length-append,
  String, ◌==◌, ==_iff, Bool-cases, inl, inr, str_eq, subst,
}
use wall_mon.Base.NatMap
use wall_mon.Base.StrMap
use wall_mon.Gnuplot.Sampling.{file}

some_inj : {A : Type 0} {x y : A} → some x ≡ some y → x ≡ y
some_inj e = cc

module _ {A : Type 0} where
  -- How many values the lists of a map have.
  abbrev pub total : List (ℕ × List A) → ℕ
  total [] = 0
  total ((k, xs) ∷ m) = length xs + total m

  total-insert_new :
      (k : ℕ) (xs : List A) (m : List (ℕ × List A))
      → NatMap.lookup k m ≡ none
      → total (NatMap.insert k xs m) ≡ total m + length xs
  total-insert_new k xs [] e = omega arith
  total-insert_new k xs ((j, ys) ∷ m) e = elim (Bool-cases (j == k)) [
    | inl hit ↦ absurd (let e' : some ys ≡ none = rw hit at e in cc)
    | inr miss ↦ let i = total-insert_new k xs m (rw miss at e) in rw miss (omega (arith, i))
  ]

  total-insert_old :
      (k : ℕ) (ys zs : List A) (m : List (ℕ × List A))
      → NatMap.lookup k m ≡ some ys
      → total (NatMap.insert k zs m) + length ys ≡ total m + length zs
  total-insert_old k ys zs [] e = absurd (cc)
  total-insert_old k ys zs ((j, xs) ∷ m) e = elim (Bool-cases (j == k)) [
    | inl hit ↦
        let l : length xs ≡ length ys = ap length (some_inj (rw hit at e)) in
        rw hit (omega (arith, l))
    | inr miss ↦ let i = total-insert_old k ys zs m (rw miss at e) in rw miss (omega (arith, i))
  ]

  pub total-file : (k : ℕ) (x : A) (m : List (ℕ × List A)) → total (file k x m) ≡ suc (total m)
  unfolding file
  total-file k x m = go (NatMap.lookup k m) refl
    where
      go :
          (o : Option (List A))
          → NatMap.lookup k m ≡ o
          → total (elim o [
            | none ↦ NatMap.insert k (x ∷ []) m
            | some xs ↦ NatMap.insert k (xs ++ (x ∷ [])) m
          ])
            ≡ suc (total m)
      go none e = omega (arith, total-insert_new k (x ∷ []) m e)
      go (some xs) e =
          let l = length-append xs (x ∷ []) in
          omega (arith, total-insert_old k xs (xs ++ (x ∷ [])) m e, l)

  module _ (P : A → ℕ → Type 0) where
    abbrev pub All : ℕ → List A → Type 0
    All k [] = Unit
    All k (x ∷ xs) = P x k × All k xs

    -- Each value stands under a key that it has to do with.
    abbrev pub Filed : List (ℕ × List A) → Type 0
    Filed [] = Unit
    Filed ((k, xs) ∷ m) = All k xs × Filed m

    All-snoc : (k : ℕ) (xs : List A) (x : A) → All k xs → P x k → All k (xs ++ (x ∷ []))
    All-snoc k [] x a p = (p, tt)
    All-snoc k (y ∷ xs) x a p = (a.0, All-snoc k xs x a.1 p)

    lookup-All :
        (k : ℕ) (xs : List A) (m : List (ℕ × List A))
        → Filed m
        → NatMap.lookup k m ≡ some xs
        → All k xs
    lookup-All k xs [] f e = absurd (cc)
    lookup-All k xs ((j, ys) ∷ m) f e = elim (Bool-cases (j == k)) [
      | inl hit ↦
          subst (λ l. All k l) (some_inj (rw hit at e))
            (subst (λ i. All i ys) ((==_iff j k).0 hit) f.0)
      | inr miss ↦ lookup-All k xs m f.1 (rw miss at e)
    ]

    insert-Filed :
        (k : ℕ) (xs : List A) (m : List (ℕ × List A))
        → All k xs
        → Filed m
        → Filed (NatMap.insert k xs m)
    insert-Filed k xs [] a f = (a, tt)
    insert-Filed k xs ((j, ys) ∷ m) a f = elim (Bool-cases (j == k)) [
      | inl hit ↦ rw hit (a, f.1)
      | inr miss ↦ rw miss (f.0, insert-Filed k xs m a f.1)
    ]

    pub file-Filed : (k : ℕ) (x : A) (m : List (ℕ × List A)) → P x k → Filed m → Filed (file k x m)
    unfolding file
    file-Filed k x m p f = go (NatMap.lookup k m) refl
      where
        go :
            (o : Option (List A))
            → NatMap.lookup k m ≡ o
            → Filed (elim o [
              | none ↦ NatMap.insert k (x ∷ []) m
              | some xs ↦ NatMap.insert k (xs ++ (x ∷ [])) m
            ])
        go none e = insert-Filed k (x ∷ []) m (p, tt) f
        go (some xs) e =
            insert-Filed k (xs ++ (x ∷ [])) m (All-snoc k xs x (lookup-All k xs m f e) p) f

pub length-insert :
    {V : Type 0} (k : String) (v w : V) (m : List (String × V))
    → StrMap.lookup k m ≡ some w
    → length (StrMap.insert k v m) ≡ length m
length-insert k v w [] e = absurd (cc)
length-insert k v w ((j, u) ∷ m) e = elim (Bool-cases (str_eq j k)) [
  | inl hit ↦ rw hit refl
  | inr miss ↦ rw miss (ap suc (length-insert k v w m (rw miss at e)))
]
