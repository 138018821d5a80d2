-- ===== src/Base/Slice.antt =====
-- A C array is a list; `slice a i n` is what a pointer to `a[i]` shows in its next `n` places.
use Prim.Native.Nat.{ℕ, zero, suc, ◌+◌, ◌≤◌, ◌<◌}
use mathlib.Core.Path.{◌≡◌, refl, ap}
use mathlib.Core.List.{List, [], ◌∷◌, ◌++◌}
use native.Mathlib.Omega.{arith}
use wall_mon.Base.Lists.{length, get_or, set, take, drop}

abbrev pub slice {ℓ} : {A : Type ℓ} → List A → ℕ → ℕ → List A
slice a i n = take n (drop i a)

-- `memcpy(a + i, xs, length xs)`, or a system call that fills a buffer.
module _ {ℓ} {A : Type ℓ} where
  abbrev pub write : List A → ℕ → List A → List A
  write [] i xs = []
  write (y ∷ a) zero [] = y ∷ a
  write (y ∷ a) zero (x ∷ xs) = x ∷ write a zero xs
  write (y ∷ a) (suc i) xs = y ∷ write a i xs

-- `new char[n]`: nothing is known of the bytes, so they are a function of their place.
abbrev pub allocate : (ℕ → ℕ) → ℕ → List ℕ
allocate junk zero = []
allocate junk (suc n) = junk n ∷ allocate junk n

pub length-allocate : (junk : ℕ → ℕ) (n : ℕ) → length (allocate junk n) ≡ n
length-allocate junk zero = refl
length-allocate junk (suc n) = ap suc (length-allocate junk n)

module _ {ℓ} {A : Type ℓ} where
  pub length-write : (a : List A) (i : ℕ) (xs : List A) → length (write a i xs) ≡ length a
  length-write [] i xs = refl
  length-write (y ∷ a) zero [] = refl
  length-write (y ∷ a) zero (x ∷ xs) = ap suc (length-write a zero xs)
  length-write (y ∷ a) (suc i) xs = ap suc (length-write a i xs)

  pub take-write :
      (a : List A) (n k : ℕ) (xs : List A)
      → k ≡ n + length xs
      → k ≤ length a
      → take k (write a n xs) ≡ take n a ++ xs
  take-write [] zero zero [] e h = refl
  take-write [] zero zero (x ∷ xs) e h = absurd (omega arith)
  take-write [] (suc n) zero xs e h = absurd (omega arith)
  take-write [] n (suc k) xs e h = absurd (omega arith)
  take-write (y ∷ a) zero zero [] e h = refl
  take-write (y ∷ a) zero zero (x ∷ xs) e h = absurd (omega arith)
  take-write (y ∷ a) zero (suc k) [] e h = absurd (omega arith)
  take-write (y ∷ a) zero (suc k) (x ∷ xs) e h =
      ap (λ r. x ∷ r) (take-write a zero k xs (omega arith) (omega arith))
  take-write (y ∷ a) (suc n) zero xs e h = absurd (omega arith)
  take-write (y ∷ a) (suc n) (suc k) xs e h =
      ap (λ r. y ∷ r) (take-write a n k xs (omega arith) (omega arith))

  pub drop-write :
      (i : ℕ) (a : List A) (n j : ℕ) (xs : List A)
      → j ≡ i + n
      → drop i (write a j xs) ≡ write (drop i a) n xs
  drop-write zero a n j xs e = ap (λ t. write a t xs) (omega arith)
  drop-write (suc i) [] n j xs e = refl
  drop-write (suc i) (y ∷ a) n zero xs e = absurd (omega arith)
  drop-write (suc i) (y ∷ a) n (suc j) xs e = drop-write i a n j xs (omega arith)

  pub drop-drop : (i : ℕ) (a : List A) (m k : ℕ) → k ≡ i + m → drop m (drop i a) ≡ drop k a
  drop-drop zero a m k e = ap (λ t. drop t a) (omega arith)
  drop-drop (suc i) [] zero zero e = refl
  drop-drop (suc i) [] zero (suc k) e = refl
  drop-drop (suc i) [] (suc m) zero e = refl
  drop-drop (suc i) [] (suc m) (suc k) e = refl
  drop-drop (suc i) (y ∷ a) m zero e = absurd (omega arith)
  drop-drop (suc i) (y ∷ a) m (suc k) e = drop-drop i a m k (omega arith)

  pub take-take : (m n : ℕ) (a : List A) → m ≤ n → take m (take n a) ≡ take m a
  take-take zero n a h = refl
  take-take (suc m) zero a h = absurd (omega arith)
  take-take (suc m) (suc n) [] h = refl
  take-take (suc m) (suc n) (x ∷ a) h = ap (λ r. x ∷ r) (take-take m n a (omega arith))

  pub drop-take : (m n k : ℕ) (a : List A) → n ≡ m + k → drop m (take n a) ≡ take k (drop m a)
  drop-take zero n k a e = ap (λ t. take t a) (omega arith)
  drop-take (suc m) zero k a e = absurd (omega arith)
  drop-take (suc m) (suc n) zero [] e = refl
  drop-take (suc m) (suc n) (suc k) [] e = refl
  drop-take (suc m) (suc n) k (x ∷ a) e = drop-take m n k a (omega arith)

  pub take-set :
      (a : List A) (i : ℕ) (v : A) → i < length a → take (suc i) (set a i v) ≡ take i a ++ (v ∷ [])
  take-set [] i v h = absurd (omega arith)
  take-set (x ∷ a) zero v h = refl
  take-set (x ∷ a) (suc i) v h = ap (λ r. x ∷ r) (take-set a i v (omega arith))

  pub drop-set : (j : ℕ) (a : List A) (i : ℕ) (v : A) → i < j → drop j (set a i v) ≡ drop j a
  drop-set zero a i v h = absurd (omega arith)
  drop-set (suc j) [] i v h = refl
  drop-set (suc j) (x ∷ a) zero v h = refl
  drop-set (suc j) (x ∷ a) (suc i) v h = drop-set j a i v (omega arith)

  pub drop-cons :
      (i : ℕ) (a : List A) (d : A) → i < length a → drop i a ≡ get_or a i d ∷ drop (suc i) a
  drop-cons i [] d h = absurd (omega arith)
  drop-cons zero (x ∷ a) d h = refl
  drop-cons (suc i) (x ∷ a) d h = drop-cons i a d (omega arith)
