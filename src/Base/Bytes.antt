-- ===== src/Base/Bytes.antt =====
-- Texts as lists of their bytes, compared as `string::compare` does and printed by a stream.
use Prim.Native.Nat.{ℕ, zero, suc, ◌+◌, ◌/◌, ◌%◌}
use mathlib.Core.Path.{◌≡◌, refl, ap₂}
use mathlib.Core.Logic.{inl, inr}
use mathlib.Core.Bool.{Bool, true, false, ◌&&◌, ◌||◌}
use mathlib.Core.Option.{Option, none, some}
use mathlib.Core.List.{List, [], ◌∷◌, ◌++◌}
use native.Mathlib.Omega.{arith}
use wall_mon.Base.Tests.{◌==◌, ==_iff, ltb, if◌then◌else◌, Bool-cases}

-- `string::compare(...) == 0`, and `< 0`, of bytes.
unfoldable pub key_eq : List ℕ → List ℕ → Bool
key_eq [] [] = true
key_eq [] (y ∷ ys) = false
key_eq (x ∷ xs) [] = false
key_eq (x ∷ xs) (y ∷ ys) = (x == y) && key_eq xs ys

unfoldable pub key_less : List ℕ → List ℕ → Bool
key_less xs [] = false
key_less [] (y ∷ ys) = true
key_less (x ∷ xs) (y ∷ ys) = ltb x y || ((x == y) && key_less xs ys)

abbrev pub or_else : {A : Type 0} → A → Option A → A
or_else a none = a
or_else a (some b) = b

-- A number in decimal digits, `fuel` of them at most.
unfoldable pub decimal : ℕ → ℕ → List ℕ
decimal zero n = []
decimal (suc fuel) n =
    let front : List ℕ = decimal fuel (n / 10) in
    if ltb n 10 then (48 + n) ∷ [] else front ++ ((48 + n % 10) ∷ [])

pub key_eq_refl : (k : List ℕ) → key_eq k k ≡ true
unfolding key_eq
key_eq_refl [] = refl
key_eq_refl (x ∷ k) = ground (arith, key_eq_refl k)

pub differ : {b : Bool} → b ≡ true → b ≡ false → ⊥
differ t f = cc

pub key_eq→eq : (k l : List ℕ) → key_eq k l ≡ true → k ≡ l
unfolding key_eq
key_eq→eq [] [] e = refl
key_eq→eq [] (y ∷ l) e = absurd (cc)
key_eq→eq (x ∷ k) [] e = absurd (cc)
key_eq→eq (x ∷ k) (y ∷ l) e = elim (Bool-cases (x == y)) [
  | inl same ↦ ap₂ (λ z m. z ∷ m) ((==_iff x y).0 same) (key_eq→eq k l (rw same at e))
  | inr other ↦ absurd (differ (rw other at e) refl)
]
