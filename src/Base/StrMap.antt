-- ===== src/Base/StrMap.antt =====
-- `std::map<string, V>` as an association list with at most one entry for a key.
use mathlib.Core.Path.{◌≡◌, refl, subst}
use mathlib.Core.Logic.{inl, inr}
use mathlib.Core.Bool.{true}
use mathlib.Core.Option.{Option, none, some}
use mathlib.Core.List.{List, [], ◌∷◌}
use Prim.Native.String.{String}
use native.Mathlib.Omega.{arith}
use wall_mon.Base.Tests.{str_eq, str_eq_iff, Bool-cases, if◌then◌else◌}

module _ {ℓ} {V : Type ℓ} where
  -- `find`, `count` and reading `m[key]`.
  abbrev pub lookup : String → List (String × V) → Option V
  lookup k [] = none
  lookup k ((j, v) ∷ m) = if str_eq j k then some v else lookup k m

  -- `m[key] = v`.
  abbrev pub insert : String → V → List (String × V) → List (String × V)
  insert k v [] = (k, v) ∷ []
  insert k v ((j, w) ∷ m) = if str_eq j k then (k, v) ∷ m else (j, w) ∷ insert k v m

  -- `m.erase(key)`.
  abbrev pub erase : String → List (String × V) → List (String × V)
  erase k [] = []
  erase k ((j, v) ∷ m) = if str_eq j k then erase k m else (j, v) ∷ erase k m

  pub lookup-insert :
      (k j : String) (v : V) (m : List (String × V))
      → lookup j (insert k v m) ≡ (if str_eq k j then some v else lookup j m)
  lookup-insert k j v [] = refl
  lookup-insert k j v ((i, w) ∷ m) =
      ground (arith, str_eq_iff k j, str_eq_iff i k, str_eq_iff i j, lookup-insert k j v m)

  pub lookup-erase :
      (k j : String) (m : List (String × V))
      → lookup j (erase k m) ≡ (if str_eq k j then none else lookup j m)
  lookup-erase k j [] = ground arith
  lookup-erase k j ((i, w) ∷ m) =
      ground (arith, str_eq_iff k j, str_eq_iff i k, str_eq_iff i j, lookup-erase k j m)

some_inj {ℓ} : {V : Type ℓ} (v w : V) → some v ≡ some w → v ≡ w
some_inj v w e = cc

module _ {ℓ κ} {V : Type ℓ} (P : V → Type κ) where
  -- Every value of the map satisfies `P`.
  abbrev pub AllValues : List (String × V) → Type κ
  AllValues [] = Unit
  AllValues ((j, v) ∷ m) = P v × AllValues m

  pub lookup-AllValues :
      (k : String) (m : List (String × V)) {v : V} → AllValues m → lookup k m ≡ some v → P v
  lookup-AllValues k [] a e = absurd (cc)
  lookup-AllValues k ((j, w) ∷ m) {v} a e = elim (Bool-cases (str_eq j k)) [
    | inl hit ↦ subst P (some_inj w v (rw hit at e)) a.0
    | inr miss ↦ lookup-AllValues k m a.1 (rw miss at e)
  ]

  pub insert-AllValues :
      (k : String) (v : V) (m : List (String × V)) → P v → AllValues m → AllValues (insert k v m)
  insert-AllValues k v [] p a = (p, tt)
  insert-AllValues k v ((j, w) ∷ m) p a = elim (Bool-cases (str_eq j k)) [
    | inl hit ↦ rw hit (p, a.1)
    | inr miss ↦ rw miss (a.0, insert-AllValues k v m p a.1)
  ]

  pub erase-AllValues : (k : String) (m : List (String × V)) → AllValues m → AllValues (erase k m)
  erase-AllValues k [] a = tt
  erase-AllValues k ((j, w) ∷ m) a = elim (Bool-cases (str_eq j k)) [
    | inl hit ↦ rw hit (erase-AllValues k m a.1)
    | inr miss ↦ rw miss (a.0, erase-AllValues k m a.1)
  ]

pub str_eq_refl : (k : String) → str_eq k k ≡ true
str_eq_refl k = (str_eq_iff k k).1 refl
