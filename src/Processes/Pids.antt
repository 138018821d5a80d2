-- ===== src/Processes/Pids.antt =====
-- lib/PidMonitor.cpp: which processes are new. `System::GetAllPids` is an argument, a list of pids
-- in any order; `sort` and `set_difference` are the algorithms of the C++ library.
use wall_mon.Base.{
  ℕ, zero, suc, ◌+◌, ◌-◌, ◌≤◌, ◌<◌, ◌≡◌, refl, ◌∙◌, arith, List, [], ◌∷◌, length, ltb, leb,
  if◌then◌else◌, Bool-cases, ltb→lt, ltb→ge, inl, inr,
}
use wall_mon.Base.Counts.{count}

pub record PidMonitor : Type 0 where
  pub new_pids : List ℕ
  pub old_pids : List ℕ

unfoldable pub init : PidMonitor
init = record { new_pids = []; old_pids = [] }

unfoldable pub insert_sorted : ℕ → List ℕ → List ℕ
insert_sorted x [] = x ∷ []
insert_sorted x (y ∷ ys) = if leb x y then x ∷ y ∷ ys else y ∷ insert_sorted x ys

-- `sort(_new->begin(), _new->end())`.
unfoldable pub sort : List ℕ → List ℕ
sort [] = []
sort (x ∷ xs) = insert_sorted x (sort xs)

unfoldable pub update : List ℕ → PidMonitor → PidMonitor
update pids m = record { new_pids = sort pids; old_pids = m.new_pids }

-- `set_difference` of two sorted ranges: one pass over both, with fuel for their lengths.
unfoldable pub set_difference : ℕ → List ℕ → List ℕ → List ℕ
set_difference zero xs ys = []
set_difference (suc fuel) [] ys = []
set_difference (suc fuel) (x ∷ xs) [] = x ∷ xs
set_difference (suc fuel) (x ∷ xs) (y ∷ ys) =
    let keep : List ℕ = set_difference fuel xs (y ∷ ys) in
    let drop_both : List ℕ = set_difference fuel xs ys in
    let drop_old : List ℕ = set_difference fuel (x ∷ xs) ys in
    if ltb x y then x ∷ keep else (if ltb y x then drop_old else drop_both)

unfoldable pub get_difference : PidMonitor → List ℕ
get_difference m = set_difference (length m.new_pids + length m.old_pids + 1) m.new_pids m.old_pids

-- `lo` and what follows is in order.
abbrev pub SortedFrom : ℕ → List ℕ → Type 0
SortedFrom lo [] = Unit
SortedFrom lo (x ∷ xs) = (lo ≤ x) × SortedFrom x xs

SortedFrom-weaken : (lo hi : ℕ) (xs : List ℕ) → lo ≤ hi → SortedFrom hi xs → SortedFrom lo xs
SortedFrom-weaken lo hi [] h s = tt
SortedFrom-weaken lo hi (x ∷ xs) h s = (omega (arith, s.0), s.1)

insert_sorted-SortedFrom :
    (lo x : ℕ) (xs : List ℕ) → lo ≤ x → SortedFrom lo xs → SortedFrom lo (insert_sorted x xs)
unfolding insert_sorted
insert_sorted-SortedFrom lo x [] h s = (h, tt)
insert_sorted-SortedFrom lo x (y ∷ ys) h s = elim (Bool-cases (leb x y)) [
  | inl le ↦ rw le (h, (ground arith, s.1))
  | inr gt ↦ rw gt (s.0, insert_sorted-SortedFrom y x ys (ground arith) s.1)
]

sort-SortedFrom : (xs : List ℕ) → SortedFrom 0 (sort xs)
unfolding sort
sort-SortedFrom [] = tt
sort-SortedFrom (x ∷ xs) = insert_sorted-SortedFrom 0 x (sort xs) (omega arith) (sort-SortedFrom xs)

count-insert_sorted : (p x : ℕ) (xs : List ℕ) → count p (insert_sorted x xs) ≡ count p (x ∷ xs)
unfolding insert_sorted count
count-insert_sorted p x [] = refl
count-insert_sorted p x (y ∷ ys) = ground (arith, count-insert_sorted p x ys)

count-sort : (p : ℕ) (xs : List ℕ) → count p (sort xs) ≡ count p xs
unfolding sort count
count-sort p [] = refl
count-sort p (x ∷ xs) = count-insert_sorted p x (sort xs) ∙ ground (arith, count-sort p xs)

-- A pid below all of a sorted list is not in it.
count-below : (p lo : ℕ) (xs : List ℕ) → p < lo → SortedFrom lo xs → count p xs ≡ 0
unfolding count
count-below p lo [] h s = refl
count-below p lo (x ∷ xs) h s = ground (arith, count-below p x xs, s)

-- A pid below the head of a sorted list is not in it.
below : (p x : ℕ) (xs : List ℕ) → SortedFrom x xs → p < x → count p (x ∷ xs) ≡ 0
below p x xs s h = count-below p x (x ∷ xs) h (omega arith, s)

count-set_difference :
    (p fuel lo : ℕ) (xs ys : List ℕ)
    → SortedFrom lo xs
    → SortedFrom lo ys
    → length xs + length ys < fuel
    → count p (set_difference fuel xs ys) ≡ count p xs - count p ys
unfolding set_difference count
count-set_difference p zero lo xs ys s t h = absurd (omega arith)
count-set_difference p (suc fuel) lo [] ys s t h = omega arith
count-set_difference p (suc fuel) lo (x ∷ xs) [] s t h = omega arith
count-set_difference p (suc fuel) lo (x ∷ xs) (y ∷ ys) s t h = elim (Bool-cases (ltb x y)) [
  | inl lt ↦ rw lt (
      ground (
        arith,
        count-set_difference p fuel x xs (y ∷ ys) s.1 (omega (arith, ltb→lt x y lt), t.1)
            (omega arith),
        below p y ys t.1,
        ltb→lt x y lt,
      ))
  | inr ge ↦ rw ge (elim (Bool-cases (ltb y x)) [
    | inl gt ↦ rw gt (
        ground (
          arith,
          count-set_difference p fuel y (x ∷ xs) ys (omega (arith, ltb→lt y x gt), s.1) t.1
              (omega arith),
          below p x xs s.1,
          ltb→lt y x gt,
        ))
    | inr eq ↦ rw eq (
        ground (
          arith,
          count-set_difference p fuel x xs ys s.1 (SortedFrom-weaken x y ys (ltb→ge y x eq) t.1)
              (omega arith),
          ltb→ge x y ge,
          ltb→ge y x eq,
        ))
  ])
]

-- Whatever the first update left, and in whatever order the system lists the pids: after another
-- update, GetDifference has each pid as often as the new list has it more often than the list of
-- the update before.
pub count-get_difference :
    (p : ℕ) (before after : List ℕ) (m : PidMonitor)
    → count p (get_difference (update after (update before m))) ≡ count p after - count p before
unfolding get_difference update
count-get_difference p before after m =
    count-set_difference p _ 0 (sort after) (sort before) (sort-SortedFrom after)
      (sort-SortedFrom before) (omega arith)
    ∙ rw (count-sort p after, count-sort p before) refl
