-- ===== src/Stat.antt =====
-- lib/Stat.h: samples of values, and their sums, averages, variances and extremes, for values that
-- are doubles. `none` is an index out of range. A loop over indices is a recursion over the list.
pub mod Adding
pub mod Extremes
use wall_mon.Base.{
  ℕ, zero, suc, ◌+◌, ◌-◌, Bool, true, false, Option, none, some, List, [], ◌∷◌, ◌++◌, map, length,
  if◌then◌else◌, pos,
}
use wall_mon.Base.Results.{◌>>=◌}
use wall_mon.Base.Double.{Double}

-- `_samples`.
pub record Stat (N : Type 0) : Type 0 where
  pub samples : List (List N)

abbrev pub nth {ℓ} : {A : Type ℓ} → ℕ → List A → Option A
nth i [] = none
nth zero (x ∷ xs) = some x
nth (suc i) (x ∷ xs) = nth i xs

module _ {N : Type 0} where
  unfoldable pub new_sample : Stat N → Stat N
  new_sample s = record { samples = s.samples ++ ([] ∷ []) }

  -- `Add` to the last sample.
  unfoldable pub add_last : N → List (List N) → Option (List (List N))
  add_last v [] = none
  add_last v (xs ∷ []) = some ((xs ++ (v ∷ [])) ∷ [])
  add_last v (xs ∷ ys ∷ r) = elim (add_last v (ys ∷ r)) [ none ↦ none | some t ↦ some (xs ∷ t) ]

  unfoldable pub add : N → Stat N → Option (Stat N)
  unfolding add_last
  add v s = elim (add_last v s.samples) [ none ↦ none | some t ↦ some (record { samples = t }) ]

  unfoldable pub remove_at : ℕ → List (List N) → Option (List (List N))
  remove_at i [] = none
  remove_at zero (xs ∷ r) = some r
  remove_at (suc i) (xs ∷ r) = elim (remove_at i r) [ none ↦ none | some t ↦ some (xs ∷ t) ]

  unfoldable pub remove : ℕ → Stat N → Option (Stat N)
  unfolding remove_at
  remove i s = elim (remove_at i s.samples) [ none ↦ none | some t ↦ some (record { samples = t }) ]

  unfoldable pub get : ℕ → ℕ → Stat N → Option N
  get i j s = do xs ← nth i s.samples; nth j xs

  unfoldable pub num_samples : Stat N → ℕ
  num_samples s = length s.samples

  unfoldable pub num_samples_of : ℕ → Stat N → Option ℕ
  num_samples_of i s = do xs ← nth i s.samples; some (length xs)

  unfoldable pub total_length : List (List N) → ℕ
  total_length [] = 0
  total_length (xs ∷ r) = length xs + total_length r

  unfoldable pub num_samples_total : Stat N → ℕ
  unfolding total_length
  num_samples_total s = total_length s.samples

module _ (d : Double) where
  unfoldable pub sum_from : d.Num → List d.Num → d.Num
  sum_from acc [] = acc
  sum_from acc (x ∷ xs) = sum_from (d.add acc x) xs

  unfoldable pub sum_of : List d.Num → d.Num
  sum_of xs = sum_from (d.num (pos 0)) xs

  unfoldable pub sum : ℕ → Stat d.Num → Option d.Num
  unfolding sum_of
  sum i s = do xs ← nth i s.samples; some (sum_of xs)

  unfoldable pub sum_total : Stat d.Num → d.Num
  unfolding sum_of
  sum_total s = sum_of (map sum_of s.samples)

  unfoldable pub sum_avg : Stat d.Num → d.Num
  unfolding sum_total
  sum_avg s = d.div (sum_total s) (d.num (pos (length s.samples)))

  -- The loops for a minimum and a maximum, from the first value on.
  unfoldable pub min_from : d.Num → List d.Num → d.Num
  min_from least [] = least
  min_from least (x ∷ xs) = min_from (if d.lt x least then x else least) xs

  unfoldable pub max_from : d.Num → List d.Num → d.Num
  max_from most [] = most
  max_from most (x ∷ xs) = max_from (if d.lt most x then x else most) xs

  unfoldable pub min_of : List d.Num → Option d.Num
  min_of [] = none
  min_of (x ∷ xs) = some (min_from x xs)

  unfoldable pub max_of : List d.Num → Option d.Num
  max_of [] = none
  max_of (x ∷ xs) = some (max_from x xs)

  unfoldable pub sum_min : Stat d.Num → Option d.Num
  unfolding min_of sum_of
  sum_min s = min_of (map sum_of s.samples)

  unfoldable pub sum_max : Stat d.Num → Option d.Num
  unfolding max_of sum_of
  sum_max s = max_of (map sum_of s.samples)

  unfoldable pub avg_of : List d.Num → d.Num
  unfolding sum_of
  avg_of xs = d.div (sum_of xs) (d.num (pos (length xs)))

  unfoldable pub avg : ℕ → Stat d.Num → Option d.Num
  unfolding avg_of
  avg i s = do xs ← nth i s.samples; some (avg_of xs)

  unfoldable pub avg_avg : Stat d.Num → d.Num
  unfolding avg_of
  avg_avg s = avg_of (map avg_of s.samples)

  unfoldable pub min_val : ℕ → Stat d.Num → Option d.Num
  unfolding min_of
  min_val i s = do xs ← nth i s.samples; min_of xs

  unfoldable pub max_val : ℕ → Stat d.Num → Option d.Num
  unfolding max_of
  max_val i s = do xs ← nth i s.samples; max_of xs

  -- `MinVal()` over all samples, each of which has a value.
  unfoldable pub all_some : List (Option d.Num) → Option (List d.Num)
  all_some [] = some []
  all_some (none ∷ os) = none
  all_some (some x ∷ os) = elim (all_some os) [ none ↦ none | some xs ↦ some (x ∷ xs) ]

  unfoldable pub min_val_all : Stat d.Num → Option d.Num
  unfolding min_of all_some
  min_val_all s = do ms ← all_some (map min_of s.samples); min_of ms

  unfoldable pub max_val_all : Stat d.Num → Option d.Num
  unfolding max_of all_some
  max_val_all s = do ms ← all_some (map max_of s.samples); max_of ms

-- `pow(x, 2.0)` and `sqrt` are parameters.
module _ (d : Double) (square : d.Num → d.Num) where
  unfoldable pub variance_of : List d.Num → d.Num
  unfolding avg_of sum_of
  variance_of xs =
      d.div (sum_of d (map (λ x. square (d.sub x (avg_of d xs))) xs)) (d.num (pos (length xs)))

  unfoldable pub variance : ℕ → Stat d.Num → Option d.Num
  unfolding variance_of
  variance i s = do xs ← nth i s.samples; some (variance_of xs)

  unfoldable pub variance_avg : Stat d.Num → d.Num
  unfolding avg_of variance_of
  variance_avg s = avg_of d (map variance_of s.samples)

module _ (d : Double) (square sqrt : d.Num → d.Num) where
  unfoldable pub standard_deviation : ℕ → Stat d.Num → Option d.Num
  unfolding variance
  standard_deviation i s = do v ← variance d square i s; some (sqrt v)

  unfoldable pub standard_deviation_avg : Stat d.Num → d.Num
  unfolding avg_of variance_of
  standard_deviation_avg s = avg_of d (map (λ xs. sqrt (variance_of d square xs)) s.samples)
