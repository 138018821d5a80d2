-- ===== src/Gnuplot/Intervals.antt =====
-- modules/gnuplot/Common.cpp and modules/gnuplot/Collector.cpp: the intervals of the measurement,
-- each with its sample frequency and number of samples, and the controller that goes from one to
-- the next. `none` is a failed CHECK.
use wall_mon.Base.{
  ℕ, suc, ◌+◌, ◌-◌, Option, none, some, List, [], ◌∷◌, length, get_elem?, map, ◌==◌, if◌then◌else◌,
}
use wall_mon.Base.Double.{Double, int}

-- `SAMPLE_INTERVALS`.
abbrev pub sample_intervals : List (ℕ × ℕ)
sample_intervals =
    (1, 60)
    ∷ (2, 60)
    ∷ (4, 60)
    ∷ (8, 60)
    ∷ (16, 60)
    ∷ (32, 120)
    ∷ (64, 120)
    ∷ (128, 120)
    ∷ (256, 300)
    ∷ (512, 300)
    ∷ []

module _ (intervals : List (ℕ × ℕ)) where
  unfoldable pub get_frequency_in_hz : ℕ → Option ℕ
  get_frequency_in_hz idx = elim (get_elem? intervals idx) [ none ↦ none | some v ↦ some v.0 ]

  unfoldable pub get_num_samples : ℕ → Option ℕ
  get_num_samples idx = elim (get_elem? intervals idx) [ none ↦ none | some v ↦ some v.1 ]

unfoldable pub get_total_num_samples : List (ℕ × ℕ) → ℕ
get_total_num_samples [] = 0
get_total_num_samples ((hz, n) ∷ rest) = n + get_total_num_samples rest

unfoldable pub get_total_num_samples_exclude_warmup : List (ℕ × ℕ) → Option ℕ
unfolding get_num_samples
get_total_num_samples_exclude_warmup intervals = elim (get_num_samples intervals 0) [
  | none ↦ none
  | some n ↦ some (get_total_num_samples intervals - n)
]

unfoldable pub get_sample_frequencies_in_hz : List (ℕ × ℕ) → List ℕ
get_sample_frequencies_in_hz = map (λ v. v.0)

unfoldable pub get_sample_frequencies_in_hz_exclude_warmup : List (ℕ × ℕ) → Option (List ℕ)
unfolding get_sample_frequencies_in_hz
get_sample_frequencies_in_hz_exclude_warmup intervals =
    elim (get_sample_frequencies_in_hz intervals) [ [] ↦ none | f ∷ rest ↦ some rest ]

module _ (d : Double) where
  -- 1000 / hz.
  unfoldable pub period : ℕ → d.Num
  period hz = d.div (int d 1000) (int d hz)

  unfoldable pub get_frequency_in_msec : List (ℕ × ℕ) → ℕ → Option d.Num
  unfolding get_frequency_in_hz
  get_frequency_in_msec intervals idx = elim (get_frequency_in_hz intervals idx) [
    | none ↦ none
    | some hz ↦ some (period hz)
  ]

  unfoldable pub get_intervals_durations_in_msec : List (ℕ × ℕ) → List d.Num
  get_intervals_durations_in_msec = map (λ v. d.mul (period v.0) (int d v.1))

  -- The controller, and `sampleFrequencyMsec` of the context.
  pub record Controller : Type 0 where
    pub num_samples : ℕ
    pub sample_interval_index : ℕ
    pub sample_frequency_msec : d.Num

  -- The end of `AfterSample`: the program exits or goes on.
  pub data Outcome : Type 0 where
    exits : Outcome
    goes_on : Controller → Outcome

  -- The constructor, and `create_collector` for the frequency.
  unfoldable pub create : List (ℕ × ℕ) → Option Controller
  create intervals = elim (get_frequency_in_msec intervals 0) [
    | none ↦ none
    | some f ↦
        some (record { num_samples = 0; sample_interval_index = 0; sample_frequency_msec = f })
  ]

  -- The next interval, which there may not be.
  unfoldable pub next_interval : List (ℕ × ℕ) → Controller → Option Outcome
  next_interval intervals c =
      let next : Controller = record c {
        num_samples = 0;
        sample_interval_index = suc c.sample_interval_index;
      } in
      if suc c.sample_interval_index == length intervals
      then some (goes_on next)
      else elim (get_frequency_in_msec intervals (suc c.sample_interval_index)) [
        | none ↦ none
        | some f ↦ some (goes_on (record next { sample_frequency_msec = f }))
      ]

  unfoldable pub after_sample : List (ℕ × ℕ) → Controller → Option Outcome
  after_sample intervals c =
      if c.sample_interval_index == length intervals
      then some exits
      else elim (get_num_samples intervals c.sample_interval_index) [
        | none ↦ none
        | some n ↦
            if suc c.num_samples == n
            then next_interval intervals c
            else some (goes_on (record c { num_samples = suc c.num_samples }))
      ]
