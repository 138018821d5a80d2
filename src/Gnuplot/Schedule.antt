-- ===== src/Gnuplot/Schedule.antt =====
-- Which frequencies the controller of modules/gnuplot/Collector.cpp samples with.
use wall_mon.Base.{
  ℕ, zero, suc, ◌+◌, ◌≤◌, ◌<◌, ◌≡◌, refl, ap, ◌∙◌, arith, true, false, none, some, List, [], ◌∷◌,
  ◌++◌, length, get_elem?, drop, ◌==◌, ==_iff,
}
use wall_mon.Base.Double.{Double}
use wall_mon.Gnuplot.Intervals.{
  get_frequency_in_hz, get_num_samples, get_total_num_samples, period, get_frequency_in_msec,
  Controller, exits, goes_on, create, next_interval, after_sample,
}

-- How a run ends: all samples are taken and the program has not ended, a CHECK has failed, or the
-- program has exited.
pub data Ending : Type 0 where
  unfinished : Ending
  check_failed : Ending
  exited : Ending

module _ (d : Double) where
  abbrev pub repeat : ℕ → d.Num → List d.Num
  repeat zero f = []
  repeat (suc n) f = f ∷ repeat n f

  -- The frequencies of samples, `k` of them at most, and how they end.
  unfoldable pub samples : List (ℕ × ℕ) → ℕ → Controller d → List d.Num × Ending
  samples intervals zero c = ([], unfinished)
  samples intervals (suc k) c = elim (after_sample d intervals c) [
    | none ↦ (c.sample_frequency_msec ∷ [], check_failed)
    | some exits ↦ (c.sample_frequency_msec ∷ [], exited)
    | some (goes_on c') ↦
        let (more, ending) = samples intervals k c' in (c.sample_frequency_msec ∷ more, ending)
  ]

  -- Each interval's number of samples with its frequency, and one more with the last one, `f` if
  -- there is no interval.
  abbrev pub planned : List (ℕ × ℕ) → d.Num → List d.Num
  planned [] f = f ∷ []
  planned ((hz, n) ∷ rest) f = repeat n (period d hz) ++ planned rest (period d hz)

  -- No interval is without samples.
  abbrev pub AllSampled : List (ℕ × ℕ) → Type 0
  AllSampled [] = Unit
  AllSampled ((hz, n) ∷ rest) = (1 ≤ n) × AllSampled rest

-- What the rest of a list from `i` on says of the element there.
module _ {A : Type 0} where
  drop-get :
      (i : ℕ) (xs : List A) (x : A) (rest : List A) → drop i xs ≡ x ∷ rest → get_elem? xs i ≡ some x
  drop-get zero [] x rest e = absurd (cc)
  drop-get zero (y ∷ xs) x rest e = cc
  drop-get (suc i) [] x rest e = absurd (cc)
  drop-get (suc i) (y ∷ xs) x rest e = drop-get i xs x rest e

  drop-suc :
      (i : ℕ) (xs : List A) (x : A) (rest : List A) → drop i xs ≡ x ∷ rest → drop (suc i) xs ≡ rest
  drop-suc zero [] x rest e = absurd (cc)
  drop-suc zero (y ∷ xs) x rest e = cc
  drop-suc (suc i) [] x rest e = absurd (cc)
  drop-suc (suc i) (y ∷ xs) x rest e = drop-suc i xs x rest e

  length-drop_eq :
      (i : ℕ) (xs rest : List A) → i ≤ length xs → drop i xs ≡ rest → i + length rest ≡ length xs
  length-drop_eq zero xs rest h e = omega (arith, ap length e)
  length-drop_eq (suc i) [] rest h e = absurd (omega (arith, h))
  length-drop_eq (suc i) (y ∷ xs) rest h e =
      omega (arith, length-drop_eq i xs rest (omega (arith, h)) e)

module _ (d : Double) (intervals : List (ℕ × ℕ)) where
  abbrev controller : ℕ → ℕ → d.Num → Controller d
  controller j i f = record {
    num_samples = j;
    sample_interval_index = i;
    sample_frequency_msec = f;
  }

  abbrev first_period : List (ℕ × ℕ) → d.Num → d.Num
  first_period [] f = f
  first_period ((hz, n) ∷ rest) f = period d hz

  num_samples_at :
      (i hz n : ℕ) (rest : List (ℕ × ℕ))
      → drop i intervals ≡ (hz, n) ∷ rest
      → get_num_samples intervals i ≡ some n
  unfolding get_num_samples
  num_samples_at i hz n rest e = rw (drop-get i intervals (hz, n) rest e, get_num_samples) refl

  period_at :
      (i hz n : ℕ) (rest : List (ℕ × ℕ))
      → drop i intervals ≡ (hz, n) ∷ rest
      → get_frequency_in_msec d intervals i ≡ some (period d hz)
  unfolding get_frequency_in_msec get_frequency_in_hz
  period_at i hz n rest e =
      rw (drop-get i intervals (hz, n) rest e, get_frequency_in_msec, get_frequency_in_hz) refl

  not_last :
      (i hz n : ℕ) (rest : List (ℕ × ℕ))
      → i ≤ length intervals
      → drop i intervals ≡ (hz, n) ∷ rest
      → (i == length intervals) ≡ false
  not_last i hz n rest h e =
      let l = length-drop_eq i intervals ((hz, n) ∷ rest) h e in ground (arith, l)

  after_sample-same :
      (i j hz n : ℕ) (f : d.Num) (rest : List (ℕ × ℕ))
      → i ≤ length intervals
      → drop i intervals ≡ (hz, n) ∷ rest
      → suc j < n
      → after_sample d intervals (controller j i f) ≡ some (goes_on (controller (suc j) i f))
  unfolding after_sample
  after_sample-same i j hz n f rest h e lt =
      let more : (suc j == n) ≡ false = ground (arith, lt) in
      rw (not_last i hz n rest h e, num_samples_at i hz n rest e, more) refl

  next_interval_lem :
      (i j hz n : ℕ) (f : d.Num) (rest : List (ℕ × ℕ))
      → i ≤ length intervals
      → drop i intervals ≡ (hz, n) ∷ rest
      → next_interval d intervals (controller j i f)
        ≡ some (goes_on (controller 0 (suc i) (first_period rest f)))
  unfolding next_interval
  next_interval_lem i j hz n f [] h e =
      let l = length-drop_eq i intervals ((hz, n) ∷ []) h e in
      let last : (suc i == length intervals) ≡ true = ground (arith, l) in rw last refl
  next_interval_lem i j hz n f ((hz', n') ∷ rest) h e =
      let l = length-drop_eq i intervals ((hz, n) ∷ (hz', n') ∷ rest) h e in
      let more : (suc i == length intervals) ≡ false = ground (arith, l) in
      let e' = drop-suc i intervals (hz, n) ((hz', n') ∷ rest) e in
      rw (more, period_at (suc i) hz' n' rest e') refl

  after_sample-next :
      (i j hz n : ℕ) (f : d.Num) (rest : List (ℕ × ℕ))
      → i ≤ length intervals
      → drop i intervals ≡ (hz, n) ∷ rest
      → suc j ≡ n
      → after_sample d intervals (controller j i f)
        ≡ some (goes_on (controller 0 (suc i) (first_period rest f)))
  unfolding after_sample
  after_sample-next i j hz n f rest h e eq =
      let full : (suc j == n) ≡ true = (==_iff (suc j) n).1 eq in
      rw (not_last i hz n rest h e, num_samples_at i hz n rest e, full)
        (next_interval_lem i j hz n f rest h e)

  -- Samples before those of a run.
  abbrev before : List d.Num → List d.Num × Ending → List d.Num × Ending
  before fs r = (fs ++ r.0, r.1)

  samples_step :
      (k : ℕ) (c c' : Controller d)
      → after_sample d intervals c ≡ some (goes_on c')
      → samples d intervals (suc k) c
        ≡ before (c.sample_frequency_msec ∷ []) (samples d intervals k c')
  unfolding samples
  samples_step k c c' e = rw (samples, e) refl

  -- The samples of one interval, of which `r` and one more are left.
  interval_lem :
      (r i j hz n m : ℕ) (f : d.Num) (rest : List (ℕ × ℕ))
      → i ≤ length intervals
      → drop i intervals ≡ (hz, n) ∷ rest
      → j + suc r ≡ n
      → samples d intervals (suc r + m) (controller j i f)
        ≡ before
            (repeat d (suc r) f)
            (samples d intervals m (controller 0 (suc i) (first_period rest f)))
  interval_lem zero i j hz n m f rest h e eq =
      let one : 1 + m ≡ suc m = omega arith in
      rw one (
        samples_step m (controller j i f) (controller 0 (suc i) (first_period rest f))
          (after_sample-next i j hz n f rest h e (omega (arith, eq))))
  interval_lem (suc r) i j hz n m f rest h e eq =
      let one : suc (suc r) + m ≡ suc (suc r + m) = omega arith in
      rw one (
        samples_step (suc r + m) (controller j i f) (controller (suc j) i f)
          (after_sample-same i j hz n f rest h e (omega (arith, eq)))
        ∙ ap (before (f ∷ [])) (interval_lem r i (suc j) hz n m f rest h e (omega (arith, eq))))

  samples_exit :
      (k i : ℕ) (f : d.Num)
      → i ≡ length intervals
      → samples d intervals (suc k) (controller 0 i f) ≡ (f ∷ [], exited)
  unfolding samples after_sample
  samples_exit k i f e =
      let last : (i == length intervals) ≡ true = (==_iff i (length intervals)).1 e in
      rw (samples, after_sample, last) refl

  planned_first :
      (rest : List (ℕ × ℕ)) (f : d.Num) → planned d rest (first_period rest f) ≡ planned d rest f
  planned_first [] f = refl
  planned_first ((hz, n) ∷ rest) f = refl

  first_again :
      (rest : List (ℕ × ℕ)) (f : d.Num)
      → first_period rest f ≡ first_period rest (first_period rest f)
  first_again [] f = refl
  first_again ((hz, n) ∷ rest) f = refl

  plan_lem :
      (rest : List (ℕ × ℕ)) (i k : ℕ) (f : d.Num)
      → i ≤ length intervals
      → drop i intervals ≡ rest
      → AllSampled d rest
      → f ≡ first_period rest f
      → samples d intervals (get_total_num_samples rest + suc k) (controller 0 i f)
        ≡ (planned d rest f, exited)
  unfolding get_total_num_samples
  plan_lem [] i k f h e a q =
      let one : 0 + suc k ≡ suc k = omega arith in
      rw one (samples_exit k i f (omega (arith, length-drop_eq i intervals [] h e)))
  plan_lem ((hz, zero) ∷ rest) i k f h e a q = absurd (omega (arith, a.0))
  plan_lem ((hz, suc n) ∷ rest) i k f h e a q =
      let m = get_total_num_samples rest + suc k in
      let one : suc n + get_total_num_samples rest + suc k ≡ suc n + m = omega arith in
      let l = length-drop_eq i intervals ((hz, suc n) ∷ rest) h e in
      ap (λ x. samples d intervals x (controller 0 i f)) one
      ∙ interval_lem n i 0 hz (suc n) m f rest h e (omega arith)
      ∙ ap (before (repeat d (suc n) f)) (
          plan_lem rest (suc i) k (first_period rest f) (omega (arith, l))
            (drop-suc i intervals (hz, suc n) rest e) a.1 (first_again rest f)
          ∙ ap (λ l. (l, exited)) (planned_first rest f))
      ∙ ap (λ g. (repeat d (suc n) g ++ planned d rest g, exited)) q

-- Whatever the intervals are, at least one of them and none without samples: the controller that is
-- created for them samples each interval's number of times with the frequency of the interval, one
-- interval after the other, and once more with the last frequency, and the run ends there with the
-- program's exit, not with a failed CHECK.
pub samples-planned :
    (d : Double) (hz n k : ℕ) (rest : List (ℕ × ℕ))
    → AllSampled d ((hz, n) ∷ rest)
    → (c : Controller d) × (create d ((hz, n) ∷ rest) ≡ some c)
      × (samples d ((hz, n) ∷ rest) (get_total_num_samples ((hz, n) ∷ rest) + suc k) c
          ≡ (planned d ((hz, n) ∷ rest) (period d hz), exited))
unfolding create get_frequency_in_msec get_frequency_in_hz
samples-planned d hz n k rest a = (
  record { num_samples = 0; sample_interval_index = 0; sample_frequency_msec = period d hz },
  refl,
  plan_lem d ((hz, n) ∷ rest) ((hz, n) ∷ rest) 0 k (period d hz) (omega arith) refl a refl,
)
