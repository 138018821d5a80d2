-- ===== src/Gnuplot/Sampling/Hosts.antt =====
-- The samples that modules/gnuplot/Handler.cpp receives of several hosts.
use wall_mon.Base.{
  ℕ, suc, ◌+◌, ◌*◌, ◌≤◌, ◌≡◌, refl, sym, ap, arith, Option, none, some, List, [], ◌∷◌, length,
  String, leb, if_lem, inl, inr, Option-cases, subst,
}
use wall_mon.Base.Bytes.{or_else}
use wall_mon.Base.Double.{Double}
use wall_mon.Base.StrMap
use wall_mon.Message.{Message}
use wall_mon.Processes.Collector.{ProcessMessage}
use wall_mon.Stat.{new_sample}
use wall_mon.Gnuplot.Sampling.{
  rate, Handler, Handled, fails, exits, goes_on, on_init, count_host, handle,
}
use wall_mon.Gnuplot.Sampling.Filing.{length-insert}
use wall_mon.Gnuplot.Sampling.Kept.{Kept, Ends, add_sample-Ends}

module _ (d : Double) (trunc : d.Num → Option ℕ) (p : ℕ) where
  count_host-Kept :
      (host : String) (n k : ℕ) (h : Handler d)
      → Kept d trunc p n k h
      → ((count_host d host h).0 ≡ 1) × Kept d trunc p n k (count_host d host h).1
  unfolding count_host
  count_host-Kept host n k h a = go (StrMap.lookup host h.termination_cond) refl
    where
      Counted : ℕ × Handler d → Type 0
      Counted r = (r.0 ≡ 1) × Kept d trunc p n k r.1

      go :
          (o : Option ℕ)
          → StrMap.lookup host h.termination_cond ≡ o
          → Counted (elim o [
            | none ↦ (
              0 + 1,
              record h {
                termination_cond = StrMap.insert host (0 + 1) h.termination_cond;
                expected_total_num_samples =
                    h.expected_num_samples_per_node
                    * length (StrMap.insert host (0 + 1) h.termination_cond);
              },
            )
            | some n ↦ (1, record h { termination_cond = StrMap.insert host 1 h.termination_cond })
          ])
      go none e = (
        refl,
        record {
          same_per_node = a.same_per_node;
          all_counted = a.all_counted;
          all_stored = a.all_stored;
          rated = a.rated;
          for_hosts = λ some_host.
              ap (λ q. q * length (StrMap.insert host 1 h.termination_cond)) a.same_per_node;
          opened = a.opened;
        },
      )
      go (some v) e =
          let l = length-insert host 1 v h.termination_cond e in
          (
            refl,
            record {
              same_per_node = a.same_per_node;
              all_counted = a.all_counted;
              all_stored = a.all_stored;
              rated = a.rated;
              for_hosts =
                  subst (λ i. 1 ≤ i → h.expected_total_num_samples ≡ p * i) (sym l) a.for_hosts;
              opened = a.opened;
            },
          )

  module _ (parse : List ℕ → Option (List (ProcessMessage d.Num))) where
    -- The data of the message parses, and 1000 divided by its frequency is a number that converts to
    -- uint32_t.
    pub record Readable (m : Message d.Num) : Type 0 where
      pub parses : ¬ (parse (or_else [] m.payload) ≡ none)
      pub converts : ¬ (rate d trunc m ≡ none)

    handle-Ends :
        (n : ℕ) (m : Message d.Num) (h : Handler d)
        → 2 ≤ p
        → Readable m
        → Kept d trunc p n n h
        → Ends d trunc p (suc n) (handle d trunc parse m h)
    unfolding handle
    handle-Ends n m h two readable a =
        let (one, kept) = count_host-Kept (or_else "" m.hostname) n n h a in
        elim (Option-cases (parse (or_else [] m.payload))) [
          | inl e ↦ absurd (readable.parses e)
          | inr (ps, e) ↦ elim (Option-cases (rate d trunc m)) [
            | inl q ↦ absurd (readable.converts q)
            | inr (hz, q) ↦
                rw (Ends, handle, e, q)
                  (if_lem (Ends d trunc p (suc n))
                    (leb h.expected_num_samples_per_node (count_host d (or_else "" m.hostname) h).0)
                    (λ many. absurd (ground (arith, one, a.same_per_node, two, many)))
                    (λ few. add_sample-Ends d trunc p n hz m ps _ q kept))
          ]
        ]

    -- The calls for messages, until the program ends.
    abbrev pub handle_all : List (Message d.Num) → Handler d → Handled d
    handle_all [] h = goes_on h
    handle_all (m ∷ ms) h = elim (handle d trunc parse m h) [
      | fails ↦ fails
      | exits h' ↦ exits h'
      | goes_on h' ↦ handle_all ms h'
    ]

    abbrev pub AllReadable : List (Message d.Num) → Type 0
    AllReadable [] = Unit
    AllReadable (m ∷ ms) = Readable m × AllReadable ms

    handle_all-from :
        (n : ℕ) (ms : List (Message d.Num)) (h : Handler d)
        → 2 ≤ p
        → AllReadable ms
        → Kept d trunc p n n h
        → Ends d trunc p (length ms + n) (handle_all ms h)
    handle_all-from n [] h two parses a =
        let none_more : n ≡ 0 + n = omega arith in subst (λ i. Kept d trunc p i i h) none_more a
    handle_all-from n (m ∷ ms) h two parses a =
        go (handle d trunc parse m h) (handle-Ends n m h two parses.0 a)
          (λ h' b. handle_all-from (suc n) ms h' two parses.1 b)
      where
        go :
            (r : Handled d)
            → Ends d trunc p (suc n) r
            → ((h' : Handler d)
                → Kept d trunc p (suc n) (suc n) h'
                → Ends d trunc p (length ms + suc n) (handle_all ms h'))
            → Ends d trunc p
                (suc (length ms) + n)
                (elim r [ fails ↦ fails | exits h' ↦ exits h' | goes_on h' ↦ handle_all ms h' ])
        go fails b rest = absurd b
        go (exits h') (i, l, kept, eq) rest = (i, omega (arith, l), kept, eq)
        go (goes_on h') b rest =
            let one : length ms + suc n ≡ suc (length ms) + n = omega arith in
            subst (λ i. Ends d trunc p i (handle_all ms h')) one (rest h' b)

    -- At least two samples are expected of each host, the data of each message parses, and 1000
    -- divided by its frequency converts to a uint32_t: the
    -- handler discards no sample, whatever hosts they are from and however many, and no call fails.
    -- After the calls it has counted as many samples as there are messages, and keeps as many
    -- messages, each under its own frequency; the total it waits for is the number that is expected of
    -- each host, for every host it has heard of. When the program exits before, that holds of the
    -- messages until then, and they are as many as that total.
    pub handle_all-Ends :
        (targets : List (List ℕ)) (ms : List (Message d.Num))
        → 2 ≤ p
        → AllReadable ms
        → Ends d trunc p (length ms) (handle_all ms (on_init d p targets))
    unfolding on_init new_sample
    handle_all-Ends targets ms two parses =
        let one : length ms + 0 ≡ length ms = omega arith in
        subst (λ i. Ends d trunc p i (handle_all ms (on_init d p targets))) one
          (handle_all-from 0 ms (on_init d p targets) two parses (record {
            same_per_node = refl;
            all_counted = refl;
            all_stored = refl;
            rated = tt;
            for_hosts = λ h. absurd (omega (arith, h));
            opened = omega arith;
          }))
