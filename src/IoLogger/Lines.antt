-- ===== src/IoLogger/Lines.antt =====
-- How often the logger of lib/IoLogger.cpp speaks.
use wall_mon.Base.{
  ℕ, ◌+◌, ◌*◌, ◌^◌, ◌≤◌, ◌<◌, ◌≡◌, refl, ◌⊎◌, inl, inr, Bool-cases, leb, leb→le, ◌/◌, ◌++◌, arith,
  List, [], ◌∷◌, length, length-append, pos,
}
use native.Mathlib.Nat.{mod-eq_of_lt, add-zero, add_assoc}
use wall_mon.IoLogger.{IoLogger, Line, received, megabyte, init, read}

-- Calls of `Read`, one after the other.
abbrev pub read_all : List ℕ → IoLogger → IoLogger
read_all [] l = l
read_all (n ∷ ns) l = read_all ns (read (pos n) l)

abbrev pub sum : List ℕ → ℕ
sum [] = 0
sum (n ∷ ns) = n + sum ns

-- No read is larger than the interval.
abbrev pub AllSmall : ℕ → List ℕ → Type 0
AllSmall interval [] = Unit
AllSmall interval (n ∷ ns) = (n ≤ interval) × AllSmall interval ns

record Paced (k total : ℕ) (l : IoLogger) : Type 0 where
  same : l.interval ≡ k
  trigger : l.read_trigger ≡ length l.log * k + k
  enough : length l.log * k ≤ total
  counted : l.total_read ≡ total
  ahead : total < l.read_trigger

-- Without wrap-around, a read is one of two.
read_cases :
    (n : ℕ) (l : IoLogger)
    → l.total_read + n < 2 ^ 64
    → l.read_trigger + l.interval < 2 ^ 64
    → ((l.read_trigger ≤ l.total_read + n)
        × (read (pos n) l ≡ record l {
          total_read = l.total_read + n;
          read_trigger = l.read_trigger + l.interval;
          log = l.log ++ (received ((l.read_trigger + l.interval) / megabyte) ∷ []);
        }))
      ⊎ ((l.total_read + n < l.read_trigger)
          × (read (pos n) l ≡ record l { total_read = l.total_read + n }))
unfolding read
read_cases n l h k =
    rw (mod-eq_of_lt h, mod-eq_of_lt k)
      (elim (Bool-cases (leb l.read_trigger (l.total_read + n))) [
        | inl fires ↦ inl (leb→le _ _ fires, rw fires)
        | inr quiet ↦ inr (ground arith, rw quiet)
      ])

length-snoc : (k : ℕ) (ls : List Line) (x : Line) → length (ls ++ (x ∷ [])) * k ≡ length ls * k + k
length-snoc k ls x = rw (length-append ls (x ∷ [])) (omega arith)

read-Paced :
    (k total n : ℕ) (l : IoLogger)
    → total + n + k + k < 2 ^ 64
    → n ≤ k
    → Paced k total l
    → Paced k (total + n) (read (pos n) l)
read-Paced k total n l small le p = elim (read_cases n l (omega (arith, p)) (omega (arith, p))) [
  | inl (h, e) ↦ rw e (record {
    same = p.same;
    trigger =
        omega (arith, p, length-snoc k l.log (received ((l.read_trigger + l.interval) / megabyte)));
    enough =
        omega
          (arith, p, h, length-snoc k l.log (received ((l.read_trigger + l.interval) / megabyte)));
    counted = omega (arith, p);
    ahead = omega (arith, p);
  })
  | inr (h, e) ↦ rw e (record {
    same = p.same;
    trigger = p.trigger;
    enough = omega (arith, p);
    counted = omega (arith, p);
    ahead = omega (arith, p, h);
  })
]

read_all-Paced :
    (k total : ℕ) (ns : List ℕ) (l : IoLogger)
    → total + sum ns + k + k < 2 ^ 64
    → AllSmall k ns
    → Paced k total l
    → Paced k (total + sum ns) (read_all ns l)
read_all-Paced k total [] l small le p = rw add-zero p
read_all-Paced k total (n ∷ ns) l small le p = rw (← add_assoc) (
    read_all-Paced k (total + n) ns (read (pos n) l) (omega arith) le.1
      (read-Paced k total n l (omega arith) le.0 p))

-- A new logger with an interval above 0 reads `ns`, none of them larger than the interval; all of it
-- and two intervals more are below 2^64. Then it has logged one line for each full interval of the
-- bytes read, and counted the bytes.
length-read_all :
    (k : ℕ) (ns : List ℕ)
    → 0 < k
    → sum ns + k + k < 2 ^ 64
    → AllSmall k ns
    → let m = read_all ns (init k) in
      (length m.log * k ≤ sum ns) × (sum ns < length m.log * k + k) × (m.total_read ≡ sum ns)
unfolding init
length-read_all k ns some_interval small le = omega (arith, paced)
  where
    start : IoLogger
    start = init k

    paced : Paced k (0 + sum ns) (read_all ns start)
    paced = read_all-Paced k 0 ns start (omega arith) le (record {
      same = refl;
      trigger = omega arith;
      enough = omega arith;
      counted = refl;
      ahead = omega arith;
    })
