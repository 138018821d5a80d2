-- ===== src/Tests/Numbers.antt =====
-- Doubles without fractions, for the tests of the parts that compute with times.
use wall_mon.Base.{
  not, ◌==◌, ◌&&◌, ◌*◌, ◌/◌, ℤ, pos, ◌+ℤ◌, ◌-ℤ◌, pos_part, neg_part, sub_ℕ, ltb_ℤ, ◌+◌,
}
use wall_mon.Base.Double.{Double}

abbrev pub whole : Double
whole = record {
  Num = ℤ;
  num = λ n. n;
  add = λ a b. a +ℤ b;
  sub = λ a b. a -ℤ b;
  mul = λ a b.
      sub_ℕ (pos_part a * pos_part b + neg_part a * neg_part b)
        (pos_part a * neg_part b + neg_part a * pos_part b);
  div = λ a b. pos (pos_part a / pos_part b);
  lt = ltb_ℤ;
  le = λ a b. not (ltb_ℤ b a);
  eq = λ a b. (pos_part a == pos_part b) && (neg_part a == neg_part b);
}

-- Doubles in thousandths, rounded towards 0.
abbrev pub thousandths : Double
thousandths = record whole {
  num = λ n. sub_ℕ (1000 * pos_part n) (1000 * neg_part n);
  mul = λ a b.
      sub_ℕ ((pos_part a * pos_part b + neg_part a * neg_part b) / 1000)
        ((pos_part a * neg_part b + neg_part a * pos_part b) / 1000);
  div = λ a b. pos (1000 * pos_part a / pos_part b);
}
