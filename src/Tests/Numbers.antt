-- ===== src/Tests/Numbers.antt =====
-- Numbers in thousandths, for the parameter of Number.antt.
use thelight.Common.{◌+◌, ◌*◌, ◌/◌, ◌^◌, Bool, true, ltb}
use thelight.Common.Int.{ℤ, pos, pos_part, neg_part, sub_ℕ, abs_ℤ, leb_ℤ, ◌==ℤ◌}
use thelight.Number.{Num}

abbrev add : ℤ → ℤ → ℤ
add a b = sub_ℕ (pos_part a + pos_part b) (neg_part a + neg_part b)

abbrev sub : ℤ → ℤ → ℤ
sub a b = sub_ℕ (pos_part a + neg_part b) (neg_part a + pos_part b)

abbrev mul : ℤ → ℤ → ℤ
mul a b =
    sub_ℕ ((pos_part a * pos_part b + neg_part a * neg_part b) / 1000)
      ((pos_part a * neg_part b + neg_part a * pos_part b) / 1000)

abbrev div : ℤ → ℤ → ℤ
div a b = sub_ℕ (pos_part a * 1000 / abs_ℤ b) (neg_part a * 1000 / abs_ℤ b)

abbrev lt : ℤ → ℤ → Bool
lt a b = ltb (pos_part a + neg_part b) (pos_part b + neg_part a)

instance abbrev pub thousandths : Num ℤ
thousandths = record {
  decimal = λ m d. pos (m * 1000 / 10 ^ d);
  nan = pos 0;
  of_int = λ a. sub_ℕ (pos_part a * 1000) (neg_part a * 1000);
  add = add;
  sub = sub;
  mul = mul;
  div = div;
  lt = lt;
  le = leb_ℤ;
  eq = ◌==ℤ◌;
  is_finite = λ a. true;
  log = λ a. a;
  exp = λ a. a;
  sqrt = λ a. a;
  to_fixed = λ a n. "";
}
