-- ===== src/Common/FixedPoint.antt =====
-- `DecimalFixedPoint` of dex_aggregator/common/src/fixed_point.rs: coef * 10^exp, with a u128 and an
-- i8. Products, powers and sums of exponents wrap, as in a build without overflow checks; a build with
-- them panics there. A division by zero panics (`none`). Products in U256 and U512 are exact.
use privadex.Prelude.{
  ℕ, suc, ◌+◌, ◌-◌, ◌*◌, ◌/◌, ◌%◌, ◌^◌, Option, none, some, ◌==◌, nat_eq, if◌then◌else◌,
}
use privadex.Prelude.Panics.{◌>>=◌}
use privadex.Prelude.Int.{ℤ, pos, negsuc, pos_part, neg_part, sub_ℕ}
use privadex.Common.Ratio.{u128_mod}

pub record DecimalFixedPoint : Type 0 where
  pub coef : ℕ
  pub exp : ℤ

-- The i8 with the low byte of a sum or a difference of two i8 values.
abbrev pub wrap_i8 : ℕ → ℕ → ℤ
wrap_i8 plus minus = sub_ℕ ((plus + 640 - minus) % 256) 128

abbrev pub add_i8 : ℤ → ℤ → ℤ
add_i8 a b = wrap_i8 (pos_part a + pos_part b) (neg_part a + neg_part b)

abbrev pub sub_i8 : ℤ → ℤ → ℤ
sub_i8 a b = wrap_i8 (pos_part a + neg_part b) (neg_part a + pos_part b)

-- `-exp as u32` for exp = -n: the negation of -128 wraps to itself.
abbrev pub neg_as_u32 : ℕ → ℕ
neg_as_u32 n = if n == 128 then 2 ^ 32 - 128 else n

-- `u128::pow(10, n)`
unfoldable pub pow10 : ℕ → ℕ
pow10 n = 10 ^ n % u128_mod

abbrev pub div : ℕ → ℕ → Option ℕ
div a b = if b == 0 then none else some (a / b)

abbrev pub low_u128 : ℕ → ℕ
low_u128 n = n % u128_mod

unfoldable pub add_exp : DecimalFixedPoint → ℤ → DecimalFixedPoint
add_exp d e = record { coef = d.coef; exp = add_i8 d.exp e }

unfoldable pub scale_val : ℕ → ℤ → Option ℕ
unfolding pow10
scale_val coef (pos e) = some (coef * pow10 e % u128_mod)
scale_val coef (negsuc n) = div coef (pow10 (neg_as_u32 (suc n)))

unfoldable pub val : DecimalFixedPoint → Option ℕ
unfolding scale_val
val d = scale_val d.coef d.exp

unfoldable pub mul_small : DecimalFixedPoint → DecimalFixedPoint → DecimalFixedPoint
mul_small a b = record { coef = a.coef * b.coef % u128_mod; exp = add_i8 a.exp b.exp }

unfoldable pub scale_product : ℕ → ℤ → Option ℕ
unfolding pow10
scale_product numerator (pos e) = some (low_u128 numerator * pow10 e % u128_mod)
scale_product numerator (negsuc n) = do
  quotient ← div numerator (pow10 (neg_as_u32 (suc n)))
  some (low_u128 quotient)

unfoldable pub mul_u128 : DecimalFixedPoint → ℕ → Option ℕ
unfolding scale_product
mul_u128 d other = scale_product (d.coef * other) d.exp

unfoldable pub div_nonzero : ℕ → DecimalFixedPoint → ℤ → Option ℕ
unfolding val pow10
div_nonzero num denom (pos e) = do v ← val denom; div num v
div_nonzero num denom (negsuc n) = do
  quotient ← div (num * pow10 (neg_as_u32 (suc n))) denom.coef
  some (low_u128 quotient)

unfoldable pub u128_div : ℕ → DecimalFixedPoint → Option ℕ
unfolding div_nonzero
u128_div num denom =
    if denom.coef == 0 then some (u128_mod - 1) else div_nonzero num denom denom.exp

unfoldable pub mul_div_nonzero : ℕ → ℕ → ℕ → ℤ → Option ℕ
unfolding pow10
mul_div_nonzero num mul_coef div_coef (pos e) = do
  quotient ← div (num * mul_coef * pow10 e) div_coef
  some (low_u128 quotient)
mul_div_nonzero num mul_coef div_coef (negsuc n) = do
  quotient ← div (num * mul_coef) (div_coef * pow10 (neg_as_u32 (suc n)))
  some (low_u128 quotient)

unfoldable pub u128_mul_div : ℕ → DecimalFixedPoint → DecimalFixedPoint → Option ℕ
unfolding mul_div_nonzero
u128_mul_div num mul_factor div_factor =
    if div_factor.coef == 0
    then some (u128_mod - 1)
    else mul_div_nonzero num mul_factor.coef div_factor.coef (sub_i8 mul_factor.exp div_factor.exp)
