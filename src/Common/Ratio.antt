-- ===== src/Common/Ratio.antt =====
-- `mul_ratio_u128` of dex_aggregator/common/src/utils/general_utils.rs, and the sums of u128, u64
-- and u32 values that the other crates form. Sums wrap, as in a build without overflow checks; a
-- build with them panics where a sum here wraps. Division by zero panics.
pub mod Bounds
use privadex.Prelude.{
  ℕ, ◌+◌, ◌-◌, ◌*◌, ◌/◌, ◌%◌, ◌^◌, ◌==◌, nat_eq, Option, none, some, if◌then◌else◌,
}

abbrev pub u128_mod : ℕ
u128_mod = 2 ^ 128

abbrev pub u64_mod : ℕ
u64_mod = 2 ^ 64

abbrev pub u32_mod : ℕ
u32_mod = 2 ^ 32

abbrev pub add_u128 : ℕ → ℕ → ℕ
add_u128 a b = (a + b) % u128_mod

abbrev pub add_u32 : ℕ → ℕ → ℕ
add_u32 a b = (a + b) % u32_mod

-- `a - b` on u16, which wraps.
abbrev pub sub_u16 : ℕ → ℕ → ℕ
sub_u16 a b = (a + 2 ^ 16 - b) % 2 ^ 16

-- The product of two u128 values fits in the U256 of `full_mul`; `low_u128` cuts the quotient.
unfoldable pub mul_ratio_u128 : ℕ → ℕ → ℕ → Option ℕ
mul_ratio_u128 val numerator denominator =
    if denominator == 0 then none else some (val * numerator / denominator % u128_mod)
