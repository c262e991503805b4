-- ===== src/Common/Ratio/Bounds.antt =====
-- When the ratio of `mul_ratio_u128` is at most one, the result is the exact quotient.
use privadex.Prelude.{ℕ, ◌*◌, ◌/◌, ◌%◌, ◌≤◌, ◌<◌, ◌≡◌, some, arith}
use privadex.Common.Ratio.{mul_ratio_u128, u128_mod}

div-le : (v n d : ℕ) → 0 < d → n ≤ d → v * n / d ≤ v
div-le v n d p h = grind arith

-- Full precision whenever the numerator is at most the denominator, as the comment in the code asks.
pub mul_ratio_u128_exact :
    (v n d : ℕ)
    → 0 < d
    → n ≤ d
    → v < u128_mod
    → (mul_ratio_u128 v n d ≡ some (v * n / d)) × (v * n / d ≤ v)
unfolding mul_ratio_u128
mul_ratio_u128_exact v n d p h b = (ground (arith, div-le v n d p h), div-le v n d p h)

-- It stops at a zero denominator, and only there.
pub mul_ratio_u128_total :
    (v n d : ℕ) → 0 < d → (r : ℕ) × (mul_ratio_u128 v n d ≡ some r) × (r < u128_mod)
unfolding mul_ratio_u128
mul_ratio_u128_total v n d p = (v * n / d % u128_mod, ground arith, omega arith)

pub mul_ratio_u128_small :
    (v n d : ℕ) → 0 < d → v * n / d < u128_mod → mul_ratio_u128 v n d ≡ some (v * n / d)
unfolding mul_ratio_u128
mul_ratio_u128_small v n d p h = ground arith
