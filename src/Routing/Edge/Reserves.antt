-- ===== src/Routing/Edge/Reserves.antt =====
-- A quote of a constant-product pool against the reserves of the pool.
use privadex.Prelude.{ℕ, ◌+◌, ◌*◌, ◌/◌, ◌-◌, ◌≡◌, refl, sym, ◌≤◌, ◌<◌, some, arith}
use privadex.Common.Ratio.{add_u128, sub_u16, u128_mod}
use privadex.Common.Ratio.Bounds.{mul_ratio_u128_exact, mul_ratio_u128_small}
use privadex.Routing.Edge.{cpmm_quote}
use native.Mathlib.Nat.{mul-le-mul_left, mul-lt-mul_of_pos_left, div-lt_iff_lt-mul, mul_assoc}

-- The part of an amount that is left after the fee.
abbrev pub less_fee : ℕ → ℕ → ℕ
less_fee amount fee_bps = amount * (10_000 - fee_bps) / 10_000

-- `amount * (num less fee)` stays below `num * (denom + amount less fee)`.
product-lt :
    (num denom amount f : ℕ)
    → 0 < num
    → 0 < denom
    → amount * (num * f / 10_000) < num * (denom + amount * f / 10_000)
product-lt num denom amount f n d =
    let part : num * f / 10_000 * 10_000 ≤ num * f = omega arith in
    let fee : amount * f < 10_000 * (denom + amount * f / 10_000) = omega arith in
    let one = mul-le-mul_left amount part in
    let two = mul-lt-mul_of_pos_left {k = num} fee n in
    let three : amount * (num * f) ≡ num * (amount * f) = grind arith in
    let four : amount * (num * f / 10_000 * 10_000) ≡ amount * (num * f / 10_000) * 10_000 =
      sym (mul_assoc amount (num * f / 10_000) 10_000) in
    let five : num * (10_000 * (denom + amount * f / 10_000))
        ≡ num * (denom + amount * f / 10_000) * 10_000 =
      grind arith in
    omega arith

-- With a positive reserve on each side, a fee of at most 100 percent and sums below 2^128, a quote is
-- the amount times the other reserve less fee, over the reserve plus the amount less fee, rounded
-- down, and it never takes the whole reserve.
pub cpmm_quote-lt-reserve :
    (num denom fee_bps amount : ℕ)
    → 0 < num
    → num < u128_mod
    → 0 < denom
    → denom + amount < u128_mod
    → fee_bps ≤ 10_000
    → (q : ℕ) × (cpmm_quote num denom fee_bps amount ≡ some q)
      × (q ≡ amount * less_fee num fee_bps / (denom + less_fee amount fee_bps))
      × (q < num)
unfolding cpmm_quote
cpmm_quote-lt-reserve num denom fee_bps amount n n_max d sum_max f =
    let rate : sub_u16 10_000 fee_bps ≡ 10_000 - fee_bps = omega arith in
    let amount_part =
      mul_ratio_u128_exact amount (10_000 - fee_bps) 10_000 (omega arith) (omega arith)
        (omega arith) in
    let num_part =
      mul_ratio_u128_exact num (10_000 - fee_bps) 10_000 (omega arith) (omega arith) n_max in
    let total = denom + less_fee amount fee_bps in
    let no_wrap : add_u128 denom (less_fee amount fee_bps) ≡ total = omega (arith, amount_part.1) in
    let below = product-lt num denom amount (10_000 - fee_bps) n d in
    let quote = amount * less_fee num fee_bps / total in
    let q_lt =
      (div-lt_iff_lt-mul {k = total} {x = amount * less_fee num fee_bps} {y = num} (omega arith)).1
        below in
    (
      quote,
      rw (rate, amount_part.0, num_part.0)
          (rw no_wrap
            (mul_ratio_u128_small amount (less_fee num fee_bps) total (omega arith) (omega arith))),
      refl,
      q_lt,
    )
