-- ===== src/Exec/Plan/Payout.antt =====
-- What a plan pays out: the fee of `calc_amount_after_simple_fee` on what the paths brought in.
use privadex.Prelude.{ℕ, ◌+◌, ◌*◌, ◌/◌, ◌≤◌, ◌<◌, ◌≡◌, some, unwrap_or, List, [], ◌∷◌, arith}
use privadex.Common.Ratio.{u128_mod, add_u128}
use privadex.Common.Ratio.Bounds.{mul_ratio_u128_exact}
use privadex.Plan.Types.{ExecutionPath}
use privadex.Exec.Plan.{calc_amount_after_simple_fee, sum_amounts, sum_exec_paths_amounts_out}

module _ {L : Type 0} where
  -- The sum without a bound; a path without an amount counts for nothing.
  unfoldable pub total_amount_out : List (ExecutionPath L) → ℕ
  total_amount_out [] = 0
  total_amount_out (p ∷ ps) = unwrap_or p.amount_out 0 + total_amount_out ps

  sum_amounts-exact :
      (ps : List (ExecutionPath L)) (acc : ℕ)
      → acc + total_amount_out ps < u128_mod
      → sum_amounts ps acc ≡ acc + total_amount_out ps
  unfolding sum_amounts total_amount_out
  sum_amounts-exact [] acc b = omega arith
  sum_amounts-exact (p ∷ ps) acc b =
      let a = unwrap_or p.amount_out 0 in
      let here : add_u128 acc a ≡ acc + a = omega (arith, b) in
      let rest = sum_amounts-exact ps (add_u128 acc a) (omega (arith, here, b)) in
      omega (arith, here, rest)

  -- While the amounts of the paths stay below 2^128 together, the payout of a plan is defined, is
  -- their sum less 5 in 10000 rounded down, and is at most their sum.
  pub payout_exact :
      (ps : List (ExecutionPath L))
      → total_amount_out ps < u128_mod
      → (calc_amount_after_simple_fee (sum_exec_paths_amounts_out ps)
          ≡ some (total_amount_out ps * 9_995 / 10_000))
        × (total_amount_out ps * 9_995 / 10_000 ≤ total_amount_out ps)
  unfolding calc_amount_after_simple_fee
  payout_exact ps b =
      let n = total_amount_out ps in
      let sum : sum_amounts ps 0 ≡ n = omega (arith, sum_amounts-exact ps 0 (omega (arith, b))) in
      let (q, le) = mul_ratio_u128_exact n 9_995 10_000 (omega arith) (omega arith) b in
      (rw (sum) q, le)
