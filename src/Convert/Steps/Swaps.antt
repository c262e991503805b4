-- ===== src/Convert/Steps/Swaps.antt =====
-- What the swap step of several edges holds.
use privadex.Prelude.{
  ℕ, ◌≡◌, refl, false, not, ◌==◌, List, [], ◌∷◌, map, any, Option, some, All, Bool-cases, inl, inr,
  arith,
}
use privadex.Prelude.Panics.{◌>>=◌, >>=-eq-some}
use privadex.Metadata.Chains.{get_chain_info_from_chain_id}
use privadex.Metadata.Dex.{dex_eq}
use privadex.Plan.Types.{EthDexSwapStep, DexRouterFunction}
use privadex.Routing.Edge.{ConstantProductAmmSwapEdge}
use privadex.Convert.Steps.{same_dex_step, convert_same_dex_swaps_to_exec_step}

-- The swap step of the edges `c ∷ cs`, which are of one DEX.
pub record IsSwapOf (f : DexRouterFunction) (c : ConstantProductAmmSwapEdge)
    (cs : List ConstantProductAmmSwapEdge) (s : EthDexSwapStep) : Type 0 where
  pub router : s.dex_router_addr ≡ c.dex.eth_dex_router
  pub function : s.dex_router_func ≡ f
  pub tokens : s.token_path ≡ c.src_token ∷ map (λ e. e.dest_token) (c ∷ cs)
  pub same_dex : All (λ e. e.dex.id ≡ c.dex.id) cs

All-same_dex :
    (c : ConstantProductAmmSwapEdge) (cs : List ConstantProductAmmSwapEdge)
    → any (λ e. not (e.dex.id == c.dex.id)) cs ≡ false
    → All (λ e. e.dex.id ≡ c.dex.id) cs
All-same_dex c [] h = tt
All-same_dex c (e ∷ cs) h =
    ((dex_eq.eq_iff e.dex.id c.dex.id).0 (ground arith), All-same_dex c cs (ground arith))

same_dex_step-IsSwapOf :
    (c : ConstantProductAmmSwapEdge) (rest : List ConstantProductAmmSwapEdge) (uuid : ℕ)
    (amount : Option ℕ) (f : DexRouterFunction) (s : EthDexSwapStep)
    → any (λ e. not (e.dex.id == c.dex.id)) (c ∷ rest) ≡ false
    → (get_chain_info_from_chain_id c.dex.chain_id >>= λ info.
        some (same_dex_step c rest uuid amount f info))
      ≡ some s
    → IsSwapOf f c rest s
unfolding same_dex_step
same_dex_step-IsSwapOf c rest uuid amount f s same h =
    let (info, _, made) = >>=-eq-some (get_chain_info_from_chain_id c.dex.chain_id) _ h in
    record {
      router = cc;
      function = cc;
      tokens = cc;
      same_dex = All-same_dex c rest (ground arith);
    }

pub swap_step-IsSwapOf :
    (cs : List ConstantProductAmmSwapEdge) (uuid : ℕ) (amount : Option ℕ) (f : DexRouterFunction)
    (s : EthDexSwapStep)
    → convert_same_dex_swaps_to_exec_step cs uuid amount f ≡ some s
    → (c : ConstantProductAmmSwapEdge) × (rest : List ConstantProductAmmSwapEdge) × (cs ≡ c ∷ rest)
      × IsSwapOf f c rest s
unfolding convert_same_dex_swaps_to_exec_step
swap_step-IsSwapOf [] uuid amount f s h = cc
swap_step-IsSwapOf (c ∷ rest) uuid amount f s h =
    elim (Bool-cases (any (λ e. not (e.dex.id == c.dex.id)) (c ∷ rest))) [
      | inl mixed ↦ absurd (cc (rw (mixed, convert_same_dex_swaps_to_exec_step) at h))
      | inr same ↦ (
        c,
        rest,
        refl,
        same_dex_step-IsSwapOf c rest uuid amount f s same
            (rw (same, convert_same_dex_swaps_to_exec_step) at h),
      )
    ]
