-- ===== src/Tests/Graphs.antt =====
-- A graph of tokens over lists: GLMR is wrapped to WGLMR, which is swapped on StellaSwap.
use privadex.Prelude.{
  ℕ, ◌≡◌, refl, sym, ◌⊎◌, inl, inr, Bool, nat_eq, eqb, eqb_iff, Bool-cases, List, [], ◌∷◌, Option,
  some, length, get_elem?, if◌then◌else◌,
}
use mathlib.Core.List.{Memᴰ}
use mathlib.Core.List.Memᴰ
use privadex.Metadata.Ids.{UniversalTokenId, native, erc20}
use privadex.Prelude.Int.{pos}
use privadex.Metadata.Chains.{moonbeam}
use privadex.Metadata.Dex.{stellaswap_dex}
use privadex.Routing.Edge.{WrapEdge, ConstantProductAmmSwapEdge}
use privadex.Routing.Graph.{SimpleGraphs, Token, Graph, new, add_vertex}
use privadex.Routing.Graph.Complete.{IsComplete, new-IsComplete, add_vertex-IsComplete}

-- The vertices are numbered in order.
pub record Links : Type 0 where
  pub tokens : List Token
  pub links : List (ℕ × ℕ)

abbrev pub links_from : ℕ → List (ℕ × ℕ) → List ℕ
links_from u [] = []
links_from u ((a, b) ∷ ls) = if eqb a u then b ∷ links_from u ls else links_from u ls

pub links_from-cons :
    (a b u v : ℕ) (g h : Links)
    → ◌≡◌ {A = Option Links} (some (record g { links = (a, b) ∷ g.links })) (some h)
    → Memᴰ v (links_from u h.links)
    → Memᴰ v (links_from u g.links) ⊎ ((a ≡ u) × (b ≡ v))
links_from-cons a b u v g h same m =
    let at_h : h.links ≡ (a, b) ∷ g.links = cc same in
    elim (Bool-cases (eqb a u)) [
      | inl here ↦ elim (Memᴰ.cases_cons (rw (at_h, here) at m)) [
        | inl first ↦ inr ((eqb_iff a u).0 here, sym first)
        | inr later ↦ inl later
      ]
      | inr away ↦ inl (rw (at_h, away) at m)
    ]

abbrev pub lists : SimpleGraphs
lists = record {
  VertexId = ℕ;
  vertex_eq = nat_eq;
  SimpleGraph = Links;
  new = record { tokens = []; links = [] };
  add_vertex = λ t g. (length g.tokens, record g { tokens = t ∷ g.tokens });
  fetch = λ v g. get_elem? g.tokens v;
  add_edge = λ a b g. some (record g { links = (a, b) ∷ g.links });
  out_neighbors = λ u g. links_from u g.links;
  out_neighbors-new = λ u. refl;
  out_neighbors-add_vertex = λ t u g. refl;
  out_neighbors-add_edge = links_from-cons;
}

abbrev pub glmr : UniversalTokenId
glmr = record { chain = moonbeam; id = native }

abbrev pub wglmr : UniversalTokenId
wglmr = record { chain = moonbeam; id = erc20 10 }

abbrev pub usdc : UniversalTokenId
usdc = record { chain = moonbeam; id = erc20 20 }

abbrev pub token_of : UniversalTokenId → Token
token_of id = record {
  id = id;
  derived_eth = record { coef = 1; exp = pos 0 };
  derived_usd = record { coef = 1; exp = pos 0 };
}

abbrev pub GraphOf : Type 0
GraphOf = Graph lists Bool Bool

abbrev pub wrapping : WrapEdge
wrapping = record {
  src_token = glmr;
  dest_token = wglmr;
  estimated_gas_fee_in_dest_token = 2;
  estimated_gas_fee_usd = 1;
}

abbrev pub swapping : ConstantProductAmmSwapEdge
swapping = record {
  src_token = wglmr;
  dest_token = usdc;
  token0 = erc20 10;
  token1 = erc20 20;
  reserve0 = 1000;
  reserve1 = 3000;
  estimated_gas_fee_in_dest_token = 3;
  estimated_gas_fee_usd = 2;
  dex = stellaswap_dex;
  pair_address = 30;
}

abbrev pub vertices_only : GraphOf
vertices_only =
    (add_vertex lists (token_of usdc)
      (add_vertex lists (token_of wglmr)
        (add_vertex lists (token_of glmr) (new lists Bool Bool)).1).1).1

pub vertices_only-IsComplete : IsComplete lists vertices_only
vertices_only-IsComplete = add_vertex-IsComplete lists (token_of usdc) _ (
    add_vertex-IsComplete lists (token_of wglmr) _
      (add_vertex-IsComplete lists (token_of glmr) _ (new-IsComplete lists)))
