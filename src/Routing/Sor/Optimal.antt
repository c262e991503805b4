-- ===== src/Routing/Sor/Optimal.antt =====
-- The path that is chosen has the best quote of all.
use privadex.Prelude.{ℕ, ◌≡◌, ◌≤◌, List, Option, none, some}
use privadex.Prelude.Fallible.{Outcome, ok, err, panic}
use mathlib.Core.List.{Memᴰ}
use mathlib.Core.List.Memᴰ
use privadex.Routing.Edge.{Edge}
use privadex.Routing.Graph.{SimpleGraphs, PublicError, no_path_found}
use privadex.Routing.Paths.Walks.{IsRoute}
use privadex.Routing.GraphPath
use privadex.Routing.Solution.{GraphSolution}
use privadex.Routing.Sor.{SinglePathSor, solution}

module _ {ℓ} {A : Type ℓ} (key : A → Option ℕ) where
  -- `best` is at least as good as whatever satisfies `P`, and is one of those; or there is none.
  abbrev IsBest : Option (A × ℕ) → (A → Type ℓ) → Type ℓ
  IsBest none P = (x : A) → P x → ⊥
  IsBest (some (b, k)) P = P b × (key b ≡ some k) × ((x : A) (j : ℕ) → P x → key x ≡ some j → j ≤ k)

  abbrev IsMaxOf : Option (Option (A × ℕ)) → (A → Type ℓ) → Type ℓ
  IsMaxOf none P = (x : A) × P x × (key x ≡ none)
  IsMaxOf (some best) P = IsBest best P

module _ {sg : SimpleGraphs} {L T : Type 0} (sor : SinglePathSor sg L T) (amount_in : ℕ)
    (src dest : sg.VertexId) where
  abbrev Route : List (Edge L T) → Type 0
  Route = IsRoute sg sor.graph sor.all_paths_finder_config src dest

  abbrev quote : List (Edge L T) → Option ℕ
  quote path = GraphPath.get_quote_with_estimated_txn_fees path amount_in

  -- The answers that are right: a solution with one path, whose quote no other path exceeds; an error
  -- if there is no path; a panic only if the quote of some path panics.
  abbrev pub IsRightAnswer : Outcome PublicError (GraphSolution L T) → Type 0
  IsRightAnswer (ok s) =
      (path : List (Edge L T)) × (best : ℕ) × (s ≡ solution sor amount_in path)
      × Route path
      × (quote path ≡ some best)
      × ((x : List (Edge L T)) (q : ℕ) → Route x → quote x ≡ some q → q ≤ best)
  IsRightAnswer (err e) = (e ≡ no_path_found) × ((x : List (Edge L T)) → Route x → ⊥)
  IsRightAnswer panic = (x : List (Edge L T)) × Route x × (quote x ≡ none)
