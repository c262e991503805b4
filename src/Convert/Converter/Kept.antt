-- ===== src/Convert/Converter/Kept.antt =====
-- No edge is lost: the steps of a converted path cover all its edges.
use privadex.Prelude.{ℕ, suc, List, ◌∷◌}
use privadex.Metadata.Templates.{Xcm}
use privadex.Routing.Edge.{Edge}
use privadex.Convert.Edges.{EdgeOf, ProcessHelperResult}
use privadex.Convert.Converter.{Conversion, apply_result}
use privadex.Convert.Converter.Invariant.{Inv}

module _ (x : Xcm) where
  abbrev Result : Type 0
  Result = ProcessHelperResult x.MultiLocation × ℕ

  module _ (graph_path : List (EdgeOf x)) (i : ℕ) (e : EdgeOf x) (rest : List (EdgeOf x))
      (c : Conversion x) (v : Inv x graph_path i (e ∷ rest) c) (r : Result) where
    abbrev After : Type 0
    After = Inv x graph_path (suc i) rest (apply_result x c r.0 r.1)
