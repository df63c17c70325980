-- ===== src/Graph/Components/Failures.antt =====
-- The exceptions of `Graph::connected_components` (src/graph.cpp) when no copies are made.
use mathlib.Core.Option.{some-injective}
use hyper_graph_streaming_cc.Prelude.{
  ℕ, ◌≤◌, ◌≡◌, refl, ap, ◌∙◌, sym, subst, List, [], map, some, none, false, some≢none, Option-cases,
  inl, inr,
}
use hyper_graph_streaming_cc.Platform.{Platform, Doubles}
use hyper_graph_streaming_cc.Exceptions.{Exception, Result, ok, throw, out_of_queries}
use hyper_graph_streaming_cc.Sketch.Defs.{Config}
use hyper_graph_streaming_cc.Forest.{root}
use hyper_graph_streaming_cc.Dsu.{own_parents}
use hyper_graph_streaming_cc.Graph.State.{Graph}
use hyper_graph_streaming_cc.Graph.Update.Laws.{Holds}
use hyper_graph_streaming_cc.Graph.Update.Cut.{InRange}
use hyper_graph_streaming_cc.Graph.Rounds.{Rounds, rounds}
use hyper_graph_streaming_cc.Graph.Rounds.Sampled.{OnForest, run_edges, rounds-Joined}
use hyper_graph_streaming_cc.Graph.Rounds.Throws.{rounds_throw}
use hyper_graph_streaming_cc.Graph.Components.{
  start_rounds, finish_rounds, boruvka_emulation, connected_components, collect_components,
}
use hyper_graph_streaming_cc.Graph.Components.Classes.{classes, collect_components-classes}
use hyper_graph_streaming_cc.Graph.Components.Start.{start_rounds-Ready}
use hyper_graph_streaming_cc.Graph.Components.Answers.{
  start_rounds-OnForest, boruvka_emulation-finish_rounds, ok≢throw,
}

throw-injective : {A : Type 0} (x y : Exception) → ◌≡◌ {A = Result A} (throw x) (throw y) → x ≡ y
throw-injective x y e = cc

module _ (p : Platform) (d : Doubles) (cfg : Config) where
  passed_on : (st : Rounds) (x : Exception) → (finish_rounds p d cfg false st (some x)).1 ≡ throw x
  unfolding finish_rounds
  passed_on st x = refl

  finished :
      (st : Rounds)
      → OnForest st
      → (found : List (List ℕ)) × ((finish_rounds p d cfg false st none).1 ≡ ok found)
  unfolding finish_rounds
  finished st (forest, nodes) =
      let (parent, collected, _, _) = collect_components-classes st.graph.parent forest in
      let collected' =
        subst
          (λ n.
            collect_components n 0 st.graph.parent []
            ≡ some (classes (root st.graph.parent) n 0 n, parent))
          nodes collected in
      (
        map (λ entry. entry.1)
            (classes (root st.graph.parent) st.graph.num_nodes 0 st.graph.num_nodes),
        rw (collected', finish_rounds) refl,
      )

  -- For a graph that holds the streams of its vertices, each its own root, with at most 31 guesses:
  -- when a query that need not go on with the stream has sampled only edges between vertices, the
  -- only exception it can throw is the one of a supernode without a sketch left.
  pub connected_components-throws :
      (fuel : ℕ) (g end : Graph) (streams : ℕ → List ℕ) (x : Exception)
      → cfg.num_guesses ≤ 31
      → Holds p d cfg g streams
      → g.parent ≡ own_parents g.num_nodes 0
      → InRange g.num_nodes (run_edges p cfg false fuel (start_rounds p d cfg g))
      → connected_components p d cfg fuel false g ≡ some (end, throw x)
      → x ≡ out_of_queries
  unfolding connected_components boruvka_emulation start_rounds
  connected_components-throws fuel g end streams x few h own below e =
      let start = start_rounds p d cfg g in
      elim (Option-cases (rounds p cfg fuel false start)) [
        | inl stuck ↦ absurd (some≢none (sym e ∙ rw (stuck, boruvka_emulation) refl))
        | inr ((st, none), ran) ↦
            let (joins, same) =
              rounds-Joined p cfg false fuel start st ran (start_rounds-OnForest p d cfg g own)
                below in
            let on : OnForest st =
              (joins.forest, joins.size ∙ (start_rounds-OnForest p d cfg g own).1 ∙ sym same) in
            let (found, good) = finished st on in
            absurd (
              ok≢throw (
                sym good
                ∙ ap (λ r. r.1)
                    (some-injective _ (end, throw x)
                      (sym (boruvka_emulation-finish_rounds p d cfg fuel false g st none ran)
                        ∙ e))))
        | inr ((st, some y), ran) ↦
            throw-injective x y (
              sym (
                ap (λ r. r.1)
                  (some-injective _ (end, throw x)
                    (sym (boruvka_emulation-finish_rounds p d cfg fuel false g st (some y) ran)
                      ∙ e)))
              ∙ passed_on st y)
            ∙ rounds_throw p d cfg g.num_nodes g.seed few false fuel start st streams y
                (start_rounds-Ready p d cfg g streams h own) below ran
      ]
