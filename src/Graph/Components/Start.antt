-- ===== src/Graph/Components/Start.antt =====
-- The state in which `Graph::boruvka_emulation` (src/graph.cpp) starts its rounds.
use hyper_graph_streaming_cc.Prelude.{
  ℕ, zero, suc, ◌+◌, ◌≤◌, ◌≡◌, refl, ◌∙◌, List, ap, length, length-replicate, arith, subst, sym,
}
use hyper_graph_streaming_cc.Platform.{Platform, Doubles}
use hyper_graph_streaming_cc.Sketch.Defs.{Config}
use hyper_graph_streaming_cc.Forest.Root.{IsForest}
use hyper_graph_streaming_cc.Dsu.{own_parents, make_dsu}
use hyper_graph_streaming_cc.Dsu.Laws.{make_dsu_singletons}
use hyper_graph_streaming_cc.Graph.State.{Graph}
use hyper_graph_streaming_cc.Graph.Update.Laws.{Holds}
use hyper_graph_streaming_cc.Graph.Plan.Below.{AllBelow}
use hyper_graph_streaming_cc.Graph.Rounds.Ready.{Ready}
use hyper_graph_streaming_cc.Graph.Components.{start_rounds}

own_parents-AllBelow : (n count k : ℕ) → k + count ≤ n → AllBelow n (own_parents count k)
unfolding own_parents
own_parents-AllBelow n zero k h = tt
own_parents-AllBelow n (suc count) k h =
    (omega arith, own_parents-AllBelow n count (suc k) (omega arith))

-- A graph that holds the streams of its vertices, each its own root, is ready for a query.
pub start_rounds-Ready :
    (p : Platform) (d : Doubles) (cfg : Config) (g : Graph) (streams : ℕ → List ℕ)
    → Holds p d cfg g streams
    → g.parent ≡ own_parents g.num_nodes 0
    → Ready p d cfg g.num_nodes g.seed (start_rounds p d cfg g) streams
unfolding start_rounds make_dsu
start_rounds-Ready p d cfg g streams h own =
    let (forest, size, _) = make_dsu_singletons g.num_nodes in
    record {
      num_nodes = refl;
      forest = subst IsForest (sym own) forest;
      parents = ap length own ∙ size;
      supernodes = record { count = h.count; nodes = h.nodes };
      answers = length-replicate g.num_nodes _;
      reps_below = own_parents-AllBelow g.num_nodes g.num_nodes 0 (omega arith);
    }
