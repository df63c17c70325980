-- ===== src/Tests/Exhausted.antt =====
-- A query of a graph whose sketches were all queried before.
use hyper_graph_streaming_cc.Prelude.{
  ℕ, List, [], Option, replicate, false, some, ◌≡◌, refl, subst, sym, arith,
}
use hyper_graph_streaming_cc.Exceptions.{Result, throw, out_of_queries}
use hyper_graph_streaming_cc.Supernode.Defs.{Supernode, sample, make_supernode, sketches_for}
use hyper_graph_streaming_cc.Util.{double_to_ull}
use hyper_graph_streaming_cc.Supernode.Represents.{HoldsFrom-mono}
use hyper_graph_streaming_cc.Supernode.Seeds.{seeds_of}
use hyper_graph_streaming_cc.Graph.Components.Failures.{connected_components-throws}
use hyper_graph_streaming_cc.Dsu.{own_parents}
use hyper_graph_streaming_cc.Graph.Rounds.{rounds}
use hyper_graph_streaming_cc.Graph.Components.{connected_components, start_rounds}
use hyper_graph_streaming_cc.Graph.State.{Graph}
use hyper_graph_streaming_cc.Prelude.Slots.{get_elem?-replicate}
use hyper_graph_streaming_cc.Graph.Update.Ingest.{fresh-IsNode}
use hyper_graph_streaming_cc.Graph.Update.Laws.{Holds, IsNode}
use hyper_graph_streaming_cc.Graph.Update.Cut.{InRange}
use hyper_graph_streaming_cc.Graph.Plan.Sampled.{edges_of}
use hyper_graph_streaming_cc.Graph.Rounds.Sampled.{run_edges}
use hyper_graph_streaming_cc.Tests.Data.{small_hashes, decimals}
use hyper_graph_streaming_cc.Tests.Queries.{trio_config, trio_graph, graph_of}

-- All sketches were queried already.
abbrev spent_supernode : Supernode
spent_supernode = record (make_supernode trio_config decimals 3 5) { idx = 3 }

abbrev spent_trio : Graph
spent_trio = record trio_graph { supernodes = replicate 3 spent_supernode; num_updates = 0 }

spent_supernode-IsNode : IsNode small_hashes decimals trio_config 3 5 spent_supernode []
unfolding make_supernode sketches_for double_to_ull
spent_supernode-IsNode =
    let fresh = fresh-IsNode small_hashes decimals trio_config 3 5 in
    record {
      size = refl;
      sketch_count = refl;
      same_seed = refl;
      contents = record {
        index = omega arith;
        contents =
            HoldsFrom-mono small_hashes trio_config 0 3 []
              (seeds_of decimals trio_config spent_supernode) spent_supernode.sketches (omega arith)
              fresh.contents.contents;
      };
    }

spent_trio-Holds : Holds small_hashes decimals trio_config spent_trio (λ i. [])
spent_trio-Holds = record {
  unlocked = refl;
  count = refl;
  nodes = λ i s e.
      subst (λ t. IsNode small_hashes decimals trio_config 3 5 t [])
        (sym (get_elem?-replicate 3 i spent_supernode s e)) spent_supernode-IsNode;
}

abbrev spent_answer : Option (Graph × Result (List (List ℕ)))
spent_answer = connected_components small_hashes decimals trio_config 1 false spent_trio

spent_run : spent_answer ≡ some (graph_of spent_answer, throw out_of_queries)
unfolding connected_components rounds sample make_supernode sketches_for double_to_ull
spent_run = refl

spent_edges-InRange : InRange 3 (
    run_edges small_hashes trio_config false 1
      (start_rounds small_hashes decimals trio_config spent_trio))
unfolding run_edges edges_of rounds start_rounds sample make_supernode sketches_for double_to_ull
spent_edges-InRange = tt

connected_components-throws_example : out_of_queries ≡ out_of_queries
unfolding own_parents
connected_components-throws_example =
    connected_components-throws small_hashes decimals trio_config 1 spent_trio
      (graph_of spent_answer) (λ i. []) out_of_queries (omega arith) spent_trio-Holds refl
      spent_edges-InRange spent_run
