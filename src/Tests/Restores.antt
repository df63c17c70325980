-- ===== src/Tests/Restores.antt =====
-- What a query puts back, on the graph of three vertices with one edge.
use hyper_graph_streaming_cc.Prelude.{
  ℕ, List, [], ◌∷◌, Option, true, some, ◌≡◌, refl, subst, sym, arith,
}
use hyper_graph_streaming_cc.Exceptions.{Result, ok}
use hyper_graph_streaming_cc.Supernode.Defs.{sample, merge}
use hyper_graph_streaming_cc.Sketch.Defs.{add_assign}
use hyper_graph_streaming_cc.Sketch.Query.{query}
use hyper_graph_streaming_cc.Bucket.{index_hash}
use hyper_graph_streaming_cc.Bytes.{to_bytes}
use hyper_graph_streaming_cc.Util.{inv_nondir_non_self_edge_pairing_fn}
use hyper_graph_streaming_cc.Forest.{find}
use hyper_graph_streaming_cc.Graph.Plan.{
  supernodes_to_merge, merge_samples, merge_sample, join_edge, get_parent, join, collect, unmerged,
  merged_from,
}
use hyper_graph_streaming_cc.Dsu.{own_parents}
use hyper_graph_streaming_cc.Graph.Rounds.{merge_supernodes, rounds}
use hyper_graph_streaming_cc.Graph.Components.{connected_components, start_rounds}
use hyper_graph_streaming_cc.Graph.State.{Graph}
use hyper_graph_streaming_cc.Graph.Update.Cut.{InRange}
use hyper_graph_streaming_cc.Graph.Plan.Sampled.{edges_of}
use hyper_graph_streaming_cc.Graph.Rounds.Sampled.{run_edges}
use hyper_graph_streaming_cc.Tests.Data.{small_hashes, decimals}
use hyper_graph_streaming_cc.Graph.Rounds.{round}
use hyper_graph_streaming_cc.Graph.Components.Restoring.Merges.{AllAmong, merge_targets}
use hyper_graph_streaming_cc.Graph.Components.Restoring.Rounds.{round_targets}
use hyper_graph_streaming_cc.Graph.Components.Restoring.Runs.{run_targets, later_targets}
use hyper_graph_streaming_cc.Graph.Components.Restoring.Laws.{
  Restored, connected_components-Restored,
}
use hyper_graph_streaming_cc.Tests.Queries.{
  trio_config, trio_graph, trio_start, trio_streams, trio_graph-Holds, graph_of,
}

abbrev answer : Option (Graph × Result (List (List ℕ)))
answer = connected_components small_hashes decimals trio_config 4 true trio_graph

answer_run : answer ≡ some (graph_of answer, ok ((0 ∷ []) ∷ (1 ∷ 2 ∷ []) ∷ []))
unfolding connected_components rounds sample query index_hash to_bytes supernodes_to_merge
    merge_samples merge_sample join_edge get_parent find inv_nondir_non_self_edge_pairing_fn join
    merge_supernodes unmerged merged_from collect merge add_assign
answer_run = refl

answer_edges : run_edges small_hashes trio_config true 4 trio_start ≡ (1, 2) ∷ (1, 2) ∷ []
unfolding run_edges edges_of start_rounds rounds sample query index_hash to_bytes
    supernodes_to_merge merge_samples merge_sample join_edge get_parent find
    inv_nondir_non_self_edge_pairing_fn join merge_supernodes unmerged merged_from collect merge
    add_assign
answer_edges = refl

later : later_targets small_hashes decimals trio_config 4 trio_start ≡ []
unfolding later_targets run_targets round_targets merge_targets start_rounds rounds sample query
    index_hash to_bytes supernodes_to_merge merge_samples merge_sample join_edge get_parent find
    inv_nondir_non_self_edge_pairing_fn join merge_supernodes unmerged merged_from collect merge
    add_assign
later = refl

connected_components-Restored_example : Restored trio_graph (graph_of answer)
unfolding own_parents
connected_components-Restored_example =
    connected_components-Restored small_hashes decimals trio_config 4 trio_graph trio_streams
      (omega arith) trio_graph-Holds refl refl
      (subst (InRange 3) (sym answer_edges)
        ((omega arith, omega arith), ((omega arith, omega arith), tt)))
      (subst (AllAmong (round small_hashes trio_config true trio_start).0.backed_up) (sym later) tt)
      (graph_of answer) (ok ((0 ∷ []) ∷ (1 ∷ 2 ∷ []) ∷ [])) answer_run
