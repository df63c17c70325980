-- ===== src/Tests/LastRounds.antt =====
-- The rounds of a query of a graph of three vertices with one edge.
use hyper_graph_streaming_cc.Prelude.{Option, false, none, some, ◌≡◌, refl}
use hyper_graph_streaming_cc.Exceptions.{Exception}
use hyper_graph_streaming_cc.Supernode.Defs.{sample, merge}
use hyper_graph_streaming_cc.Sketch.Defs.{add_assign}
use hyper_graph_streaming_cc.Sketch.Query.{query}
use hyper_graph_streaming_cc.Bucket.{index_hash}
use hyper_graph_streaming_cc.Bytes.{to_bytes}
use hyper_graph_streaming_cc.Util.{inv_nondir_non_self_edge_pairing_fn}
use hyper_graph_streaming_cc.Forest.{find}
use hyper_graph_streaming_cc.Graph.Plan.{
  supernodes_to_merge, merge_samples, merge_sample, join_edge, get_parent, join, collect, unmerged,
  merged_from,
}
use hyper_graph_streaming_cc.Graph.Rounds.{merge_supernodes, Rounds, rounds}
use hyper_graph_streaming_cc.Graph.Components.{start_rounds}
use hyper_graph_streaming_cc.Tests.Data.{small_hashes}
use hyper_graph_streaming_cc.Graph.Rounds.Last.{LastRound, last_round, rounds-LastRound}
use hyper_graph_streaming_cc.Tests.Queries.{
  trio_config, trio_start, trio_edges-InRange, trio_start-Ready,
}

abbrev trio_rounds : Option (Rounds × Option Exception)
trio_rounds = rounds small_hashes trio_config 4 false trio_start

abbrev state_of : Option (Rounds × Option Exception) → Rounds
state_of none = trio_start
state_of (some (st, except)) = st

trio_rounds_run : trio_rounds ≡ some (state_of trio_rounds, none)
unfolding rounds start_rounds sample query index_hash to_bytes supernodes_to_merge merge_samples
    merge_sample join_edge get_parent find inv_nondir_non_self_edge_pairing_fn join merge_supernodes
    unmerged merged_from collect merge add_assign
trio_rounds_run = refl

rounds-LastRound_example :
    LastRound small_hashes trio_config false
      (last_round small_hashes trio_config false 4 trio_start)
      (state_of trio_rounds)
unfolding start_rounds
rounds-LastRound_example =
    rounds-LastRound small_hashes trio_config false 4 trio_start (state_of trio_rounds)
      trio_rounds_run (trio_start-Ready.forest, refl) trio_edges-InRange
