-- ===== src/Tests/Queries.antt =====
-- The components of a graph of three vertices with one edge.
use hyper_graph_streaming_cc.Prelude.{
  ℕ, List, [], ◌∷◌, ◌++◌, map, Option, replicate, false, true, none, some, ◌≡◌, refl, ◌↔◌, subst,
  sym, arith, ◌<◌,
}
use hyper_graph_streaming_cc.Exceptions.{Result, ok}
use hyper_graph_streaming_cc.Supernode.Defs.{
  Supernode, Edge, sample, merge, make_supernode, apply_delta_update, sketches_for, delta_supernode,
  sketch_width,
}
use hyper_graph_streaming_cc.Sketch.Defs.{add_assign, Config, make_sketch, guess_gen}
use hyper_graph_streaming_cc.Sketch.Query.{query}
use hyper_graph_streaming_cc.Bucket.{index_hash, contains, col_index_hash}
use hyper_graph_streaming_cc.Bytes.{to_bytes}
use hyper_graph_streaming_cc.Util.{
  inv_nondir_non_self_edge_pairing_fn, nondirectional_non_self_edge_pairing_fn, double_to_ull,
}
use hyper_graph_streaming_cc.Forest.{find}
use hyper_graph_streaming_cc.Graph.Plan.{
  supernodes_to_merge, merge_samples, merge_sample, join_edge, get_parent, join, collect, unmerged,
  merged_from,
}
use hyper_graph_streaming_cc.Dsu.{own_parents}
use hyper_graph_streaming_cc.Graph.Rounds.{merge_supernodes, Rounds, rounds, sample_supernodes}
use hyper_graph_streaming_cc.Graph.Components.{connected_components, start_rounds}
use hyper_graph_streaming_cc.Graph.State.{Graph}
use hyper_graph_streaming_cc.Sketch.Defs
use hyper_graph_streaming_cc.Bucket
use hyper_graph_streaming_cc.Graph.Rounds.Merged.{sampled}
use hyper_graph_streaming_cc.Graph.Rounds.Ready.{Ready, RoundDone, round-Ready}
use hyper_graph_streaming_cc.Graph.Components.Start.{start_rounds-Ready}
use hyper_graph_streaming_cc.Prelude.Slots.{get_elem?-replicate}
use hyper_graph_streaming_cc.Graph.Update.{batch_update, edge_code, generate_delta_node}
use hyper_graph_streaming_cc.Graph.Update.Ingest.{
  apply_batches, delivered, apply_batches-Holds, fresh-IsNode,
}
use hyper_graph_streaming_cc.Graph.Update.Laws.{Holds, IsNode}
use hyper_graph_streaming_cc.Graph.Update.Cut.{InRange}
use hyper_graph_streaming_cc.Graph.Plan.Sampled.{edges_of}
use hyper_graph_streaming_cc.Graph.Components.Linked.{Linked}
use hyper_graph_streaming_cc.Graph.Components.Answers.{components_by, connected_components-Linked}
use hyper_graph_streaming_cc.Graph.Rounds.Sampled.{run_edges}
use hyper_graph_streaming_cc.Tests.Data.{small_hashes, decimals}

abbrev pub trio_config : Config
trio_config = record { failure_factor = 4; n = 9; num_elems = 4; num_buckets = 3; num_guesses = 1 }

-- Three sketches whose buckets hold what the edge 1 - 2 puts there, or nothing.
abbrev holding : ℕ → ℕ → Supernode
holding a c = record {
  idx = 0;
  num_sketches = 3;
  n = 3;
  seed = 5;
  sketches = replicate 3 (record {
    seed = 5;
    bucket_a = a ∷ 0 ∷ a ∷ a ∷ [];
    bucket_c = c ∷ 0 ∷ c ∷ c ∷ [];
    already_queried = false;
  });
}

abbrev pub trio_graph : Graph
trio_graph = record {
  num_nodes = 3;
  seed = 5;
  update_locked = false;
  modified = false;
  supernodes = holding 0 0 ∷ holding 4294967298 3038312738 ∷ holding 4294967298 3038312738 ∷ [];
  parent = 0 ∷ 1 ∷ 2 ∷ [];
  size = 1 ∷ 1 ∷ 1 ∷ [];
  gts = [];
  num_updates = 2;
  copy_in_mem = true;
  backup = none;
}

abbrev pub trio_start : Rounds
trio_start = start_rounds small_hashes decimals trio_config trio_graph

abbrev trio_answer : Option (Graph × Result (List (List ℕ)))
trio_answer = connected_components small_hashes decimals trio_config 4 false trio_graph

abbrev pub trio_edges : List Edge
trio_edges = run_edges small_hashes trio_config false 4 trio_start

abbrev pub graph_of : Option (Graph × Result (List (List ℕ))) → Graph
graph_of none = trio_graph
graph_of (some (g, result)) = g

trio_run : trio_answer ≡ some (graph_of trio_answer, ok ((0 ∷ []) ∷ (1 ∷ 2 ∷ []) ∷ []))
unfolding connected_components rounds sample query index_hash to_bytes supernodes_to_merge
    merge_samples merge_sample join_edge get_parent find inv_nondir_non_self_edge_pairing_fn join
    merge_supernodes unmerged merged_from collect merge add_assign
trio_run = refl

trio_sampled : trio_edges ≡ (1, 2) ∷ (1, 2) ∷ []
unfolding run_edges edges_of rounds sample query index_hash to_bytes supernodes_to_merge
    merge_samples merge_sample join_edge get_parent find inv_nondir_non_self_edge_pairing_fn join
    merge_supernodes unmerged merged_from collect merge add_assign start_rounds
trio_sampled = refl

pub trio_edges-InRange : InRange 3 trio_edges
trio_edges-InRange =
    subst (InRange 3) (sym trio_sampled)
      ((omega arith, omega arith), ((omega arith, omega arith), tt))

connected_components-Linked_example :
    (label : ℕ → ℕ) × ((0 ∷ []) ∷ (1 ∷ 2 ∷ []) ∷ [] ≡ components_by label 3)
    × ((k : ℕ) → k < 3 → label k < 3)
    × ((i j : ℕ) → i < 3 → j < 3 → (label i ≡ label j) ↔ Linked trio_edges i j)
unfolding own_parents
connected_components-Linked_example =
    connected_components-Linked small_hashes decimals trio_config 4 false trio_graph
      (graph_of trio_answer) ((0 ∷ []) ∷ (1 ∷ 2 ∷ []) ∷ []) trio_run refl trio_edges-InRange

abbrev empty_trio : Graph
empty_trio = record trio_graph {
  supernodes = replicate 3 (make_supernode trio_config decimals 3 5);
  num_updates = 0;
}

empty_trio-Holds : Holds small_hashes decimals trio_config empty_trio (λ i. [])
empty_trio-Holds = record {
  unlocked = refl;
  count = refl;
  nodes = λ i s e.
      subst (λ t. IsNode small_hashes decimals trio_config 3 5 t [])
        (sym (get_elem?-replicate 3 i (make_supernode trio_config decimals 3 5) s e))
        (fresh-IsNode small_hashes decimals trio_config 3 5);
}

trio_built :
    apply_batches small_hashes decimals trio_config ((1, 2 ∷ []) ∷ (2, 1 ∷ []) ∷ []) empty_trio
    ≡ trio_graph
unfolding apply_batches batch_update make_supernode apply_delta_update sketches_for
    generate_delta_node delta_supernode add_assign make_sketch Defs.batch_update Defs.update
    contains col_index_hash to_bytes nondirectional_non_self_edge_pairing_fn sketch_width guess_gen
    double_to_ull Bucket.update index_hash
trio_built = refl

abbrev pub trio_streams : ℕ → List ℕ
trio_streams i = [] ++ map (edge_code small_hashes i) (delivered i ((1, 2 ∷ []) ∷ (2, 1 ∷ []) ∷ []))

pub trio_graph-Holds : Holds small_hashes decimals trio_config trio_graph trio_streams
trio_graph-Holds =
    subst (λ g. Holds small_hashes decimals trio_config g trio_streams) trio_built
      (apply_batches-Holds small_hashes decimals trio_config ((1, 2 ∷ []) ∷ (2, 1 ∷ []) ∷ [])
        empty_trio (λ i. []) empty_trio-Holds (omega arith, (omega arith, tt))).1

pub trio_start-Ready : Ready small_hashes decimals trio_config 3 5 trio_start trio_streams
unfolding own_parents
trio_start-Ready =
    start_rounds-Ready small_hashes decimals trio_config trio_graph trio_streams trio_graph-Holds
      refl

trio_samples :
    (sample_supernodes small_hashes trio_config
      (0 ∷ 1 ∷ 2 ∷ [])
      trio_graph.supernodes
      trio_start.query).2
    ≡ none
unfolding sample_supernodes sample query index_hash to_bytes inv_nondir_non_self_edge_pairing_fn
    start_rounds
trio_samples = refl

trio_first_edges :
    edges_of (sampled small_hashes trio_config trio_start).query trio_start.reps
    ≡ (1, 2) ∷ (1, 2) ∷ []
unfolding sample_supernodes sample query index_hash to_bytes inv_nondir_non_self_edge_pairing_fn
    start_rounds edges_of
trio_first_edges = refl

round-Ready_example : RoundDone small_hashes decimals trio_config 3 5 false trio_start trio_streams
unfolding start_rounds
round-Ready_example =
    round-Ready small_hashes decimals trio_config 3 5 false trio_start trio_streams trio_start-Ready
      trio_samples
      (subst (InRange 3) (sym trio_first_edges)
        ((omega arith, omega arith), ((omega arith, omega arith), tt)))
