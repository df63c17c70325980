-- ===== src/Tests/Graphs.antt =====
-- The theorems on graphs at concrete streams and samples.
use hyper_graph_streaming_cc.Prelude.{
  replicate, none, suc, ℕ, ◌<◌, ◌≡◌, refl, ap, List, [], ◌∷◌, ◌++◌, map, some, arith, length, Bool,
  true, false, ◌==◌, ltb, if◌then◌else◌,
}
use hyper_graph_streaming_cc.Arrays.Cells.{count}
use hyper_graph_streaming_cc.Exceptions.{Result, ok}
use hyper_graph_streaming_cc.Sketch.Defs.{Config, SampleSketchRet, good, zero_ret, fail}
use hyper_graph_streaming_cc.Sketch.Parity.{SameParity}
use hyper_graph_streaming_cc.Supernode.Defs.{Edge, configure_supernodes}
use hyper_graph_streaming_cc.Forest.{find, root}
use hyper_graph_streaming_cc.Forest.Root.{IsForest}
use hyper_graph_streaming_cc.Dsu.{own_parents, make_dsu}
use hyper_graph_streaming_cc.Dsu.Laws.{own_parents-IsForest, make_dsu_singletons}
use hyper_graph_streaming_cc.Graph.State.{Graph, make_graph}
use hyper_graph_streaming_cc.Graph.Update.{edge_code}
use hyper_graph_streaming_cc.Graph.Update.Laws.{Holds}
use hyper_graph_streaming_cc.Graph.Update.Ingest.{
  delivered, apply_batches, make_graph-Holds, apply_batches-Holds,
}
use hyper_graph_streaming_cc.Graph.Update.Cut.{both, streams_of, cut, cut_parity}
use hyper_graph_streaming_cc.Graph.Plan.{
  Plan, supernodes_to_merge, merge_samples, merge_sample, join_edge, get_parent, join, collect,
  unmerged, merged_from,
}
use hyper_graph_streaming_cc.Graph.Plan.Step.{merges}
use hyper_graph_streaming_cc.Graph.Plan.Samples.{RespectsAll, SamplesBelow}
use hyper_graph_streaming_cc.Graph.Plan.Partition.{
  supernodes_to_merge_joins, supernodes_to_merge_least, supernodes_to_merge_lists,
}
use hyper_graph_streaming_cc.Graph.Rounds.Unused.{total_unused}
use hyper_graph_streaming_cc.Graph.Components.{connected_components, write_binary, read_graph}
use hyper_graph_streaming_cc.Graph.Components.Laws.{connected_components_total}
use hyper_graph_streaming_cc.Graph.Components.Storage.{IsSaved, reopened, read_graph-write_binary}
use hyper_graph_streaming_cc.Supernode.Storage.{make_supernode-IsStored}
use hyper_graph_streaming_cc.Supernode.Defs.{make_supernode}
use hyper_graph_streaming_cc.Sketch.Defs.{configure}
use hyper_graph_streaming_cc.Tests.Data.{small_hashes, decimals}

abbrev config : Config
config = configure_supernodes decimals 4 4

make_graph-Holds_example :
    (g : Graph) × (make_graph small_hashes decimals false 4 4 5 true ≡ ok (config, g))
    × (g.num_nodes ≡ 4)
    × Holds small_hashes decimals config g (λ i. [])
make_graph-Holds_example = make_graph-Holds small_hashes decimals 4 4 5 true

new_graph : (g : Graph) × (g.num_nodes ≡ 4) × Holds small_hashes decimals config g (λ i. [])
new_graph = let (g, e, n, h) = make_graph-Holds small_hashes decimals 4 4 5 true in (g, n, h)

abbrev batches : List (ℕ × List ℕ)
batches = (1, 2 ∷ 3 ∷ []) ∷ (2, 1 ∷ []) ∷ (3, 1 ∷ []) ∷ []

apply_batches-Holds_example :
    ((apply_batches small_hashes decimals config batches new_graph.0).num_nodes
      ≡ new_graph.0.num_nodes)
    × Holds small_hashes decimals config
        (apply_batches small_hashes decimals config batches new_graph.0)
        (λ i. [] ++ map (edge_code small_hashes i) (delivered i batches))
apply_batches-Holds_example =
    apply_batches-Holds small_hashes decimals config
      ((1, 2 ∷ 3 ∷ []) ∷ (2, 1 ∷ []) ∷ (3, 1 ∷ []) ∷ []) new_graph.0 (λ i. []) new_graph.2
      (omega (arith, new_graph.1), (omega (arith, new_graph.1), (omega (arith, new_graph.1), tt)))

-- The set of 0, 1 and 2 in the path 0 - 1 - 2 - 3.
abbrev first_three : ℕ → Bool
first_three i = ltb i 3

cut_parity_example :
    SameParity
      (streams_of small_hashes first_three 4 0 (both ((0, 1) ∷ (2, 1) ∷ (3, 2) ∷ [])))
      (cut small_hashes first_three ((0, 1) ∷ (2, 1) ∷ (3, 2) ∷ []))
cut_parity_example =
    cut_parity small_hashes first_three 4 ((0, 1) ∷ (2, 1) ∷ (3, 2) ∷ [])
      ((omega arith, omega arith), ((omega arith, omega arith), ((omega arith, omega arith), tt)))

-- Vertex 0 sampled an edge to 1, 1 none, 2 failed, and 3 sampled an edge to 1.
abbrev samples : List (Edge × SampleSketchRet)
samples = ((0, 1), good) ∷ ((0, 0), zero_ret) ∷ ((0, 0), fail) ∷ ((1, 3), good) ∷ []

abbrev all_reps : List ℕ
all_reps = 0 ∷ 1 ∷ 2 ∷ 3 ∷ []

abbrev singletons : List ℕ
singletons = 0 ∷ 1 ∷ 2 ∷ 3 ∷ []

abbrev ones : List ℕ
ones = 1 ∷ 1 ∷ 1 ∷ 1 ∷ []

singletons-IsForest : IsForest singletons
unfolding own_parents
singletons-IsForest = own_parents-IsForest 4

samples_below : SamplesBelow (length singletons) samples all_reps
samples_below = ((omega arith, omega arith), (tt, (tt, ((omega arith, omega arith), tt))))

singletons-root : (k : ℕ) → k < 4 → root singletons k ≡ k
unfolding make_dsu own_parents
singletons-root k h = (make_dsu_singletons 4).2 k h

supernodes_to_merge_joins_example :
    (plan : Plan) × (supernodes_to_merge (length singletons) samples all_reps singletons ones false
      ≡ some plan)
    × IsForest plan.parent
    × (length plan.parent ≡ length singletons)
    × RespectsAll (root plan.parent) samples all_reps
supernodes_to_merge_joins_example =
    supernodes_to_merge_joins samples all_reps singletons ones false singletons-IsForest
      samples_below

abbrev merged_plan : Plan
merged_plan = record {
  parent = 0 ∷ 0 ∷ 2 ∷ 0 ∷ [];
  size = 3 ∷ 1 ∷ 1 ∷ 1 ∷ [];
  modified = true;
  new_reps = 2 ∷ 0 ∷ [];
  to_merge = (1 ∷ 3 ∷ []) ∷ [] ∷ [] ∷ [] ∷ [];
}

merged_plan_run :
    supernodes_to_merge (length singletons) samples all_reps singletons ones false
    ≡ some merged_plan
unfolding supernodes_to_merge merge_samples merge_sample join_edge get_parent find join collect
    unmerged merged_from
merged_plan_run = refl

-- 2 apart from the others.
abbrev label : ℕ → ℕ
label k = if k == 2 then 7 else 8

supernodes_to_merge_least_example : label (root merged_plan.parent 3) ≡ label 3
supernodes_to_merge_least_example =
    supernodes_to_merge_least samples all_reps singletons ones false singletons-IsForest
      samples_below merged_plan merged_plan_run label (λ k h. ap label (singletons-root k h))
      (refl, (tt, (tt, (refl, tt)))) 3 (omega arith)

supernodes_to_merge_lists_example : count 3 (1 ∷ 3 ∷ []) ≡ merges singletons merged_plan.parent 0 3
supernodes_to_merge_lists_example =
    supernodes_to_merge_lists samples all_reps singletons ones false singletons-IsForest
      samples_below merged_plan merged_plan_run 0 3 (omega arith)

connected_components_total_example :
    (r : Graph × Result (List (List ℕ))) × (connected_components small_hashes decimals config
        (suc (total_unused new_graph.0.supernodes))
        false
        new_graph.0
      ≡ some r)
connected_components_total_example =
    connected_components_total small_hashes decimals config
      (suc (total_unused new_graph.0.supernodes)) new_graph.0 (omega arith) false

-- A graph of two vertices to write.
abbrev pair_config : Config
pair_config = configure_supernodes decimals 2 4

abbrev pair_graph : Graph
pair_graph = record {
  num_nodes = 2;
  seed = 5;
  update_locked = false;
  modified = false;
  supernodes = replicate 2 (make_supernode pair_config decimals 2 5);
  parent = 0 ∷ 1 ∷ [];
  size = 1 ∷ 1 ∷ [];
  gts = [];
  num_updates = 0;
  copy_in_mem = true;
  backup = none;
}

pair_graph-IsSaved : IsSaved small_hashes decimals pair_config pair_graph
unfolding configure_supernodes configure
pair_graph-IsSaved =
    let stored_pair = make_supernode-IsStored small_hashes pair_config decimals 2 5 in
    record {
      seed-lt = omega arith;
      num_nodes-lt = omega arith;
      failure_factor-lt = omega arith;
      configured = refl;
      count = refl;
      supernodes = (stored_pair, (stored_pair, tt));
    }

read_graph-write_binary_example :
    read_graph small_hashes decimals false true (write_binary small_hashes pair_config pair_graph)
    ≡ ok (pair_config, reopened small_hashes decimals pair_config pair_graph true)
read_graph-write_binary_example =
    read_graph-write_binary small_hashes decimals true pair_config pair_graph pair_graph-IsSaved
