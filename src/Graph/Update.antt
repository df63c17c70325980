-- ===== src/Graph/Update.antt =====
-- `Graph::generate_delta_node` and `Graph::batch_update`.
pub mod Laws
pub mod Ingest
pub mod Cut
pub mod Order
use hyper_graph_streaming_cc.Prelude.{
  ℕ, ◌+◌, List, [], ◌∷◌, map, Option, none, some, Bool, false, true, if◌then◌else◌, ltb, length,
  get_elem?, set,
}
use hyper_graph_streaming_cc.Platform.{Platform, Doubles}
use hyper_graph_streaming_cc.Exceptions.{Result, ok, throw, update_locked, undefined_behaviour}
use hyper_graph_streaming_cc.Util.{u64, nondirectional_non_self_edge_pairing_fn}
use hyper_graph_streaming_cc.Sketch.Defs.{Config}
use hyper_graph_streaming_cc.Supernode.Defs.{Supernode, delta_supernode, apply_delta_update}
use hyper_graph_streaming_cc.Graph.State.{Graph}

-- The code of the edge between `src` and `edge`, the smaller endpoint first.
unfoldable pub edge_code : Platform → ℕ → ℕ → ℕ
edge_code p src edge =
    if ltb src edge
    then nondirectional_non_self_edge_pairing_fn p src edge
    else nondirectional_non_self_edge_pairing_fn p edge src

module _ (p : Platform) (d : Doubles) (cfg : Config) where
  unfoldable pub generate_delta_node : ℕ → ℕ → ℕ → List ℕ → Supernode
  unfolding edge_code
  generate_delta_node node_n node_seed src edges =
      delta_supernode p cfg d node_n node_seed (map (edge_code p src) edges)

  -- A vertex out of range, and a failed assertion of the sketches, are undefined behaviour.
  unfoldable pub batch_update : ℕ → List ℕ → Graph → Graph × Result Supernode
  batch_update src edges g =
      if g.update_locked then (g, throw update_locked) else (elim (get_elem? g.supernodes src) [
        | none ↦ (g, throw undefined_behaviour)
        | some s ↦
            let delta_loc = generate_delta_node s.n s.seed src edges in
            let counted = record g { num_updates = u64 (g.num_updates + length edges) } in
            elim (apply_delta_update cfg s delta_loc) [
              | none ↦ (counted, throw undefined_behaviour)
              | some s' ↦ (record counted { supernodes = set g.supernodes src s' }, ok delta_loc)
            ]
      ])
