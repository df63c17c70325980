-- ===== src/Graph/State.antt =====
-- The state of a graph, its constructors, and `Graph::update`.
use hyper_graph_streaming_cc.Prelude.{
  ℕ, zero, suc, List, [], ◌∷◌, ◌++◌, Option, none, some, Bool, false, if◌then◌else◌, replicate,
}
use hyper_graph_streaming_cc.Platform.{Platform, Doubles}
use hyper_graph_streaming_cc.Exceptions.{Result, ok, throw, update_locked, multiple_graphs}
use hyper_graph_streaming_cc.Sketch.Defs.{Config}
use hyper_graph_streaming_cc.Supernode.Defs.{
  Supernode, Edge, make_supernode, configure_supernodes, read_supernode,
}
use hyper_graph_streaming_cc.Dsu.{own_parents}

-- `gts` lists the edges handed to the guttering system so far, and `backup` is the contents of the
-- backup file, if there is one. `representatives` is never read and is left out.
pub record Graph : Type 0 where
  pub num_nodes : ℕ
  pub seed : ℕ
  pub update_locked : Bool
  pub modified : Bool
  pub supernodes : List Supernode
  pub parent : List ℕ
  pub size : List ℕ
  pub gts : List Edge
  pub num_updates : ℕ
  pub copy_in_mem : Bool
  pub backup : Option (List ℕ)

module _ (p : Platform) (d : Doubles) where
  -- `Graph(node_id_t, int)`, with the seed that the generator gave, the configuration read from the
  -- file, and the failure factor that is set.
  unfoldable pub make_graph : Bool → ℕ → ℕ → ℕ → Bool → Result (Config × Graph)
  make_graph open_graph num_nodes failure_factor seed copy_in_mem =
      if open_graph
      then throw multiple_graphs
      else (let cfg = configure_supernodes d num_nodes failure_factor in
          ok (
            cfg,
            record {
              num_nodes = num_nodes;
              seed = seed;
              update_locked = false;
              modified = false;
              supernodes = replicate num_nodes (make_supernode cfg d num_nodes seed);
              parent = own_parents num_nodes 0;
              size = replicate num_nodes 1;
              gts = [];
              num_updates = 0;
              copy_in_mem = copy_in_mem;
              backup = none;
            },
          ))

  -- The supernodes of the reading constructor, one after the other.
  unfoldable pub read_supernodes : Config → ℕ → ℕ → ℕ → List ℕ → Option (List Supernode × List ℕ)
  read_supernodes cfg n seed zero binary_in = some ([], binary_in)
  read_supernodes cfg n seed (suc count) binary_in =
      elim (read_supernode p cfg d n seed binary_in) [
        | none ↦ none
        | some (s, rest) ↦ elim (read_supernodes cfg n seed count rest) [
          | none ↦ none
          | some (ss, end) ↦ some (s ∷ ss, end)
        ]
      ]

-- `update` hands both orientations of the edge to the guttering system, unless updates are locked.
unfoldable pub update : Edge → Graph → Graph × Result Edge
update edge g =
    if g.update_locked
    then (g, throw update_locked)
    else (record g { gts = g.gts ++ edge ∷ (edge.1, edge.0) ∷ [] }, ok (edge.1, edge.0))
