-- ===== src/Graph/Components/Storage.antt =====
-- A graph that was written is read back.
use mathlib.Core.List.{append_assoc, append-nil}
use hyper_graph_streaming_cc.Prelude.{
  ℕ, suc, ◌^◌, ◌<◌, ◌≡◌, refl, ap, ◌∙◌, sym, subst, List, [], ◌∷◌, ◌++◌, map, Option, some, false,
  Bool, length, replicate,
}
use hyper_graph_streaming_cc.Platform.{Platform, Doubles}
use hyper_graph_streaming_cc.Bytes.{to_bytes, from_bytes}
use hyper_graph_streaming_cc.Bytes.Laws.{from_bytes-to_bytes}
use hyper_graph_streaming_cc.Exceptions.{ok}
use hyper_graph_streaming_cc.Sketch.Defs.{Config}
use hyper_graph_streaming_cc.Supernode.Defs.{Supernode, read_supernode, configure_supernodes}
use hyper_graph_streaming_cc.Supernode.Defs
use hyper_graph_streaming_cc.Supernode.Storage.{IsStored, stored, read_supernode-write_binary}
use hyper_graph_streaming_cc.Dsu.{own_parents}
use hyper_graph_streaming_cc.Graph.State.{Graph, read_supernodes}
use hyper_graph_streaming_cc.Graph.Components.{write_supernodes, write_binary, read_graph}

module _ (p : Platform) (d : Doubles) where
  abbrev pub AllStored : Config → ℕ → ℕ → List Supernode → Type 0
  AllStored cfg n seed [] = Unit {0}
  AllStored cfg n seed (s ∷ supernodes) =
      IsStored p d cfg n seed s × AllStored cfg n seed supernodes

  -- The numbers of the file fit their types, the parameters are those that reading sets, and the
  -- supernodes are those of the graph.
  pub record IsSaved (cfg : Config) (g : Graph) : Type 0 where
    pub seed-lt : g.seed < 256 ^ 8
    pub num_nodes-lt : g.num_nodes < 256 ^ p.sizeof_node_id
    pub failure_factor-lt : cfg.failure_factor < 256 ^ p.sizeof_vec
    pub configured : configure_supernodes d g.num_nodes cfg.failure_factor ≡ cfg
    pub count : length g.supernodes ≡ g.num_nodes
    pub supernodes : AllStored cfg g.num_nodes g.seed g.supernodes

  read_supernodes-suc :
      (cfg : Config) (n seed count : ℕ) (file more rest : List ℕ) (s : Supernode)
      (ss : List Supernode)
      → read_supernode p cfg d n seed file ≡ some (s, more)
      → read_supernodes p d cfg n seed count more ≡ some (ss, rest)
      → read_supernodes p d cfg n seed (suc count) file ≡ some (s ∷ ss, rest)
  unfolding read_supernodes
  read_supernodes-suc cfg n seed count file more rest s ss e e' =
      rw (e, read_supernodes) (rw e' refl)

  read_supernodes-write_supernodes :
      (cfg : Config) (n seed : ℕ) (supernodes : List Supernode) (rest : List ℕ)
      → AllStored cfg n seed supernodes
      → read_supernodes p d cfg n seed
          (length supernodes)
          (write_supernodes p cfg supernodes ++ rest)
        ≡ some (map (stored p d cfg) supernodes, rest)
  unfolding read_supernodes write_supernodes
  read_supernodes-write_supernodes cfg n seed [] rest h = refl
  read_supernodes-write_supernodes cfg n seed (s ∷ supernodes) rest h =
      let more = write_supernodes p cfg supernodes ++ rest in
      ap (read_supernodes p d cfg n seed (suc (length supernodes)))
        (append_assoc (Defs.write_binary p cfg s) (write_supernodes p cfg supernodes) rest)
      ∙ read_supernodes-suc cfg n seed (length supernodes) (Defs.write_binary p cfg s ++ more) more
          rest (stored p d cfg s) (map (stored p d cfg) supernodes)
          (read_supernode-write_binary p d cfg n seed s more h.0)
          (read_supernodes-write_supernodes cfg n seed supernodes rest h.1)

  -- The graph that a file gives.
  abbrev pub reopened : Config → Graph → Bool → Graph
  reopened cfg g copy_in_mem = record {
    num_nodes = g.num_nodes;
    seed = g.seed;
    update_locked = false;
    modified = false;
    supernodes = map (stored p d cfg) g.supernodes;
    parent = own_parents g.num_nodes 0;
    size = replicate g.num_nodes 1;
    gts = [];
    num_updates = 0;
    copy_in_mem = copy_in_mem;
    backup = Option.none;
  }

  read_graph-found :
      (copy_in_mem : Bool) (cfg : Config) (g : Graph) (file more more' body rest : List ℕ)
      → from_bytes 8 file ≡ some (g.seed, more)
      → from_bytes p.sizeof_node_id more ≡ some (g.num_nodes, more')
      → from_bytes p.sizeof_vec more' ≡ some (cfg.failure_factor, body)
      → configure_supernodes d g.num_nodes cfg.failure_factor ≡ cfg
      → read_supernodes p d cfg g.num_nodes g.seed g.num_nodes body
        ≡ some (map (stored p d cfg) g.supernodes, rest)
      → read_graph p d false copy_in_mem file ≡ ok (cfg, reopened cfg g copy_in_mem)
  unfolding read_graph
  read_graph-found copy_in_mem cfg g file more more' body rest e1 e2 e3 e4 e5 =
      let set_up = configure_supernodes d g.num_nodes cfg.failure_factor in
      let e5' : read_supernodes p d set_up g.num_nodes g.seed g.num_nodes body
          ≡ some (map (stored p d cfg) g.supernodes, rest) =
        subst
          (λ c.
            read_supernodes p d c g.num_nodes g.seed g.num_nodes body
            ≡ some (map (stored p d cfg) g.supernodes, rest))
          (sym e4) e5 in
      rw (e1, read_graph) (rw e2 (rw e3 (rw e5' (ap (λ c. ok (c, reopened cfg g copy_in_mem)) e4))))

  -- If the numbers of a graph fit their types, the parameters are those that its size and failure
  -- factor give, and its supernodes are storable and belong to it, then reading what `write_binary`
  -- wrote gives the parameters and the graph, with fresh query states, sets, and update counts.
  pub read_graph-write_binary :
      (copy_in_mem : Bool) (cfg : Config) (g : Graph)
      → IsSaved cfg g
      → read_graph p d false copy_in_mem (write_binary p cfg g)
        ≡ ok (cfg, reopened cfg g copy_in_mem)
  unfolding write_binary
  read_graph-write_binary copy_in_mem cfg g h =
      let body = write_supernodes p cfg g.supernodes in
      let more' = to_bytes p.sizeof_vec cfg.failure_factor ++ body in
      let more = to_bytes p.sizeof_node_id g.num_nodes ++ more' in
      let supernodes =
        subst
          (λ n.
            read_supernodes p d cfg g.num_nodes g.seed n (body ++ [])
            ≡ some (map (stored p d cfg) g.supernodes, []))
          h.count
          (read_supernodes-write_supernodes cfg g.num_nodes g.seed g.supernodes [] h.supernodes) in
      let head = to_bytes 8 g.seed in
      let nodes = to_bytes p.sizeof_node_id g.num_nodes in
      let factor = to_bytes p.sizeof_vec cfg.failure_factor in
      ap (read_graph p d false copy_in_mem)
        (append_assoc (head ++ nodes) factor body ∙ append_assoc head nodes (factor ++ body))
      ∙ read_graph-found copy_in_mem cfg g (head ++ more) more more' body []
          (from_bytes-to_bytes 8 g.seed more h.seed-lt)
          (from_bytes-to_bytes p.sizeof_node_id g.num_nodes more' h.num_nodes-lt)
          (from_bytes-to_bytes p.sizeof_vec cfg.failure_factor body h.failure_factor-lt)
          h.configured
          (subst
            (λ file.
              read_supernodes p d cfg g.num_nodes g.seed g.num_nodes file
              ≡ some (map (stored p d cfg) g.supernodes, []))
            (append-nil body) supernodes)
