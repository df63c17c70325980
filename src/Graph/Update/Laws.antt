-- ===== src/Graph/Update/Laws.antt =====
-- Ingestion: after any batches, each supernode represents the stream of its vertex.
use hyper_graph_streaming_cc.Prelude.{
  ℕ, ◌+◌, ◌<◌, ◌≡◌, refl, ap, ◌∙◌, sym, List, ◌++◌, map, arith, length, some, length-set, subst,
  ==_refl, false, ◌==◌, if◌then◌else◌, get_elem?, set,
}
use hyper_graph_streaming_cc.Prelude.Slots.{if_false, get_elem?-lt, set_every}
use hyper_graph_streaming_cc.Platform.{Platform, Doubles}
use hyper_graph_streaming_cc.Exceptions.{ok}
use hyper_graph_streaming_cc.Util.{u64}
use hyper_graph_streaming_cc.Sketch.Defs.{Config}
use hyper_graph_streaming_cc.Supernode.Defs.{
  Supernode, sketches_for, delta_supernode, apply_delta_update,
}
use hyper_graph_streaming_cc.Supernode.Represents.{Represents}
use hyper_graph_streaming_cc.Supernode.Streams.{apply_delta_update-Represents}
use hyper_graph_streaming_cc.Graph.State.{Graph}
use hyper_graph_streaming_cc.Graph.Update.{edge_code, generate_delta_node, batch_update}

module _ (p : Platform) (d : Doubles) (cfg : Config) where
  -- A supernode of a graph with `n` vertices and the given seed, of the stream `xs`.
  pub record IsNode (n seed : ℕ) (s : Supernode) (xs : List ℕ) : Type 0 where
    pub size : s.n ≡ n
    pub sketch_count : s.num_sketches ≡ sketches_for d n
    pub same_seed : s.seed ≡ seed
    pub contents : Represents p d cfg s xs

  -- The graph takes updates, and the supernode of vertex `i` represents the stream `streams i`.
  pub record Holds (g : Graph) (streams : ℕ → List ℕ) : Type 0 where
    pub unlocked : g.update_locked ≡ false
    pub count : length g.supernodes ≡ g.num_nodes
    pub nodes :
        (i : ℕ) (s : Supernode)
        → get_elem? g.supernodes i ≡ some s
        → IsNode g.num_nodes g.seed s (streams i)

  -- The streams after one more batch.
  abbrev pub extend : (ℕ → List ℕ) → ℕ → List ℕ → ℕ → List ℕ
  extend streams src edges i =
      if src == i then streams i ++ map (edge_code p src) edges else streams i

  batch_update-found :
      (src : ℕ) (edges : List ℕ) (g : Graph) (s s' : Supernode)
      → g.update_locked ≡ false
      → get_elem? g.supernodes src ≡ some s
      → apply_delta_update cfg s (delta_supernode p cfg d s.n s.seed (map (edge_code p src) edges))
        ≡ some s'
      → batch_update p d cfg src edges g ≡ (
        record g {
          num_updates = u64 (g.num_updates + length edges);
          supernodes = set g.supernodes src s';
        },
        ok (generate_delta_node p d cfg s.n s.seed src edges),
      )
  unfolding batch_update generate_delta_node
  batch_update-found src edges g s s' e f h = if_false _ _ g.update_locked e ∙ rw f (rw h refl)

  -- If a graph takes updates and its supernodes represent some streams, a batch for one of its
  -- vertices is applied without an exception, and its edges are appended to the stream of that
  -- vertex alone.
  pub batch_update-Holds :
      (src : ℕ) (edges : List ℕ) (g : Graph) (streams : ℕ → List ℕ)
      → Holds g streams
      → src < g.num_nodes
      → (delta : Supernode) × ((batch_update p d cfg src edges g).1 ≡ ok delta)
        × ((batch_update p d cfg src edges g).0.num_nodes ≡ g.num_nodes)
        × Holds (batch_update p d cfg src edges g).0 (extend streams src edges)
  batch_update-Holds src edges g streams h lt =
      let (s, at) = get_elem?-lt g.supernodes src (omega (arith, h.count)) in
      let node = h.nodes src s at in
      let (ss, applied, holds) =
        apply_delta_update-Represents p d cfg s (streams src) (map (edge_code p src) edges)
          (node.sketch_count ∙ ap (sketches_for d) (sym node.size)) node.contents in
      let found =
        batch_update-found src edges g s (record s { sketches = ss }) h.unlocked at applied in
      (
        generate_delta_node p d cfg s.n s.seed src edges,
        ap (λ r. r.1) found,
        ap (λ r. r.0.num_nodes) found,
        subst (λ r. Holds r.0 (extend streams src edges)) (sym found)
            (record {
              unlocked = h.unlocked;
              count = length-set g.supernodes src (record s { sketches = ss }) ∙ h.count;
              nodes =
                  set_every (λ i t. IsNode g.num_nodes g.seed t (extend streams src edges i))
                    g.supernodes src (record s { sketches = ss }) (omega (arith, h.count))
                    (rw (==_refl src) (record {
                      size = node.size;
                      sketch_count = node.sketch_count;
                      same_seed = node.same_seed;
                      contents = holds;
                    }))
                    (λ j t e other. rw other (h.nodes j t e));
            }),
      )
