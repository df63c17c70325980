-- ===== src/Graph/Update/Ingest.antt =====
-- A whole stream: from a new graph, through any sequence of batches.
use hyper_graph_streaming_cc.Prelude.{
  ℕ, ◌<◌, ◌≡◌, refl, ap, ◌∙◌, sym, List, [], ◌∷◌, ◌++◌, map, length-replicate, Bool, false, subst,
  fun_ext, ◌==◌, ==_iff, Bool-cases, inl, inr, if◌then◌else◌,
}
use mathlib.Core.List.{append-nil, append_assoc, map-append}
use hyper_graph_streaming_cc.Platform.{Platform, Doubles}
use hyper_graph_streaming_cc.Exceptions.{ok}
use hyper_graph_streaming_cc.Sketch.Defs.{Config}
use hyper_graph_streaming_cc.Supernode.Defs.{make_supernode, configure_supernodes}
use hyper_graph_streaming_cc.Supernode.Streams.{make_supernode-Represents}
use hyper_graph_streaming_cc.Graph.State.{Graph, make_graph}
use hyper_graph_streaming_cc.Graph.Update.{edge_code, batch_update}
use hyper_graph_streaming_cc.Graph.Update.Laws.{IsNode, Holds, extend, batch_update-Holds}
use hyper_graph_streaming_cc.Prelude.Slots.{get_elem?-replicate}

-- The destinations that the batches bring to vertex `i`.
unfoldable pub delivered : ℕ → List (ℕ × List ℕ) → List ℕ
delivered i [] = []
delivered i (b ∷ batches) = let rest = delivered i batches in if b.0 == i then b.1 ++ rest else rest

abbrev pub SourcesBelow : ℕ → List (ℕ × List ℕ) → Type 0
SourcesBelow n [] = Unit {0}
SourcesBelow n (b ∷ batches) = (b.0 < n) × SourcesBelow n batches

module _ (p : Platform) (d : Doubles) where
  -- One call of `batch_update` after the other.
  unfoldable pub apply_batches : Config → List (ℕ × List ℕ) → Graph → Graph
  apply_batches cfg [] g = g
  apply_batches cfg (b ∷ batches) g = apply_batches cfg batches (batch_update p d cfg b.0 b.1 g).0

  pub fresh-IsNode :
      (cfg : Config) (n seed : ℕ) → IsNode p d cfg n seed (make_supernode cfg d n seed) []
  unfolding make_supernode
  fresh-IsNode cfg n seed = record {
    size = refl;
    sketch_count = refl;
    same_seed = refl;
    contents = make_supernode-Represents p d cfg n seed;
  }

  -- When no other graph is open, the constructor returns a graph that takes updates, has the given
  -- number of vertices, and represents the empty stream at every one of them.
  pub make_graph-Holds :
      (num_nodes failure_factor seed : ℕ) (copy_in_mem : Bool)
      → (g : Graph) × (make_graph p d false num_nodes failure_factor seed copy_in_mem
          ≡ ok (configure_supernodes d num_nodes failure_factor, g))
        × (g.num_nodes ≡ num_nodes)
        × Holds p d (configure_supernodes d num_nodes failure_factor) g (λ i. [])
  unfolding make_graph
  make_graph-Holds num_nodes failure_factor seed copy_in_mem =
      let cfg = configure_supernodes d num_nodes failure_factor in
      let fresh = make_supernode cfg d num_nodes seed in
      (
        _,
        refl,
        refl,
        record {
          unlocked = refl;
          count = length-replicate num_nodes fresh;
          nodes = λ i s e.
              subst (λ t. IsNode p d cfg num_nodes seed t [])
                (sym (get_elem?-replicate num_nodes i fresh s e)) (fresh-IsNode cfg num_nodes seed);
        },
      )

  extend-delivered :
      (cfg : Config) (b : ℕ × List ℕ) (batches : List (ℕ × List ℕ)) (streams : ℕ → List ℕ) (i : ℕ)
      → extend p d cfg streams b.0 b.1 i ++ map (edge_code p i) (delivered i batches)
        ≡ streams i ++ map (edge_code p i) (delivered i (b ∷ batches))
  unfolding delivered
  extend-delivered cfg b batches streams i = elim (Bool-cases (b.0 == i)) [
    | inl same ↦ rw same (
        ap (λ k. streams i ++ map (edge_code p k) b.1 ++ map (edge_code p i) (delivered i batches))
          ((==_iff b.0 i).0 same)
        ∙ append_assoc (streams i) (map (edge_code p i) b.1)
            (map (edge_code p i) (delivered i batches))
        ∙ ap (λ r. streams i ++ r) (sym (map-append (edge_code p i) b.1 (delivered i batches))))
    | inr other ↦ rw other refl
  ]

  -- If a graph takes updates and its supernodes represent some streams, then after any batches
  -- whose sources are vertices of the graph it still takes updates, and the supernode of each
  -- vertex represents its stream followed by the edges delivered to it, in their order.
  pub apply_batches-Holds :
      (cfg : Config) (batches : List (ℕ × List ℕ)) (g : Graph) (streams : ℕ → List ℕ)
      → Holds p d cfg g streams
      → SourcesBelow g.num_nodes batches
      → ((apply_batches cfg batches g).num_nodes ≡ g.num_nodes)
        × Holds p d cfg
            (apply_batches cfg batches g)
            (λ i. streams i ++ map (edge_code p i) (delivered i batches))
  unfolding apply_batches delivered
  apply_batches-Holds cfg [] g streams h below =
      (refl, subst (Holds p d cfg g) (fun_ext (λ i. sym (append-nil (streams i)))) h)
  apply_batches-Holds cfg (b ∷ batches) g streams h below =
      let (delta, applied, same, h') = batch_update-Holds p d cfg b.0 b.1 g streams h below.0 in
      let (same', h'') =
        apply_batches-Holds cfg batches (batch_update p d cfg b.0 b.1 g).0
          (extend p d cfg streams b.0 b.1) h'
          (subst (λ n. SourcesBelow n batches) (sym same) below.1) in
      (same' ∙ same, subst (Holds p d cfg _) (fun_ext (extend-delivered cfg b batches streams)) h'')
