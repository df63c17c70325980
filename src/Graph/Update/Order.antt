-- ===== src/Graph/Update/Order.antt =====
-- The streams of a graph count only modulo 2: their order, and pairs of equal updates, do not matter.
use hyper_graph_streaming_cc.Prelude.{ℕ, zero, suc, ◌∙◌, List, [], ◌∷◌}
use hyper_graph_streaming_cc.Platform.{Platform, Doubles}
use hyper_graph_streaming_cc.Sketch.Defs.{Config, Sketch, make_sketch}
use hyper_graph_streaming_cc.Sketch.Parity.{SameParity, batch_update_parity}
use hyper_graph_streaming_cc.Supernode.Represents.{HoldsFrom}
use hyper_graph_streaming_cc.Graph.State.{Graph}
use hyper_graph_streaming_cc.Graph.Update.Laws.{Holds}

module _ (p : Platform) (d : Doubles) (cfg : Config) where
  HoldsFrom-SameParity :
      (i : ℕ) (xs ys seeds : List ℕ) (ss : List Sketch)
      → SameParity xs ys
      → HoldsFrom p cfg i xs seeds ss
      → HoldsFrom p cfg i ys seeds ss
  HoldsFrom-SameParity i xs ys [] [] same h = tt
  HoldsFrom-SameParity i xs ys [] (s ∷ ss) same h = h
  HoldsFrom-SameParity i xs ys (seed ∷ seeds) [] same h = h
  HoldsFrom-SameParity zero xs ys (seed ∷ seeds) (s ∷ ss) same h = (
    h.0 ∙ batch_update_parity p cfg xs ys (make_sketch cfg seed) same,
    HoldsFrom-SameParity zero xs ys seeds ss same h.1,
  )
  HoldsFrom-SameParity (suc i) xs ys (seed ∷ seeds) (s ∷ ss) same h =
      (h.0, HoldsFrom-SameParity i xs ys seeds ss same h.1)

  pub Holds-SameParity :
      (g : Graph) (xs ys : ℕ → List ℕ)
      → ((i : ℕ) → SameParity (xs i) (ys i))
      → Holds p d cfg g xs
      → Holds p d cfg g ys
  Holds-SameParity g xs ys same h = record {
    unlocked = h.unlocked;
    count = h.count;
    nodes = λ i s e.
        let node = h.nodes i s e in
        record {
          size = node.size;
          sketch_count = node.sketch_count;
          same_seed = node.same_seed;
          contents = record {
            index = node.contents.index;
            contents =
                HoldsFrom-SameParity s.idx (xs i) (ys i) _ s.sketches (same i)
                  node.contents.contents;
          };
        };
  }
