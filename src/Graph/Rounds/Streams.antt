-- ===== src/Graph/Rounds/Streams.antt =====
-- What the supernodes hold while `Graph::boruvka_emulation` (src/graph.cpp) samples and merges them:
-- the streams of the nodes that were merged into each.
use mathlib.Core.Option
use hyper_graph_streaming_cc.Prelude.{
  ℕ, ◌<◌, ◌≡◌, refl, ap, ◌∙◌, sym, max, List, [], ◌∷◌, ◌++◌, length, length-set, Option, some, Bool,
  Bool-cases, Option-cases, inl, inr, ==_iff, ◌==◌, ==_refl, if◌then◌else◌, get_elem?, set, arith,
}
use hyper_graph_streaming_cc.Prelude.Slots.{get_elem?-lt, get_elem?-below, set_every}
use hyper_graph_streaming_cc.Platform.{Platform, Doubles}
use hyper_graph_streaming_cc.Sketch.Defs.{Config, SampleSketchRet}
use hyper_graph_streaming_cc.Supernode.Defs.{Supernode, Edge, sample, merge, copy_supernode}
use hyper_graph_streaming_cc.Supernode.Represents.{merge-Represents}
use hyper_graph_streaming_cc.Supernode.Sampling.{sample_out, sample_in}
use hyper_graph_streaming_cc.Supernode.Streams.{Represents-IsQueryable, sample-Represents}
use hyper_graph_streaming_cc.Graph.Update.Laws.{IsNode}
use hyper_graph_streaming_cc.Graph.Plan.{nodes_of}
use hyper_graph_streaming_cc.Graph.Plan.Below.{AllBelow, MergesBelow}
use hyper_graph_streaming_cc.Graph.Rounds.{
  sample_supernodes, store_sample, merge_nodes, merge_supernodes,
}

-- The streams once the supernode of `b` is merged into that of `a`.
abbrev pub merge_streams : (ℕ → List ℕ) → ℕ → ℕ → ℕ → List ℕ
merge_streams streams a b i = if a == i then streams a ++ streams b else streams i

-- ... and once those of the nodes `bs` are merged into that of `a`, one after the other.
unfoldable pub gather : (ℕ → List ℕ) → ℕ → List ℕ → ℕ → List ℕ
gather streams a [] i = streams i
gather streams a (b ∷ bs) i = gather (merge_streams streams a b) a bs i

-- ... for each representative in turn.
unfoldable pub gather_all : (ℕ → List ℕ) → List ℕ → List (List ℕ) → ℕ → List ℕ
gather_all streams [] to_merge i = streams i
gather_all streams (a ∷ reps) to_merge i =
    gather_all (gather streams a (nodes_of to_merge a)) reps to_merge i

module _ (p : Platform) (d : Doubles) (cfg : Config) (n seed : ℕ) where
  -- The supernodes of a graph of `n` nodes, each representing its stream.
  pub record AllNodes (supernodes : List Supernode) (streams : ℕ → List ℕ) : Type 0 where
    pub count : length supernodes ≡ n
    pub nodes :
        (i : ℕ) (s : Supernode)
        → get_elem? supernodes i ≡ some s
        → IsNode p d cfg n seed s (streams i)

  AllNodes-set :
      (supernodes : List Supernode) (streams : ℕ → List ℕ) (a b : ℕ) (s : Supernode)
      → AllNodes supernodes streams
      → a < n
      → IsNode p d cfg n seed s (streams a ++ streams b)
      → AllNodes (set supernodes a s) (merge_streams streams a b)
  AllNodes-set supernodes streams a b s h lt node = record {
    count = length-set supernodes a s ∙ h.count;
    nodes =
        set_every (λ i t. IsNode p d cfg n seed t (merge_streams streams a b i)) supernodes a s
          (omega (arith, h.count)) (rw (==_refl a) node) (λ j t e other. rw other (h.nodes j t e));
  }

  merge-IsNode :
      (s t : Supernode) (xs ys : List ℕ)
      → IsNode p d cfg n seed s xs
      → IsNode p d cfg n seed t ys
      → (s' : Supernode) × (merge cfg s t ≡ some s') × IsNode p d cfg n seed s' (xs ++ ys)
  merge-IsNode s t xs ys hs ht =
      let (ss, e, both) =
        merge-Represents p d cfg s t xs ys (hs.sketch_count ∙ sym ht.sketch_count)
          (hs.same_seed ∙ sym ht.same_seed) hs.contents ht.contents in
      (
        record s { idx = max s.idx t.idx; sketches = ss },
        e,
        record {
          size = hs.size;
          sketch_count = hs.sketch_count;
          same_seed = hs.same_seed;
          contents = both;
        },
      )

  merge_nodes-cons :
      (a b : ℕ) (bs : List ℕ) (supernodes : List Supernode) (s t s' : Supernode)
      → get_elem? supernodes a ≡ some s
      → get_elem? supernodes b ≡ some t
      → merge cfg s t ≡ some s'
      → merge_nodes cfg a (b ∷ bs) supernodes ≡ merge_nodes cfg a bs (set supernodes a s')
  unfolding merge_nodes
  merge_nodes-cons a b bs supernodes s t s' e f g = rw (e, merge_nodes) (rw f (rw g refl))

  merge_nodes-AllNodes :
      (a : ℕ) (bs : List ℕ) (supernodes : List Supernode) (streams : ℕ → List ℕ)
      → AllNodes supernodes streams
      → a < n
      → AllBelow n bs
      → (merged : List Supernode) × (merge_nodes cfg a bs supernodes ≡ some merged)
        × AllNodes merged (gather streams a bs)
  unfolding merge_nodes gather
  merge_nodes-AllNodes a [] supernodes streams h lt below = (supernodes, refl, h)
  merge_nodes-AllNodes a (b ∷ bs) supernodes streams h lt below =
      let (s, at_a) = get_elem?-lt supernodes a (omega (arith, h.count)) in
      let (t, at_b) = get_elem?-lt supernodes b (omega (arith, h.count, below.0)) in
      let (s', e, node) =
        merge-IsNode s t (streams a) (streams b) (h.nodes a s at_a) (h.nodes b t at_b) in
      let (merged, e', rest) =
        merge_nodes-AllNodes a bs (set supernodes a s') (merge_streams streams a b)
          (AllNodes-set supernodes streams a b s' h lt node) lt below.1 in
      (merged, merge_nodes-cons a b bs supernodes s t s' at_a at_b e ∙ e', rest)

  merge_supernodes-cons :
      (make_copy : Bool) (a : ℕ) (reps : List ℕ) (to_merge : List (List ℕ))
      (supernodes merged : List Supernode) (copies : List (Option Supernode))
      → merge_nodes cfg a (nodes_of to_merge a) supernodes ≡ some merged
      → merge_supernodes cfg make_copy (a ∷ reps) to_merge supernodes copies
        ≡ merge_supernodes cfg make_copy reps to_merge merged (
            if make_copy
            then set copies a (Option.map (copy_supernode cfg) (get_elem? supernodes a))
            else copies)
  unfolding merge_supernodes
  merge_supernodes-cons make_copy a reps to_merge supernodes merged copies e =
      rw (e, merge_supernodes) refl

  -- If the supernodes of a graph represent some streams, and the representatives and the nodes to
  -- merge into them are nodes of the graph, then merging them succeeds, with copies or without,
  -- and afterwards the supernodes represent the streams that were gathered the same way.
  pub merge_supernodes-AllNodes :
      (make_copy : Bool) (reps : List ℕ) (to_merge : List (List ℕ)) (supernodes : List Supernode)
      (copies : List (Option Supernode)) (streams : ℕ → List ℕ)
      → AllNodes supernodes streams
      → MergesBelow n reps to_merge
      → (merged : List Supernode) × (copies' : List (Option Supernode)) × (merge_supernodes cfg
            make_copy reps to_merge supernodes copies
          ≡ some (merged, copies'))
        × AllNodes merged (gather_all streams reps to_merge)
  unfolding merge_supernodes gather_all
  merge_supernodes-AllNodes make_copy [] to_merge supernodes copies streams h below =
      (supernodes, copies, refl, h)
  merge_supernodes-AllNodes make_copy (a ∷ reps) to_merge supernodes copies streams h below =
      let (mid, e, held) =
        merge_nodes-AllNodes a (nodes_of to_merge a) supernodes streams h below.0.0 below.0.1 in
      let step = merge_supernodes-cons make_copy a reps to_merge supernodes mid copies e in
      let (merged, copies', e', rest) =
        merge_supernodes-AllNodes make_copy reps to_merge mid _
          (gather streams a (nodes_of to_merge a)) held below.1 in
      (merged, copies', step ∙ e', rest)

  pub AllNodes-put :
      (supernodes : List Supernode) (streams : ℕ → List ℕ) (a : ℕ) (s : Supernode)
      → AllNodes supernodes streams
      → a < n
      → IsNode p d cfg n seed s (streams a)
      → AllNodes (set supernodes a s) streams
  AllNodes-put supernodes streams a s h lt node = record {
    count = length-set supernodes a s ∙ h.count;
    nodes =
        set_every (λ i t. IsNode p d cfg n seed t (streams i)) supernodes a s
          (omega (arith, h.count)) node (λ j t e other. h.nodes j t e);
  }

  pub sample-IsNode :
      (s : Supernode) (xs : List ℕ)
      → IsNode p d cfg n seed s xs
      → IsNode p d cfg n seed (sample p cfg s).0 xs
  sample-IsNode s xs h =
      let sound = Represents-IsQueryable p d cfg s xs h.contents in
      elim (Bool-cases (s.idx == s.num_sketches)) [
        | inl e ↦ rw (sample_out p cfg s sound ((==_iff _ _).0 e)) h
        | inr e ↦
            let index = h.contents.index in
            let lt : s.idx < s.num_sketches = ground arith in
            let (sketch, _, _, step) = sample_in p cfg s sound lt in
            record {
              size = ap (λ r. r.0.n) step ∙ h.size;
              sketch_count = ap (λ r. r.0.num_sketches) step ∙ h.sketch_count;
              same_seed = ap (λ r. r.0.seed) step ∙ h.same_seed;
              contents = sample-Represents p d cfg s xs lt h.contents;
            }
      ]

  -- Sampling the representatives changes no stream, also when an exception is thrown.
  pub sample_supernodes-AllNodes :
      (reps : List ℕ) (supernodes : List Supernode) (query : List (Edge × SampleSketchRet))
      (streams : ℕ → List ℕ)
      → AllNodes supernodes streams
      → AllNodes (sample_supernodes p cfg reps supernodes query).0 streams
  unfolding sample_supernodes
  sample_supernodes-AllNodes [] supernodes query streams h = h
  sample_supernodes-AllNodes (i ∷ reps) supernodes query streams h =
      elim (Option-cases (get_elem? supernodes i)) [
        | inl missing ↦ rw (missing, sample_supernodes) h
        | inr (s, at) ↦
            let lt = get_elem?-below supernodes i s at in
            rw (at, sample_supernodes)
              (sample_supernodes-AllNodes reps (set supernodes i (sample p cfg s).0)
                (store_sample i (sample p cfg s).1 query) streams
                (AllNodes-put supernodes streams i (sample p cfg s).0 h (omega (arith, h.count, lt))
                  (sample-IsNode s (streams i) (h.nodes i s at))))
      ]
