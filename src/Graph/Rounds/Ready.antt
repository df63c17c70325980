-- ===== src/Graph/Rounds/Ready.antt =====
-- A round of `Graph::boruvka_emulation` (src/graph.cpp) from a sound state: only sampling can fail, and
-- the state after it is sound.
use hyper_graph_streaming_cc.Prelude.{
  ℕ, ◌≡◌, refl, ap, ◌∙◌, sym, subst, List, [], ◌∷◌, length, length-set, Option, some, none, Bool,
  get_elem?, set, arith, ◌&&◌, Option-cases, inl, inr,
}
use hyper_graph_streaming_cc.Prelude.Slots.{get_elem?-lt}
use hyper_graph_streaming_cc.Platform.{Platform, Doubles}
use hyper_graph_streaming_cc.Exceptions.{Result, ok, throw}
use hyper_graph_streaming_cc.Sketch.Defs.{Config, SampleSketchRet, good, zero_ret, fail}
use hyper_graph_streaming_cc.Supernode.Defs.{Supernode, Edge, sample}
use hyper_graph_streaming_cc.Forest.Root.{IsForest}
use hyper_graph_streaming_cc.Graph.Update.Cut.{InRange}
use hyper_graph_streaming_cc.Graph.Plan.{Plan}
use hyper_graph_streaming_cc.Graph.Plan.Samples.{SampleBelow, SamplesBelow}
use hyper_graph_streaming_cc.Graph.Plan.Sampled.{edge_of, edges_of, InRange-append}
use hyper_graph_streaming_cc.Graph.Plan.Below.{
  AllBelow, MergesBelow, supernodes_to_merge-MergesBelow,
}
use hyper_graph_streaming_cc.Graph.Plan.Partition.{supernodes_to_merge_joins}
use hyper_graph_streaming_cc.Graph.Rounds.{
  Rounds, store_sample, sample_supernodes, merge_supernodes, merge_round, round, backup_to_disk,
}
use hyper_graph_streaming_cc.Graph.Rounds.Merged.{plan_of, sampled, round-merge_round, saved_fields}
use hyper_graph_streaming_cc.Graph.Rounds.Streams.{
  AllNodes, gather_all, sample_supernodes-AllNodes, merge_supernodes-AllNodes,
}

length-store_sample :
    (i : ℕ) (result : Result (Edge × SampleSketchRet)) (query : List (Edge × SampleSketchRet))
    → length (store_sample i result query) ≡ length query
length-store_sample i (ok answer) query = length-set query i answer
length-store_sample i (throw e) query = refl

length-sample_supernodes :
    (p : Platform) (cfg : Config) (reps : List ℕ) (supernodes : List Supernode)
    (query : List (Edge × SampleSketchRet))
    → length (sample_supernodes p cfg reps supernodes query).1 ≡ length query
unfolding sample_supernodes
length-sample_supernodes p cfg [] supernodes query = refl
length-sample_supernodes p cfg (i ∷ reps) supernodes query =
    elim (Option-cases (get_elem? supernodes i)) [
      | inl missing ↦ rw (missing, sample_supernodes) refl
      | inr (s, at) ↦
          rw (at, sample_supernodes)
            (length-sample_supernodes p cfg reps (set supernodes i (sample p cfg s).0)
                (store_sample i (sample p cfg s).1 query)
              ∙ length-store_sample i (sample p cfg s).1 query)
    ]

-- Samples that were taken for nodes, with edges between nodes.
taken-SamplesBelow :
    (n : ℕ) (query : List (Edge × SampleSketchRet)) (reps : List ℕ)
    → length query ≡ n
    → AllBelow n reps
    → InRange n (edges_of query reps)
    → SamplesBelow n query reps
unfolding edges_of
taken-SamplesBelow n query [] size h below = tt
taken-SamplesBelow n query (i ∷ reps) size h below =
    let (sample_i, found) = get_elem?-lt query i (omega (arith, size, h.0)) in
    let (now, later) = InRange-append n (edge_of (get_elem? query i)) _ below in
    (one (get_elem? query i) sample_i found now, taken-SamplesBelow n query reps size h.1 later)
  where
    one :
        (o : Option (Edge × SampleSketchRet)) (a : Edge × SampleSketchRet)
        → o ≡ some a
        → InRange n (edge_of o)
        → SampleBelow n o
    one none a e h = cc
    one (some (edge, good)) a e h = h.0
    one (some (edge, zero_ret)) a e h = tt
    one (some (edge, fail)) a e h = tt

module _ (p : Platform) (cfg : Config) where
  abbrev pub merging : Bool → Rounds → Plan → Option (List Supernode × List (Option Supernode))
  merging make_copy st plan =
      merge_supernodes cfg ((make_copy && st.first_round) && st.graph.copy_in_mem) plan.new_reps
        plan.to_merge st.graph.supernodes st.copies

  -- A round that could merge, and what its plan and the merged supernodes became.
  pub merge_round-done :
      (make_copy : Bool) (st : Rounds) (plan : Plan) (merged : List Supernode)
      (copies : List (Option Supernode))
      → plan_of st ≡ some plan
      → merging make_copy st plan ≡ some (merged, copies)
      → ((merge_round p cfg make_copy st).1 ≡ none)
        × ((merge_round p cfg make_copy st).0.graph.supernodes ≡ merged)
        × ((merge_round p cfg make_copy st).0.reps ≡ plan.new_reps)
        × ((merge_round p cfg make_copy st).0.query ≡ st.query)
        × ((merge_round p cfg make_copy st).0.graph.parent ≡ plan.parent)
        × ((merge_round p cfg make_copy st).0.graph.num_nodes ≡ st.graph.num_nodes)
  unfolding merge_round
  merge_round-done make_copy st plan merged copies planned done =
      let (_, parents, nodes) =
        saved_fields (make_copy && st.first_round) st.graph.copy_in_mem st.graph plan
          (some (backup_to_disk p cfg plan.new_reps st.graph.supernodes)) _ refl in
      rw (planned, merge_round) (rw done (refl, refl, refl, refl, parents, nodes))

module _ (p : Platform) (d : Doubles) (cfg : Config) (n seed : ℕ) where
  -- A state of the loop for a graph of `n` nodes: the parents are a forest of the nodes, the
  -- supernodes represent the streams, and there is room for a sample of each representative.
  pub record Ready (st : Rounds) (streams : ℕ → List ℕ) : Type 0 where
    pub num_nodes : st.graph.num_nodes ≡ n
    pub forest : IsForest st.graph.parent
    pub parents : length st.graph.parent ≡ n
    pub supernodes : AllNodes p d cfg n seed st.graph.supernodes streams
    pub answers : length st.query ≡ n
    pub reps_below : AllBelow n st.reps

  sampled-Ready :
      (st : Rounds) (streams : ℕ → List ℕ) → Ready st streams → Ready (sampled p cfg st) streams
  sampled-Ready st streams h = record {
    num_nodes = h.num_nodes;
    forest = h.forest;
    parents = h.parents;
    supernodes =
        sample_supernodes-AllNodes p d cfg n seed st.reps st.graph.supernodes st.query streams
          h.supernodes;
    answers = length-sample_supernodes p cfg st.reps st.graph.supernodes st.query ∙ h.answers;
    reps_below = h.reps_below;
  }

  -- The result of a round.
  abbrev pub RoundDone : Bool → Rounds → (ℕ → List ℕ) → Type 0
  RoundDone make_copy st streams =
      (plan : Plan) × (plan_of (sampled p cfg st) ≡ some plan)
      × ((round p cfg make_copy st).1 ≡ none)
      × Ready (round p cfg make_copy st).0 (gather_all streams plan.new_reps plan.to_merge)

  merge_round-Ready :
      (make_copy : Bool) (st : Rounds) (streams : ℕ → List ℕ)
      → Ready st streams
      → InRange n (edges_of st.query st.reps)
      → (plan : Plan) × (plan_of st ≡ some plan)
        × ((merge_round p cfg make_copy st).1 ≡ none)
        × Ready (merge_round p cfg make_copy st).0 (gather_all streams plan.new_reps plan.to_merge)
  merge_round-Ready make_copy st streams h below =
      let below' = subst (λ m. InRange m (edges_of st.query st.reps)) (sym h.parents) below in
      let reps' = subst (λ m. AllBelow m st.reps) (sym h.parents) h.reps_below in
      let same : st.graph.num_nodes ≡ length st.graph.parent = h.num_nodes ∙ sym h.parents in
      let (plan, found, forest, size, _) =
        supernodes_to_merge_joins st.query st.reps st.graph.parent st.graph.size st.graph.modified
          h.forest
          (taken-SamplesBelow (length st.graph.parent) st.query st.reps (h.answers ∙ sym h.parents)
            reps' below') in
      let (left, listed) =
        supernodes_to_merge-MergesBelow st.query st.reps st.graph.parent st.graph.size
          st.graph.modified plan h.forest found below' reps' in
      let (merged, copies, done, held) =
        merge_supernodes-AllNodes p d cfg n seed
          ((make_copy && st.first_round) && st.graph.copy_in_mem) plan.new_reps plan.to_merge
          st.graph.supernodes st.copies streams h.supernodes
          (subst (λ m. MergesBelow m plan.new_reps plan.to_merge) h.parents listed) in
      let planned : plan_of st ≡ some plan = rw same found in
      let (quiet, sup, reps, query, parents, nodes) =
        merge_round-done p cfg make_copy st plan merged copies planned done in
      (
        plan,
        planned,
        quiet,
        record {
          num_nodes = nodes ∙ h.num_nodes;
          forest = subst IsForest (sym parents) forest;
          parents = ap length parents ∙ size ∙ h.parents;
          supernodes =
              subst
                (λ ss. AllNodes p d cfg n seed ss (gather_all streams plan.new_reps plan.to_merge))
                (sym sup) held;
          answers = ap length query ∙ h.answers;
          reps_below =
              subst (AllBelow n) (sym reps) (subst (λ m. AllBelow m plan.new_reps) h.parents left);
        },
      )

  -- From a state in which the parents are a forest of the nodes of the graph, the supernodes
  -- represent some streams, and the representatives are nodes with room for an answer, a round in which sampling throws nothing and samples only edges between
  -- nodes does not fail, and leaves a state of the same kind: its supernodes represent the streams that its
  -- plan gathers.
  pub round-Ready :
      (make_copy : Bool) (st : Rounds) (streams : ℕ → List ℕ)
      → Ready st streams
      → (sample_supernodes p cfg st.reps st.graph.supernodes st.query).2 ≡ none
      → InRange n (edges_of (sampled p cfg st).query st.reps)
      → RoundDone make_copy st streams
  round-Ready make_copy st streams h quiet below =
      let same = round-merge_round p cfg make_copy st quiet in
      let (plan, planned, calm, ready) =
        merge_round-Ready make_copy (sampled p cfg st) streams (sampled-Ready st streams h) below in
      (
        plan,
        planned,
        ap (λ r. r.1) same ∙ calm,
        subst (λ r. Ready r.0 (gather_all streams plan.new_reps plan.to_merge)) (sym same) ready,
      )
