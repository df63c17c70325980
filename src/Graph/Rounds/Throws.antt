-- ===== src/Graph/Rounds/Throws.antt =====
-- What can go wrong while `Graph::boruvka_emulation` (src/graph.cpp) looks for components: a
-- supernode may have no sketch left.
use hyper_graph_streaming_cc.Prelude.{
  ℕ, zero, suc, ◌≤◌, ◌≡◌, refl, ap, ◌∙◌, sym, subst, List, [], ◌∷◌, Option, some, none, Bool, set,
  arith, Option-cases, Bool-cases, some≢none, inl, inr, ==_iff, ◌==◌,
}
use mathlib.Core.Option.{some-injective}
use hyper_graph_streaming_cc.Prelude.Slots.{get_elem?-lt}
use hyper_graph_streaming_cc.Platform.{Platform, Doubles}
use hyper_graph_streaming_cc.Exceptions.{Exception, Result, ok, throw, out_of_queries}
use hyper_graph_streaming_cc.Sketch.Defs.{Config, SampleSketchRet}
use hyper_graph_streaming_cc.Supernode.Defs.{Supernode, Edge, sample}
use hyper_graph_streaming_cc.Supernode.Sampling.{sample_out, sample_returns}
use hyper_graph_streaming_cc.Supernode.Streams.{Represents-IsQueryable}
use hyper_graph_streaming_cc.Graph.Update.Laws.{IsNode}
use hyper_graph_streaming_cc.Graph.Update.Cut.{InRange}
use hyper_graph_streaming_cc.Graph.Plan.Sampled.{edges_of, InRange-append}
use hyper_graph_streaming_cc.Graph.Plan.Below.{AllBelow}
use hyper_graph_streaming_cc.Graph.Rounds.{
  Rounds, store_sample, caught, sample_supernodes, round, rounds,
}
use hyper_graph_streaming_cc.Graph.Rounds.Merged.{
  sampled, round_thrown, rounds-throw, rounds-again, rounds-stop,
}
use hyper_graph_streaming_cc.Graph.Rounds.Sampled.{run_edges, run_edges-again}
use hyper_graph_streaming_cc.Graph.Rounds.Streams.{
  gather_all, AllNodes, AllNodes-put, sample-IsNode,
}
use hyper_graph_streaming_cc.Graph.Rounds.Ready.{Ready, round-Ready}

caught-only :
    (result : Result (Edge × SampleSketchRet)) (except : Option Exception) (x : Exception)
    → ((y : Exception) → result ≡ throw y → y ≡ out_of_queries)
    → ((y : Exception) → except ≡ some y → y ≡ out_of_queries)
    → caught result except ≡ some x
    → x ≡ out_of_queries
caught-only result (some e) x first later h = later x h
caught-only (throw e) none x first later h = sym (some-injective e x h) ∙ first e refl
caught-only (ok answer) none x first later h = cc

module _ (p : Platform) (d : Doubles) (cfg : Config) (n seed : ℕ) (few : cfg.num_guesses ≤ 31) where
  sample-throws :
      (s : Supernode) (xs : List ℕ) (y : Exception)
      → IsNode p d cfg n seed s xs
      → (sample p cfg s).1 ≡ throw y
      → y ≡ out_of_queries
  sample-throws s xs y h e =
      let sound = Represents-IsQueryable p d cfg s xs h.contents in
      elim (Bool-cases (s.idx == s.num_sketches)) [
        | inl used ↦
            throw-injective _ _
              (sym e ∙ ap (λ r. r.1) (sample_out p cfg s sound ((==_iff _ _).0 used)))
        | inr left ↦
            let index = h.contents.index in
            let (_, _, found) = sample_returns p cfg s sound few (ground arith) in
            absurd (ok≢throw (sym found ∙ e))
      ]
    where
      throw-injective :
          (a b : Exception) → ◌≡◌ {A = Result (Edge × SampleSketchRet)} (throw a) (throw b) → a ≡ b
      throw-injective a b e = cc

      ok≢throw :
          {a : Edge × SampleSketchRet} {x : Exception}
          → ◌≡◌ {A = Result (Edge × SampleSketchRet)} (ok a) (throw x)
          → ⊥
      ok≢throw e = cc

  sample_supernodes-throws :
      (reps : List ℕ) (supernodes : List Supernode) (query : List (Edge × SampleSketchRet))
      (streams : ℕ → List ℕ) (x : Exception)
      → AllNodes p d cfg n seed supernodes streams
      → AllBelow n reps
      → (sample_supernodes p cfg reps supernodes query).2 ≡ some x
      → x ≡ out_of_queries
  unfolding sample_supernodes
  sample_supernodes-throws [] supernodes query streams x h below e = cc
  sample_supernodes-throws (i ∷ reps) supernodes query streams x h below e =
      let (s, at) = get_elem?-lt supernodes i (omega (arith, h.count, below.0)) in
      let node = h.nodes i s at in
      caught-only (sample p cfg s).1
        (sample_supernodes p cfg reps (set supernodes i (sample p cfg s).0)
          (store_sample i (sample p cfg s).1 query)).2
        x (λ y thrown. sample-throws s (streams i) y node thrown)
        (λ y thrown.
          sample_supernodes-throws reps (set supernodes i (sample p cfg s).0)
            (store_sample i (sample p cfg s).1 query) streams y
            (AllNodes-put p d cfg n seed supernodes streams i (sample p cfg s).0 h below.0
              (sample-IsNode p d cfg n seed s (streams i) node))
            below.1 thrown)
        (rw (at, sample_supernodes) at e)

  -- From a state in which the parents are a forest of the nodes and the supernodes represent some
  -- streams, with at most 31 guesses, and when only edges between nodes are sampled: the only
  -- exception that ends the loop is the one of a supernode without a sketch left.
  pub rounds_throw :
      (make_copy : Bool) (fuel : ℕ) (st end : Rounds) (streams : ℕ → List ℕ) (x : Exception)
      → Ready p d cfg n seed st streams
      → InRange n (run_edges p cfg make_copy fuel st)
      → rounds p cfg fuel make_copy st ≡ some (end, some x)
      → x ≡ out_of_queries
  unfolding rounds run_edges
  rounds_throw make_copy zero st end streams x h below e = absurd (some≢none (sym e))
  rounds_throw make_copy (suc fuel) st end streams x h below e =
      let next = round p cfg make_copy st in
      let samples = sample_supernodes p cfg st.reps st.graph.supernodes st.query in
      let now = edges_of (sampled p cfg st).query st.reps in
      let (below_now, _) = InRange-append n now _ below in
      elim (Option-cases samples.2) [
        | inr (y, thrown) ↦
            let stopped =
              rounds-throw p cfg fuel make_copy st y (round_thrown p cfg make_copy st y thrown) in
            some-injective x y (ap (λ r. r.1) (some-injective (end, some x) _ (sym e ∙ stopped)))
            ∙ sample_supernodes-throws st.reps st.graph.supernodes st.query streams y h.supernodes
                h.reps_below thrown
        | inl quiet ↦
            let (plan, _, calm, ready) =
              round-Ready p d cfg n seed make_copy st streams h quiet below_now in
            elim (Bool-cases next.0.graph.modified) [
              | inr over ↦
                  let stopped = rounds-stop p cfg fuel make_copy st calm over in
                  absurd (
                    some≢none (
                      ap (λ r. r.1)
                        (some-injective (end, some x) (next.0, none) (sym e ∙ stopped))))
              | inl again ↦
                  rounds_throw make_copy fuel next.0 end
                    (gather_all streams plan.new_reps plan.to_merge) x ready
                    (InRange-append n now _
                      (subst (InRange n) (run_edges-again p cfg make_copy fuel st again) below)).1
                    (sym (rounds-again p cfg fuel make_copy st calm again) ∙ e)
            ]
      ]
