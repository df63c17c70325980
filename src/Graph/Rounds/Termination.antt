-- ===== src/Graph/Rounds/Termination.antt =====
-- The loop of `boruvka_emulation` ends: every round but the last uses up a sketch.
use mathlib.Core.Option.{some-injective}
use hyper_graph_streaming_cc.Prelude.{
  some≢none, ℕ, zero, suc, ◌<◌, ◌≡◌, ◌≢◌, ap, ◌∙◌, sym, List, [], ◌∷◌, arith, Option, none, some,
  Bool, true, false, Bool-cases, inl, inr, length, Option-cases,
}
use hyper_graph_streaming_cc.Platform.{Platform}
use hyper_graph_streaming_cc.Exceptions.{Exception}
use hyper_graph_streaming_cc.Sketch.Defs.{Config, SampleSketchRet}
use hyper_graph_streaming_cc.Supernode.Defs.{Edge}
use hyper_graph_streaming_cc.Graph.Plan.{Plan, supernodes_to_merge, merge_samples}
use hyper_graph_streaming_cc.Graph.Rounds.{Rounds, sample_supernodes, round, rounds}
use hyper_graph_streaming_cc.Graph.Rounds.Unused.{total_unused, sample_supernodes-Uses}
use hyper_graph_streaming_cc.Graph.Rounds.Merged.{
  sampled, merge_round-Merged, round-merge_round, round_thrown, rounds-throw, rounds-again,
  rounds-stop,
}

false≢true : false ≢ true
false≢true e = cc

module _ (p : Platform) (cfg : Config) where
  -- Something is modified only if there are representatives.
  has_reps :
      (n : ℕ) (query : List (Edge × SampleSketchRet)) (reps parent size : List ℕ) (plan : Plan)
      → supernodes_to_merge n query reps parent size false ≡ some plan
      → plan.modified ≡ true
      → 0 < length reps
  unfolding supernodes_to_merge merge_samples
  has_reps n query [] parent size plan e again =
      absurd (false≢true (ap (λ t. t.modified) (some-injective _ plan e) ∙ again))
  has_reps n query (i ∷ reps) parent size plan e again = omega arith

  -- A round that goes on leaves fewer sketches.
  round_uses :
      (make_copy : Bool) (st : Rounds)
      → (round p cfg make_copy st).1 ≡ none
      → (round p cfg make_copy st).0.graph.modified ≡ true
      → total_unused (round p cfg make_copy st).0.graph.supernodes
        < total_unused st.graph.supernodes
  round_uses make_copy st quiet again =
      let samples = sample_supernodes p cfg st.reps st.graph.supernodes st.query in
      let uses = sample_supernodes-Uses p cfg st.reps st.graph.supernodes st.query in
      elim (Option-cases samples.2) [
        | inr (e, thrown) ↦
            absurd (some≢none (sym (round_thrown p cfg make_copy st e thrown) ∙ quiet))
        | inl e ↦
            let same = round-merge_round p cfg make_copy st e in
            let (plan, planned, flag, _, _, fewer) =
              merge_round-Merged p cfg make_copy (sampled p cfg st)
                (sym (ap (λ r. r.1) same) ∙ quiet) in
            let modified : plan.modified ≡ true =
              sym flag ∙ sym (ap (λ r. r.0.graph.modified) same) ∙ again in
            let left = ap (λ r. total_unused r.0.graph.supernodes) same in
            let some_reps : 0 < length st.reps =
              has_reps st.graph.num_nodes samples.1 st.reps st.graph.parent st.graph.size plan
                planned modified in
            omega (arith, uses.1 e)
      ]

  -- With one unit of fuel more than there are sketches left to query, the loop ends.
  pub rounds_total :
      (fuel : ℕ) (make_copy : Bool) (st : Rounds)
      → total_unused st.graph.supernodes < fuel
      → (end : Rounds × Option Exception) × (rounds p cfg fuel make_copy st ≡ some end)
  rounds_total zero make_copy st h = absurd (omega arith)
  rounds_total (suc fuel) make_copy st h =
      let next = round p cfg make_copy st in
      elim (Option-cases next.1) [
        | inr (e, thrown) ↦ (_, rounds-throw p cfg fuel make_copy st e thrown)
        | inl quiet ↦ elim (Bool-cases next.0.graph.modified) [
          | inl again ↦
              let (end, e) =
                rounds_total fuel make_copy next.0
                  (omega (arith, round_uses make_copy st quiet again)) in
              (end, rounds-again p cfg fuel make_copy st quiet again ∙ e)
          | inr over ↦ (_, rounds-stop p cfg fuel make_copy st quiet over)
        ]
      ]
