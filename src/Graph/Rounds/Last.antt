-- ===== src/Graph/Rounds/Last.antt =====
-- The last round of the loop of `Graph::boruvka_emulation` (src/graph.cpp).
use hyper_graph_streaming_cc.Prelude.{
  ℕ, zero, suc, ◌≡◌, refl, ap, ◌∙◌, sym, subst, some, none, Bool, true, false, if◌then◌else◌,
  Option-cases, Bool-cases, some≢none, inl, inr,
}
use mathlib.Core.Option.{some-injective}
use hyper_graph_streaming_cc.Platform.{Platform}
use hyper_graph_streaming_cc.Sketch.Defs.{Config}
use hyper_graph_streaming_cc.Forest.{root}
use hyper_graph_streaming_cc.Forest.Writes.{SameRoots}
use hyper_graph_streaming_cc.Graph.Update.Cut.{InRange}
use hyper_graph_streaming_cc.Graph.Plan.Sampled.{edges_of, InRange-append}
use hyper_graph_streaming_cc.Graph.Plan.Idle.{SettledAll}
use hyper_graph_streaming_cc.Graph.Plan.Settled.{supernodes_to_merge-SettledAll}
use hyper_graph_streaming_cc.Graph.Rounds.{Rounds, sample_supernodes, round, rounds}
use hyper_graph_streaming_cc.Graph.Rounds.Merged.{
  sampled, merge_round-Merged, round-merge_round, round_thrown, rounds-again, rounds-stop,
}
use hyper_graph_streaming_cc.Graph.Rounds.Sampled.{
  OnForest, Joined-OnForest, run_edges, run_edges-again, round-Joined, round_throws,
}

module _ (p : Platform) (cfg : Config) (make_copy : Bool) where
  -- The state from which the last round starts.
  unfoldable pub last_round : ℕ → Rounds → Rounds
  last_round zero st = st
  last_round (suc fuel) st =
      let rest = last_round fuel (round p cfg make_copy st).0 in
      if (round p cfg make_copy st).0.graph.modified then rest else st

  -- A round that is the last one.
  abbrev pub LastRound : Rounds → Rounds → Type 0
  LastRound st end =
      SettledAll (root st.graph.parent) (sampled p cfg st).query st.reps
      × SameRoots st.graph.parent end.graph.parent

  round-LastRound :
      (st : Rounds)
      → (round p cfg make_copy st).1 ≡ none
      → (round p cfg make_copy st).0.graph.modified ≡ false
      → OnForest st
      → InRange st.graph.num_nodes (edges_of (sampled p cfg st).query st.reps)
      → LastRound st (round p cfg make_copy st).0
  round-LastRound st quiet over (forest, nodes) below =
      elim (Option-cases (sample_supernodes p cfg st.reps st.graph.supernodes st.query).2) [
        | inr (e, thrown) ↦
            absurd (some≢none (sym (round_thrown p cfg make_copy st e thrown) ∙ quiet))
        | inl e ↦
            let same = round-merge_round p cfg make_copy st e in
            let (plan, planned, flag, parents, _, _) =
              merge_round-Merged p cfg make_copy (sampled p cfg st)
                (sym (ap (λ r. r.1) same) ∙ quiet) in
            let (settled, kept) =
              supernodes_to_merge-SettledAll (sampled p cfg st).query st.reps st.graph.parent
                st.graph.size false plan forest (rw nodes below) (rw nodes planned)
                (sym flag ∙ sym (ap (λ r. r.0.graph.modified) same) ∙ over) in
            (
              settled,
              subst (SameRoots st.graph.parent) (sym (ap (λ r. r.0.graph.parent) same ∙ parents))
                  kept,
            )
      ]

  last_round-again :
      (fuel : ℕ) (st : Rounds)
      → (round p cfg make_copy st).0.graph.modified ≡ true
      → last_round (suc fuel) st ≡ last_round fuel (round p cfg make_copy st).0
  unfolding last_round
  last_round-again fuel st again = rw again refl

  last_round-stop :
      (fuel : ℕ) (st : Rounds)
      → (round p cfg make_copy st).0.graph.modified ≡ false
      → last_round (suc fuel) st ≡ st
  unfolding last_round
  last_round-stop fuel st over = rw over refl

  -- From a forest of the nodes of the graph: when the loop ends without an exception and has sampled
  -- only edges between nodes, then in its last round no sample failed, every representative sampled
  -- ZERO or an edge between nodes of one root, and the roots stayed the same.
  pub rounds-LastRound :
      (fuel : ℕ) (st end : Rounds)
      → rounds p cfg fuel make_copy st ≡ some (end, none)
      → OnForest st
      → InRange st.graph.num_nodes (run_edges p cfg make_copy fuel st)
      → LastRound (last_round fuel st) end
  unfolding rounds run_edges
  rounds-LastRound zero st end e on below = absurd (some≢none (sym e))
  rounds-LastRound (suc fuel) st end e on below =
      let next = round p cfg make_copy st in
      let now = edges_of (sampled p cfg st).query st.reps in
      let (below_now, _) = InRange-append st.graph.num_nodes now _ below in
      elim (Option-cases next.1) [
        | inr (x, thrown) ↦ absurd (round_throws p cfg make_copy fuel st end x thrown e)
        | inl quiet ↦ elim (Bool-cases next.0.graph.modified) [
          | inr over ↦
              let last : next.0 ≡ end =
                ap (λ r. r.0)
                  (some-injective (next.0, none) (end, none)
                    (sym (rounds-stop p cfg fuel make_copy st quiet over) ∙ e)) in
              subst (λ t. LastRound t end) (sym (last_round-stop fuel st over))
                (subst (LastRound st) last (round-LastRound st quiet over on below_now))
          | inl again ↦
              let step = round-Joined p cfg make_copy st quiet on below_now in
              let (_, below_later) = InRange-append st.graph.num_nodes now _ (
                subst (InRange st.graph.num_nodes) (run_edges-again p cfg make_copy fuel st again)
                  below) in
              subst (λ t. LastRound t end) (sym (last_round-again fuel st again))
                (rounds-LastRound fuel next.0 end
                  (sym (rounds-again p cfg fuel make_copy st quiet again) ∙ e)
                  (Joined-OnForest p cfg make_copy st next.0 now on step)
                  (subst (λ n. InRange n (run_edges p cfg make_copy fuel next.0)) (sym step.1)
                    below_later))
        ]
      ]
