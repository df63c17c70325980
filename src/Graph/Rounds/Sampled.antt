-- ===== src/Graph/Rounds/Sampled.antt =====
-- The edges that a run of the loop of `Graph::boruvka_emulation` (src/graph.cpp) samples, and the
-- forest that the run makes of them.
use hyper_graph_streaming_cc.Prelude.{
  some≢none, ℕ, zero, suc, ◌≡◌, ◌≢◌, refl, ap, ◌∙◌, sym, subst, List, [], ◌++◌, length, none, some,
  Bool, true, false, Option-cases, Bool-cases, inl, inr, if◌then◌else◌,
}
use mathlib.Core.List.{append-nil}
use mathlib.Core.Option.{some-injective}
use hyper_graph_streaming_cc.Platform.{Platform}
use hyper_graph_streaming_cc.Exceptions.{Exception}
use hyper_graph_streaming_cc.Sketch.Defs.{Config}
use hyper_graph_streaming_cc.Supernode.Defs.{Edge}
use hyper_graph_streaming_cc.Forest.Root.{IsForest}
use hyper_graph_streaming_cc.Graph.Update.Cut.{InRange}
use hyper_graph_streaming_cc.Graph.Plan.Sampled.{
  edges_of, InRange-append, JoinsEdges, JoinsEdges-trans, supernodes_to_merge-JoinsEdges,
}
use hyper_graph_streaming_cc.Graph.Rounds.{Rounds, sample_supernodes, round, rounds}
use hyper_graph_streaming_cc.Graph.Rounds.Merged.{
  sampled, merge_round-Merged, round-merge_round, round_thrown, rounds-throw, rounds-again,
  rounds-stop,
}

-- A state whose parents are a forest of the nodes of the graph.
abbrev pub OnForest : Rounds → Type 0
OnForest st = IsForest st.graph.parent × (length st.graph.parent ≡ st.graph.num_nodes)

module _ (p : Platform) (cfg : Config) (make_copy : Bool) where
  -- All edges that are sampled in the rounds from a state on, with as much fuel as the loop has.
  unfoldable pub run_edges : ℕ → Rounds → List Edge
  run_edges zero st = []
  run_edges (suc fuel) st =
      let rest = run_edges fuel (round p cfg make_copy st).0 in
      edges_of (sampled p cfg st).query st.reps
      ++ (if (round p cfg make_copy st).0.graph.modified then rest else [])

  -- What a state becomes by joining edges.
  abbrev pub Joined : Rounds → List Edge → Rounds → Type 0
  Joined st edges end =
      JoinsEdges st.graph.parent edges end.graph.parent × (end.graph.num_nodes ≡ st.graph.num_nodes)

  pub Joined-OnForest :
      (st end : Rounds) (edges : List Edge) → OnForest st → Joined st edges end → OnForest end
  Joined-OnForest st end edges on h = (h.0.forest, h.0.size ∙ on.1 ∙ sym h.1)

  pub round-Joined :
      (st : Rounds)
      → (round p cfg make_copy st).1 ≡ none
      → OnForest st
      → InRange st.graph.num_nodes (edges_of (sampled p cfg st).query st.reps)
      → Joined st (edges_of (sampled p cfg st).query st.reps) (round p cfg make_copy st).0
  round-Joined st quiet (forest, nodes) below =
      elim (Option-cases (sample_supernodes p cfg st.reps st.graph.supernodes st.query).2) [
        | inr (e, thrown) ↦
            absurd (some≢none (sym (round_thrown p cfg make_copy st e thrown) ∙ quiet))
        | inl e ↦
            let same = round-merge_round p cfg make_copy st e in
            let (plan, planned, _, parents, count, _) =
              merge_round-Merged p cfg make_copy (sampled p cfg st)
                (sym (ap (λ r. r.1) same) ∙ quiet) in
            (
              subst (JoinsEdges st.graph.parent (edges_of (sampled p cfg st).query st.reps))
                  (sym (ap (λ r. r.0.graph.parent) same ∙ parents))
                  (supernodes_to_merge-JoinsEdges (sampled p cfg st).query st.reps st.graph.parent
                    st.graph.size false plan forest (rw nodes planned) (rw nodes below)),
              ap (λ r. r.0.graph.num_nodes) same ∙ count,
            )
      ]

  pub run_edges-again :
      (fuel : ℕ) (st : Rounds)
      → (round p cfg make_copy st).0.graph.modified ≡ true
      → run_edges (suc fuel) st
        ≡ edges_of (sampled p cfg st).query st.reps ++ run_edges fuel (round p cfg make_copy st).0
  unfolding run_edges
  run_edges-again fuel st again = rw again refl

  pub run_edges-stop :
      (fuel : ℕ) (st : Rounds)
      → (round p cfg make_copy st).0.graph.modified ≡ false
      → run_edges (suc fuel) st ≡ edges_of (sampled p cfg st).query st.reps
  unfolding run_edges
  run_edges-stop fuel st over = rw over (append-nil _)

  pub round_throws :
      (fuel : ℕ) (st end : Rounds) (x : Exception)
      → (round p cfg make_copy st).1 ≡ some x
      → rounds p cfg (suc fuel) make_copy st ≢ some (end, none)
  round_throws fuel st end x thrown e = some≢none (
      ap (λ r. r.1)
        (some-injective _ (end, none) (sym (rounds-throw p cfg fuel make_copy st x thrown) ∙ e)))

  -- From a forest of the nodes of the graph, a loop that ends without an exception joins the
  -- edges that it has sampled, if their ends are nodes, and nothing else.
  pub rounds-Joined :
      (fuel : ℕ) (st end : Rounds)
      → rounds p cfg fuel make_copy st ≡ some (end, none)
      → OnForest st
      → InRange st.graph.num_nodes (run_edges fuel st)
      → Joined st (run_edges fuel st) end
  unfolding rounds
  rounds-Joined zero st end e on below = absurd (some≢none (sym e))
  rounds-Joined (suc fuel) st end e on below =
      let next = round p cfg make_copy st in
      let now = edges_of (sampled p cfg st).query st.reps in
      elim (Option-cases next.1) [
        | inr (x, thrown) ↦ absurd (round_throws fuel st end x thrown e)
        | inl quiet ↦ elim (Bool-cases next.0.graph.modified) [
          | inr over ↦
              let edges = run_edges-stop fuel st over in
              let last : next.0 ≡ end =
                ap (λ r. r.0)
                  (some-injective (next.0, none) (end, none)
                    (sym (rounds-stop p cfg fuel make_copy st quiet over) ∙ e)) in
              subst (λ es. Joined st es end) (sym edges)
                (subst (Joined st now) last
                  (round-Joined st quiet on (subst (InRange st.graph.num_nodes) edges below)))
          | inl again ↦
              let edges = run_edges-again fuel st again in
              let (below_now, below_later) =
                InRange-append st.graph.num_nodes now (run_edges fuel next.0)
                  (subst (InRange st.graph.num_nodes) edges below) in
              let step = round-Joined st quiet on below_now in
              let later =
                rounds-Joined fuel next.0 end
                  (sym (rounds-again p cfg fuel make_copy st quiet again) ∙ e)
                  (Joined-OnForest st next.0 now on step)
                  (subst (λ n. InRange n (run_edges fuel next.0)) (sym step.1) below_later) in
              subst (λ es. Joined st es end) (sym edges)
                (
                  JoinsEdges-trans st.graph.parent next.0.graph.parent end.graph.parent now
                      (run_edges fuel next.0) on.0 (subst (λ n. InRange n now) (sym on.1) below_now)
                      step.0 later.0,
                  later.1 ∙ step.1,
                )
        ]
      ]
