-- ===== src/Graph/Components/Restoring/Runs.antt =====
-- The whole loop of `Graph::boruvka_emulation` (src/graph.cpp) with the copies in memory.
use mathlib.Core.Option.{some-injective}
use hyper_graph_streaming_cc.Prelude.{
  ℕ, zero, suc, ◌≡◌, refl, ap, ◌∙◌, sym, subst, List, [], ◌∷◌, ◌++◌, length, Option, some, none,
  true, false, Bool-cases, Option-cases, some≢none, inl, inr, if◌then◌else◌,
}
use hyper_graph_streaming_cc.Platform.{Platform, Doubles}
use hyper_graph_streaming_cc.Exceptions.{Exception}
use hyper_graph_streaming_cc.Sketch.Defs.{Config}
use hyper_graph_streaming_cc.Supernode.Defs.{Supernode}
use hyper_graph_streaming_cc.Graph.Update.Cut.{InRange}
use hyper_graph_streaming_cc.Graph.Plan.{Plan, supernodes_to_merge}
use hyper_graph_streaming_cc.Graph.Plan.Sampled.{edges_of, InRange-append}
use hyper_graph_streaming_cc.Graph.Plan.Below.{AllBelow}
use hyper_graph_streaming_cc.Graph.Rounds.{Rounds, sample_supernodes, round, rounds}
use hyper_graph_streaming_cc.Graph.Rounds.Merged.{
  plan_of, sampled, round-merge_round, round_thrown, rounds-throw, rounds-again, rounds-stop,
}
use hyper_graph_streaming_cc.Graph.Rounds.Sampled.{run_edges, run_edges-again}
use hyper_graph_streaming_cc.Graph.Rounds.Streams.{gather_all}
use hyper_graph_streaming_cc.Graph.Rounds.Ready.{Ready, round-Ready, merge_round-done}
use hyper_graph_streaming_cc.Graph.Components.Restoring.Distinct.{
  Distinct, supernodes_to_merge-Distinct,
}
use hyper_graph_streaming_cc.Graph.Components.Restoring.Merges.{AllAmong, merge_targets}
use hyper_graph_streaming_cc.Graph.Components.Restoring.Rounds.{
  Held, round_targets, sampled-Held, thrown-Held, first-Held, later-Held, merge_round-merged,
}

AllAmong-append : (ids xs ys : List ℕ) → AllAmong ids (xs ++ ys) → AllAmong ids xs × AllAmong ids ys
AllAmong-append ids [] ys h = (tt, h)
AllAmong-append ids (x ∷ xs) ys h = let (a, b) = AllAmong-append ids xs ys h.1 in ((h.0, a), b)

module _ (p : Platform) (d : Doubles) (cfg : Config) where
  -- The nodes into which something merges in the rounds from a state on, with as much fuel as the
  -- loop has.
  unfoldable pub run_targets : ℕ → Rounds → List ℕ
  run_targets zero st = []
  run_targets (suc fuel) st =
      let rest = run_targets fuel (round p cfg true st).0 in
      round_targets p cfg st ++ (if (round p cfg true st).0.graph.modified then rest else [])

  -- The same for the rounds after the first one.
  unfoldable pub later_targets : ℕ → Rounds → List ℕ
  later_targets zero st = []
  later_targets (suc fuel) st =
      let rest = run_targets fuel (round p cfg true st).0 in
      if (round p cfg true st).0.graph.modified then rest else []

  round_targets_found :
      (st : Rounds) (plan : Plan)
      → plan_of (sampled p cfg st) ≡ some plan
      → round_targets p cfg st ≡ merge_targets plan.new_reps plan.to_merge
  unfolding round_targets
  round_targets_found st plan planned = rw (planned, round_targets) refl

  module _ (n seed : ℕ) (orig : List Supernode) where
    later-round :
        (st : Rounds) (plan : Plan)
        → plan_of (sampled p cfg st) ≡ some plan
        → (sample_supernodes p cfg st.reps st.graph.supernodes st.query).2 ≡ none
        → (round p cfg true st).1 ≡ none
        → st.first_round ≡ false
        → AllAmong st.backed_up (round_targets p cfg st)
        → Held orig st
        → Held orig (round p cfg true st).0
          × ((round p cfg true st).0.first_round ≡ false)
          × ((round p cfg true st).0.backed_up ≡ st.backed_up)
    later-round st plan planned quiet calm later covered h =
        let same = round-merge_round p cfg true st quiet in
        subst (λ r. Held orig r.0 × (r.0.first_round ≡ false) × (r.0.backed_up ≡ st.backed_up))
          (sym same)
          (later-Held p cfg orig (sampled p cfg st) plan planned (sym (ap (λ r. r.1) same) ∙ calm)
            later (subst (AllAmong st.backed_up) (round_targets_found st plan planned) covered)
            (sampled-Held p cfg orig st h))

    later-Run :
        (fuel : ℕ) (st end : Rounds) (streams : ℕ → List ℕ) (except : Option Exception)
        → Ready p d cfg n seed st streams
        → InRange n (run_edges p cfg true fuel st)
        → st.first_round ≡ false
        → AllAmong st.backed_up (run_targets fuel st)
        → Held orig st
        → rounds p cfg fuel true st ≡ some (end, except)
        → Held orig end
    unfolding rounds run_edges run_targets
    later-Run zero st end streams except ready below later covered h e = absurd (some≢none (sym e))
    later-Run (suc fuel) st end streams except ready below later covered h e =
        let next = round p cfg true st in
        let now = edges_of (sampled p cfg st).query st.reps in
        let (below_now, _) = InRange-append n now _ below in
        let (covered_now, covered_later) =
          AllAmong-append st.backed_up (round_targets p cfg st) _ covered in
        elim (Option-cases (sample_supernodes p cfg st.reps st.graph.supernodes st.query).2) [
          | inr (y, thrown) ↦
              let stopped =
                rounds-throw p cfg fuel true st y (round_thrown p cfg true st y thrown) in
              subst (Held orig)
                (ap (λ r. r.0) (some-injective (next.0, some y) (end, except) (sym stopped ∙ e)))
                (thrown-Held p cfg orig st y thrown h)
          | inl quiet ↦
              let (plan, planned, calm, ready') =
                round-Ready p d cfg n seed true st streams ready quiet below_now in
              let (held, later', ids) =
                later-round st plan planned quiet calm later covered_now h in
              elim (Bool-cases next.0.graph.modified) [
                | inr over ↦
                    subst (Held orig)
                      (ap (λ r. r.0)
                        (some-injective (next.0, none) (end, except)
                          (sym (rounds-stop p cfg fuel true st calm over) ∙ e)))
                      held
                | inl again ↦
                    later-Run fuel next.0 end (gather_all streams plan.new_reps plan.to_merge)
                      except ready'
                      (InRange-append n now _
                        (subst (InRange n) (run_edges-again p cfg true fuel st again) below)).1
                      later'
                      (subst (λ b. AllAmong b (run_targets fuel next.0)) (sym ids)
                        (rw again at covered_later))
                      held (sym (rounds-again p cfg fuel true st calm again) ∙ e)
              ]
        ]

    first-round :
        (st : Rounds) (streams : ℕ → List ℕ) (plan : Plan)
        → Ready p d cfg n seed st streams
        → InRange n (edges_of (sampled p cfg st).query st.reps)
        → plan_of (sampled p cfg st) ≡ some plan
        → (sample_supernodes p cfg st.reps st.graph.supernodes st.query).2 ≡ none
        → (round p cfg true st).1 ≡ none
        → AllBelow n (round p cfg true st).0.reps
        → st.first_round ≡ true
        → st.backed_up ≡ []
        → Distinct st.reps
        → length orig ≡ n
        → Held orig st
        → Held orig (round p cfg true st).0 × ((round p cfg true st).0.first_round ≡ false)
    first-round st streams plan ready below planned quiet calm reps_below first empty distinct size
          h =
        let same = round-merge_round p cfg true st quiet in
        let calm' = sym (ap (λ r. r.1) same) ∙ calm in
        let (r, done) = merge_round-merged p cfg (sampled p cfg st) plan planned calm' in
        let (_, _, reps, _, _, _) =
          merge_round-done p cfg true (sampled p cfg st) plan r.0 r.1 planned done in
        let left : AllBelow (length orig) plan.new_reps =
          subst (λ m. AllBelow m plan.new_reps) (sym size)
            (subst (AllBelow n) (ap (λ r. r.0.reps) same ∙ reps) reps_below) in
        let nodes : st.graph.num_nodes ≡ length st.graph.parent =
          ready.num_nodes ∙ sym ready.parents in
        let apart =
          supernodes_to_merge-Distinct (sampled p cfg st).query st.reps st.graph.parent
            st.graph.size false plan ready.forest
            (subst
              (λ m.
                supernodes_to_merge m (sampled p cfg st).query st.reps st.graph.parent st.graph.size
                  false
                ≡ some plan)
              nodes planned)
            (subst (λ m. InRange m (edges_of (sampled p cfg st).query st.reps)) (sym ready.parents)
              below)
            distinct in
        subst (λ r. Held orig r.0 × (r.0.first_round ≡ false)) (sym same)
          (first-Held p cfg orig (sampled p cfg st) plan planned calm' first empty left apart
            (sampled-Held p cfg orig st h))

    pub first-Run :
        (fuel : ℕ) (st end : Rounds) (streams : ℕ → List ℕ) (except : Option Exception)
        → Ready p d cfg n seed st streams
        → InRange n (run_edges p cfg true fuel st)
        → st.first_round ≡ true
        → st.backed_up ≡ []
        → Distinct st.reps
        → length orig ≡ n
        → AllAmong (round p cfg true st).0.backed_up (later_targets fuel st)
        → Held orig st
        → rounds p cfg fuel true st ≡ some (end, except)
        → Held orig end
    unfolding rounds run_edges later_targets
    first-Run zero st end streams except ready below first empty distinct size covered h e =
        absurd (some≢none (sym e))
    first-Run (suc fuel) st end streams except ready below first empty distinct size covered h e =
        let next = round p cfg true st in
        let now = edges_of (sampled p cfg st).query st.reps in
        let (below_now, _) = InRange-append n now _ below in
        elim (Option-cases (sample_supernodes p cfg st.reps st.graph.supernodes st.query).2) [
          | inr (y, thrown) ↦
              let stopped =
                rounds-throw p cfg fuel true st y (round_thrown p cfg true st y thrown) in
              subst (Held orig)
                (ap (λ r. r.0) (some-injective (next.0, some y) (end, except) (sym stopped ∙ e)))
                (thrown-Held p cfg orig st y thrown h)
          | inl quiet ↦
              let (plan, planned, calm, ready') =
                round-Ready p d cfg n seed true st streams ready quiet below_now in
              let (held, later) =
                first-round st streams plan ready below_now planned quiet calm ready'.reps_below
                  first empty distinct size h in
              elim (Bool-cases next.0.graph.modified) [
                | inr over ↦
                    subst (Held orig)
                      (ap (λ r. r.0)
                        (some-injective (next.0, none) (end, except)
                          (sym (rounds-stop p cfg fuel true st calm over) ∙ e)))
                      held
                | inl again ↦
                    later-Run fuel next.0 end (gather_all streams plan.new_reps plan.to_merge)
                      except ready'
                      (InRange-append n now _
                        (subst (InRange n) (run_edges-again p cfg true fuel st again) below)).1
                      later (rw again at covered) held
                      (sym (rounds-again p cfg fuel true st calm again) ∙ e)
              ]
        ]
