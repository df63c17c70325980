-- ===== src/Graph/Rounds/Merged.antt =====
-- What a round of `Graph::boruvka_emulation` (src/graph.cpp) does when no exception is thrown, and
-- how the loop goes on after it.
use hyper_graph_streaming_cc.Prelude.{
  some≢none, ℕ, suc, ◌≤◌, ◌≡◌, refl, ap, List, Option, none, some, Bool, true, false, ◌&&◌,
  if◌then◌else◌, inl, inr, Option-cases,
}
use hyper_graph_streaming_cc.Platform.{Platform}
use hyper_graph_streaming_cc.Exceptions.{Exception}
use hyper_graph_streaming_cc.Sketch.Defs.{Config}
use hyper_graph_streaming_cc.Graph.State.{Graph}
use hyper_graph_streaming_cc.Graph.Plan.{Plan, supernodes_to_merge}
use hyper_graph_streaming_cc.Graph.Rounds.{
  Rounds, backup_to_disk, sample_supernodes, merge_supernodes, merge_round, round, rounds,
}
use hyper_graph_streaming_cc.Graph.Rounds.Unused.{total_unused}
use hyper_graph_streaming_cc.Graph.Rounds.Merging.{total_unused-merge_supernodes}

abbrev pub plan_of : Rounds → Option Plan
plan_of st =
    supernodes_to_merge st.graph.num_nodes st.query st.reps st.graph.parent st.graph.size
      st.graph.modified

abbrev pub with_plan : Graph → Plan → Option (List ℕ) → Graph
with_plan g plan backup = record g {
  parent = plan.parent;
  size = plan.size;
  modified = plan.modified;
  backup = backup;
}

-- Whichever way the copies are kept, the graph takes over what was planned.
pub saved_fields :
    (b c : Bool) (g : Graph) (plan : Plan) (backup : Option (List ℕ))
    → (saved : Graph)
    → saved ≡ (
        if b
        then (if c then with_plan g plan g.backup else with_plan g plan backup)
        else with_plan g plan g.backup)
    → (saved.modified ≡ plan.modified)
      × (saved.parent ≡ plan.parent)
      × (saved.num_nodes ≡ g.num_nodes)
saved_fields true true g plan backup saved e =
    (ap (λ x. x.modified) e, ap (λ x. x.parent) e, ap (λ x. x.num_nodes) e)
saved_fields true false g plan backup saved e =
    (ap (λ x. x.modified) e, ap (λ x. x.parent) e, ap (λ x. x.num_nodes) e)
saved_fields false c g plan backup saved e =
    (ap (λ x. x.modified) e, ap (λ x. x.parent) e, ap (λ x. x.num_nodes) e)

module _ (p : Platform) (cfg : Config) where
  -- A round that merged: its plan, and what became of the sketches.
  abbrev pub Merged : Rounds → Rounds × Option Exception → Type 0
  Merged st r =
      (plan : Plan) × (plan_of st ≡ some plan)
      × (r.0.graph.modified ≡ plan.modified)
      × (r.0.graph.parent ≡ plan.parent)
      × (r.0.graph.num_nodes ≡ st.graph.num_nodes)
      × (total_unused r.0.graph.supernodes ≤ total_unused st.graph.supernodes)

  pub merge_round-Merged :
      (make_copy : Bool) (st : Rounds)
      → (merge_round p cfg make_copy st).1 ≡ none
      → Merged st (merge_round p cfg make_copy st)
  unfolding merge_round
  merge_round-Merged make_copy st quiet = elim (Option-cases (plan_of st)) [
    | inl failed ↦ absurd (some≢none (rw (failed, merge_round) at quiet))
    | inr (plan, planned) ↦
        elim (Option-cases (
          merge_supernodes cfg ((make_copy && st.first_round) && st.graph.copy_in_mem) plan.new_reps
            plan.to_merge st.graph.supernodes st.copies)) [
              | inl failed ↦ absurd (some≢none (rw failed at (rw (planned, merge_round) at quiet)))
              | inr ((merged, copies), done) ↦
                  let (flag, parents, nodes) =
                    saved_fields (make_copy && st.first_round) st.graph.copy_in_mem st.graph plan
                      (some (backup_to_disk p cfg plan.new_reps st.graph.supernodes)) _ refl in
                  rw (planned, merge_round)
                    (rw done (
                      plan,
                      refl,
                      flag,
                      parents,
                      nodes,
                      total_unused-merge_supernodes cfg _ plan.new_reps plan.to_merge
                          st.graph.supernodes merged st.copies copies done,
                    ))
            ]
  ]

  abbrev pub sampled : Rounds → Rounds
  sampled st = record st {
    graph = record st.graph {
      modified = false;
      supernodes = (sample_supernodes p cfg st.reps st.graph.supernodes st.query).0;
    };
    query = (sample_supernodes p cfg st.reps st.graph.supernodes st.query).1;
  }

  pub round-merge_round :
      (make_copy : Bool) (st : Rounds)
      → (sample_supernodes p cfg st.reps st.graph.supernodes st.query).2 ≡ none
      → round p cfg make_copy st ≡ merge_round p cfg make_copy (sampled st)
  unfolding round
  round-merge_round make_copy st e = rw (e, round) refl

  pub round_thrown :
      (make_copy : Bool) (st : Rounds) (e : Exception)
      → (sample_supernodes p cfg st.reps st.graph.supernodes st.query).2 ≡ some e
      → (round p cfg make_copy st).1 ≡ some e
  unfolding round
  round_thrown make_copy st e thrown = rw (thrown, round) refl

  pub rounds-throw :
      (fuel : ℕ) (make_copy : Bool) (st : Rounds) (e : Exception)
      → (round p cfg make_copy st).1 ≡ some e
      → rounds p cfg (suc fuel) make_copy st ≡ some ((round p cfg make_copy st).0, some e)
  unfolding rounds
  rounds-throw fuel make_copy st e thrown = rw (thrown, rounds) refl

  pub rounds-again :
      (fuel : ℕ) (make_copy : Bool) (st : Rounds)
      → (round p cfg make_copy st).1 ≡ none
      → (round p cfg make_copy st).0.graph.modified ≡ true
      → rounds p cfg (suc fuel) make_copy st
        ≡ rounds p cfg fuel make_copy (round p cfg make_copy st).0
  unfolding rounds
  rounds-again fuel make_copy st quiet again = rw (quiet, rounds) (rw again refl)

  pub rounds-stop :
      (fuel : ℕ) (make_copy : Bool) (st : Rounds)
      → (round p cfg make_copy st).1 ≡ none
      → (round p cfg make_copy st).0.graph.modified ≡ false
      → rounds p cfg (suc fuel) make_copy st ≡ some ((round p cfg make_copy st).0, none)
  unfolding rounds
  rounds-stop fuel make_copy st quiet over = rw (quiet, rounds) (rw over refl)
