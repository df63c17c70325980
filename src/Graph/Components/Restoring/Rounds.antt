-- ===== src/Graph/Components/Restoring/Rounds.antt =====
-- One round of `Graph::boruvka_emulation` (src/graph.cpp) with the copies in memory: the copies are
-- made in the first round.
use hyper_graph_streaming_cc.Prelude.{
  ℕ, ◌≡◌, refl, ap, ◌∙◌, sym, subst, List, [], ◌∷◌, length, Option, some, none, Bool, true, false,
  Option-cases, some≢none, inl, inr, if◌then◌else◌,
}
use hyper_graph_streaming_cc.Platform.{Platform}
use hyper_graph_streaming_cc.Exceptions.{Exception}
use hyper_graph_streaming_cc.Sketch.Defs.{Config}
use hyper_graph_streaming_cc.Supernode.Defs.{Supernode}
use hyper_graph_streaming_cc.Graph.State.{Graph}
use hyper_graph_streaming_cc.Graph.Plan.{Plan}
use hyper_graph_streaming_cc.Graph.Plan.Below.{AllBelow}
use hyper_graph_streaming_cc.Graph.Rounds.{
  Rounds, sample_supernodes, merge_round, round, backup_to_disk,
}
use hyper_graph_streaming_cc.Graph.Rounds.Merged.{plan_of, with_plan, sampled}
use hyper_graph_streaming_cc.Graph.Rounds.Ready.{merging, merge_round-done}
use hyper_graph_streaming_cc.Graph.Components.Restoring.Distinct.{among, Distinct, false≢true}
use hyper_graph_streaming_cc.Graph.Components.Restoring.Saved.{
  Saved, sample_supernodes-Kept, length-sampled,
}
use hyper_graph_streaming_cc.Graph.Components.Restoring.Merges.{
  AllAmong, merge_targets, among_first, among_tail, copies-Saved, merges-Saved,
}

-- In memory, with what the copies give back.
abbrev pub Held : List Supernode → Rounds → Type 0
Held orig st =
    (st.graph.copy_in_mem ≡ true)
    × (st.graph.num_nodes ≡ length orig)
    × Saved orig st.graph.supernodes st.copies st.backed_up []

AllAmong-cons : (a : ℕ) (ids nodes : List ℕ) → AllAmong ids nodes → AllAmong (a ∷ ids) nodes
AllAmong-cons a ids [] h = tt
AllAmong-cons a ids (x ∷ nodes) h = (among_tail a x ids h.0, AllAmong-cons a ids nodes h.1)

AllAmong-refl : (nodes : List ℕ) → AllAmong nodes nodes
AllAmong-refl [] = tt
AllAmong-refl (a ∷ nodes) = (among_first a nodes, AllAmong-cons a nodes nodes (AllAmong-refl nodes))

saved_copy_in_mem :
    (b c : Bool) (g : Graph) (plan : Plan) (backup : Option (List ℕ))
    → (if b
        then (if c then with_plan g plan g.backup else with_plan g plan backup)
        else with_plan g plan g.backup).copy_in_mem
      ≡ g.copy_in_mem
saved_copy_in_mem true true g plan backup = refl
saved_copy_in_mem true false g plan backup = refl
saved_copy_in_mem false c g plan backup = refl

module _ (p : Platform) (cfg : Config) where
  -- The nodes into which a round merges something.
  unfoldable pub round_targets : Rounds → List ℕ
  round_targets st = elim (plan_of (sampled p cfg st)) [
    | none ↦ []
    | some plan ↦ merge_targets plan.new_reps plan.to_merge
  ]

  merge_round-copies :
      (st : Rounds) (plan : Plan) (merged : List Supernode) (copies : List (Option Supernode))
      → plan_of st ≡ some plan
      → merging p cfg true st plan ≡ some (merged, copies)
      → ((merge_round p cfg true st).0.copies ≡ copies)
        × ((merge_round p cfg true st).0.backed_up
            ≡ (if st.first_round then plan.new_reps else st.backed_up))
        × ((merge_round p cfg true st).0.first_round ≡ false)
        × ((merge_round p cfg true st).0.graph.copy_in_mem ≡ st.graph.copy_in_mem)
  unfolding merge_round
  merge_round-copies st plan merged copies planned done =
      rw (planned, merge_round)
        (rw done (
          refl,
          refl,
          refl,
          saved_copy_in_mem st.first_round st.graph.copy_in_mem st.graph plan
              (some (backup_to_disk p cfg plan.new_reps st.graph.supernodes)),
        ))

  pub merge_round-merged :
      (st : Rounds) (plan : Plan)
      → plan_of st ≡ some plan
      → (merge_round p cfg true st).1 ≡ none
      → (r : List Supernode × List (Option Supernode)) × (merging p cfg true st plan ≡ some r)
  unfolding merge_round
  merge_round-merged st plan planned quiet = elim (Option-cases (merging p cfg true st plan)) [
    | inr found ↦ found
    | inl failed ↦ absurd (some≢none (rw failed at (rw (planned, merge_round) at quiet)))
  ]

  pub sampled-Held :
      (orig : List Supernode) (st : Rounds) → Held orig st → Held orig (sampled p cfg st)
  sampled-Held orig st (in_mem, size, h) = (
    in_mem,
    size,
    record {
      count = length-sampled p cfg st.reps st.graph.supernodes st.query ∙ h.count;
      slots = h.slots;
      ids_below = h.ids_below;
      kept = λ i o e out.
          sample_supernodes-Kept p cfg st.reps st.graph.supernodes st.query i o (h.kept i o e out);
      saved = h.saved;
    },
  )

  round-sampled :
      (st : Rounds) (x : Exception)
      → (sample_supernodes p cfg st.reps st.graph.supernodes st.query).2 ≡ some x
      → (round p cfg true st).0 ≡ sampled p cfg st
  unfolding round
  round-sampled st x thrown = rw (thrown, round) refl

  -- A round in which sampling throws changes nothing else.
  pub thrown-Held :
      (orig : List Supernode) (st : Rounds) (x : Exception)
      → (sample_supernodes p cfg st.reps st.graph.supernodes st.query).2 ≡ some x
      → Held orig st
      → Held orig (round p cfg true st).0
  thrown-Held orig st x thrown h =
      subst (Held orig) (sym (round-sampled st x thrown)) (sampled-Held orig st h)

  -- The first round.
  pub first-Held :
      (orig : List Supernode) (st : Rounds) (plan : Plan)
      → plan_of st ≡ some plan
      → (merge_round p cfg true st).1 ≡ none
      → st.first_round ≡ true
      → st.backed_up ≡ []
      → AllBelow (length orig) plan.new_reps
      → Distinct plan.new_reps
      → Held orig st
      → Held orig (merge_round p cfg true st).0
        × ((merge_round p cfg true st).0.first_round ≡ false)
  unfolding among
  first-Held orig st plan planned quiet first empty below distinct (in_mem, size, h) =
      let ((merged, copies), done) = merge_round-merged st plan planned quiet in
      let (_, sup, _, _, _, nodes) =
        merge_round-done p cfg true st plan merged copies planned done in
      let (put, ids, flag, same_mem) = merge_round-copies st plan merged copies planned done in
      let ahead : Saved orig st.graph.supernodes st.copies plan.new_reps plan.new_reps = record {
        count = h.count;
        slots = h.slots;
        ids_below = below;
        kept = λ i o e out. h.kept i o e (inl (rw empty refl));
        saved = λ i o e inside outside. absurd (false≢true (sym outside ∙ inside));
      } in
      let copied =
        copies-Saved cfg orig plan.new_reps plan.new_reps plan.to_merge st.graph.supernodes merged
          st.copies copies (rw in_mem at (rw first at done)) below (AllAmong-refl plan.new_reps)
          distinct ahead in
      ((same_mem ∙ in_mem, nodes ∙ size, rw (sup, put, ids, first) copied), flag)

  pub later-Held :
      (orig : List Supernode) (st : Rounds) (plan : Plan)
      → plan_of st ≡ some plan
      → (merge_round p cfg true st).1 ≡ none
      → st.first_round ≡ false
      → AllAmong st.backed_up (merge_targets plan.new_reps plan.to_merge)
      → Held orig st
      → Held orig (merge_round p cfg true st).0
        × ((merge_round p cfg true st).0.first_round ≡ false)
        × ((merge_round p cfg true st).0.backed_up ≡ st.backed_up)
  later-Held orig st plan planned quiet later covered (in_mem, size, h) =
      let ((merged, copies), done) = merge_round-merged st plan planned quiet in
      let (_, sup, _, _, _, nodes) =
        merge_round-done p cfg true st plan merged copies planned done in
      let (put, ids, flag, same_mem) = merge_round-copies st plan merged copies planned done in
      let same_ids : (merge_round p cfg true st).0.backed_up ≡ st.backed_up =
        ids ∙ ap (λ b. if b then plan.new_reps else st.backed_up) later in
      let kept =
        merges-Saved cfg orig st.backed_up plan.new_reps plan.to_merge st.graph.supernodes merged
          st.copies copies (rw later at done) covered h in
      ((same_mem ∙ in_mem, nodes ∙ size, rw (sup, put, same_ids) kept), flag, same_ids)
