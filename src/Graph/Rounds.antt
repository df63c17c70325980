-- ===== src/Graph/Rounds.antt =====
-- The rounds of `Graph::boruvka_emulation`: sampling, merging, copies, and the components.
pub mod Unused
pub mod Merging
pub mod Merged
pub mod Sampled
pub mod Streams
pub mod Ready
pub mod Throws
pub mod Last
pub mod Termination
use mathlib.Core.Option
use hyper_graph_streaming_cc.Prelude.{
  ℕ, zero, suc, ◌+◌, List, [], ◌∷◌, ◌++◌, map, Option, none, some, Bool, true, false, ◌&&◌,
  if◌then◌else◌, ltb, ◌==◌, get_elem?, get_or, set, replicate, length,
}
use hyper_graph_streaming_cc.Platform.{Platform, Doubles}
use hyper_graph_streaming_cc.Exceptions.{
  Exception, Result, ok, throw, undefined_behaviour, exit_failure,
}
use hyper_graph_streaming_cc.Sketch.Defs.{Config, SampleSketchRet, fail}
use hyper_graph_streaming_cc.Supernode.Defs.{
  Supernode, Edge, sample, merge, copy_supernode, read_supernode, reset_query_state,
}
use hyper_graph_streaming_cc.Supernode.Defs
use hyper_graph_streaming_cc.Graph.State.{Graph}
use hyper_graph_streaming_cc.Graph.Plan.{get_parent, nodes_of, supernodes_to_merge}

abbrev pub store_sample :
    ℕ
    → Result (Edge × SampleSketchRet)
    → List (Edge × SampleSketchRet)
    → List (Edge × SampleSketchRet)
store_sample i (ok answer) query = set query i answer
store_sample i (throw e) query = query

-- The exception caught last.
abbrev pub caught : Result (Edge × SampleSketchRet) → Option Exception → Option Exception
caught result (some e) = some e
caught (throw e) none = some e
caught (ok answer) none = none

module _ (p : Platform) (cfg : Config) where
  -- Every representative is sampled, also after an exception, which is thrown at the end.
  unfoldable pub sample_supernodes :
      List ℕ
      → List Supernode
      → List (Edge × SampleSketchRet)
      → List Supernode × List (Edge × SampleSketchRet) × Option Exception
  sample_supernodes [] supernodes query = (supernodes, query, none)
  sample_supernodes (i ∷ reps) supernodes query = elim (get_elem? supernodes i) [
    | none ↦ (supernodes, query, some undefined_behaviour)
    | some s ↦
        let (s', result) = sample p cfg s in
        let (sampled, answers, except) =
          sample_supernodes reps (set supernodes i s') (store_sample i result query) in
        (sampled, answers, caught result except)
  ]

module _ (cfg : Config) where
  -- The nodes `bs` are merged into node `a`.
  unfoldable pub merge_nodes : ℕ → List ℕ → List Supernode → Option (List Supernode)
  merge_nodes a [] supernodes = some supernodes
  merge_nodes a (b ∷ bs) supernodes = elim (get_elem? supernodes a) [
    | none ↦ none
    | some s ↦ elim (get_elem? supernodes b) [
      | none ↦ none
      | some t ↦ elim (merge cfg s t) [
        | none ↦ none
        | some s' ↦ merge_nodes a bs (set supernodes a s')
      ]
    ]
  ]

  -- `copies` are the entries of `copy_supernodes`, with `none` for a null pointer.
  unfoldable pub merge_supernodes :
      Bool
      → List ℕ
      → List (List ℕ)
      → List Supernode
      → List (Option Supernode)
      → Option (List Supernode × List (Option Supernode))
  unfolding merge_nodes
  merge_supernodes make_copy [] to_merge supernodes copies = some (supernodes, copies)
  merge_supernodes make_copy (a ∷ new_reps) to_merge supernodes copies =
      let copies' =
        if make_copy
        then set copies a (Option.map (copy_supernode cfg) (get_elem? supernodes a))
        else copies in
      elim (merge_nodes a (nodes_of to_merge a) supernodes) [
        | none ↦ none
        | some merged ↦ merge_supernodes make_copy new_reps to_merge merged copies'
      ]

-- The variables of `boruvka_emulation`.
pub record Rounds : Type 0 where
  pub graph : Graph
  pub query : List (Edge × SampleSketchRet)
  pub reps : List ℕ
  pub copies : List (Option Supernode)
  pub backed_up : List ℕ
  pub first_round : Bool

module _ (p : Platform) (cfg : Config) where
  -- What `backup_to_disk` writes to the file.
  unfoldable pub backup_to_disk : List ℕ → List Supernode → List ℕ
  backup_to_disk [] supernodes = []
  backup_to_disk (i ∷ ids) supernodes =
      let rest = backup_to_disk ids supernodes in
      elim (get_elem? supernodes i) [ none ↦ rest | some s ↦ Defs.write_binary p cfg s ++ rest ]

  -- The body of the loop, from the state that sampling left.
  unfoldable pub merge_round : Bool → Rounds → Rounds × Option Exception
  unfolding backup_to_disk
  merge_round make_copy st =
      let g = st.graph in
      elim (supernodes_to_merge g.num_nodes st.query st.reps g.parent g.size g.modified) [
        | none ↦ (st, some undefined_behaviour)
        | some plan ↦
            let planned = record g {
              parent = plan.parent;
              size = plan.size;
              modified = plan.modified;
            } in
            let copying = make_copy && st.first_round in
            let saved =
              if copying
              then (if g.copy_in_mem
                  then planned
                  else record planned { backup = some (backup_to_disk plan.new_reps g.supernodes) })
              else planned in
            let st' = record st {
              graph = saved;
              reps = plan.new_reps;
              backed_up = if copying then plan.new_reps else st.backed_up;
            } in
            elim (merge_supernodes cfg (copying && g.copy_in_mem) plan.new_reps plan.to_merge
              g.supernodes st.copies) [
                | none ↦ (st', some undefined_behaviour)
                | some (merged, copies) ↦ (
                  record st' {
                    graph = record saved { supernodes = merged };
                    copies = copies;
                    first_round = false;
                  },
                  none,
                )
              ]
      ]

  unfoldable pub round : Bool → Rounds → Rounds × Option Exception
  unfolding sample_supernodes merge_round
  round make_copy st =
      let (supernodes, query, except) =
        sample_supernodes p cfg st.reps st.graph.supernodes st.query in
      let sampled = record st {
        graph = record st.graph { modified = false; supernodes = supernodes };
        query = query;
      } in
      elim except [ some e ↦ (sampled, some e) | none ↦ merge_round make_copy sampled ]

  -- `do ... while (modified)`; `none` is no fuel left.
  unfoldable pub rounds : ℕ → Bool → Rounds → Option (Rounds × Option Exception)
  unfolding round
  rounds zero make_copy st = none
  rounds (suc fuel) make_copy st =
      let (st', except) = round make_copy st in
      elim except [
        | some e ↦ some (st', some e)
        | none ↦ elim st'.graph.modified [
          | true ↦ rounds fuel make_copy st'
          | false ↦ some (st', none)
        ]
      ]
