-- ===== src/Graph/Components.antt =====
-- `Graph::boruvka_emulation` around its rounds, `Graph::connected_components`, and the binary form of
-- a graph.
pub mod Classes
pub mod Laws
pub mod Linked
pub mod Start
pub mod Failures
pub mod Restoring
pub mod Answers
pub mod Storage
use mathlib.Core.Option
use hyper_graph_streaming_cc.Prelude.{
  ℕ, zero, suc, ◌+◌, List, [], ◌∷◌, ◌++◌, map, Option, none, some, Bool, true, false, ◌&&◌,
  if◌then◌else◌, ltb, ◌==◌, get_elem?, set, replicate,
}
use hyper_graph_streaming_cc.Platform.{Platform, Doubles}
use hyper_graph_streaming_cc.Bytes.{to_bytes, from_bytes}
use hyper_graph_streaming_cc.Exceptions.{
  Exception, Result, ok, throw, undefined_behaviour, exit_failure, multiple_graphs,
}
use hyper_graph_streaming_cc.Sketch.Defs.{Config, fail}
use hyper_graph_streaming_cc.Supernode.Defs.{
  Supernode, read_supernode, reset_query_state, configure_supernodes,
}
use hyper_graph_streaming_cc.Supernode.Defs
use hyper_graph_streaming_cc.Dsu.{own_parents}
use hyper_graph_streaming_cc.Graph.State.{Graph, read_supernodes}
use hyper_graph_streaming_cc.Graph.Plan.{get_parent}
use hyper_graph_streaming_cc.Graph.Rounds.{Rounds, rounds}

-- `temp[root].insert(node)`, for nodes that come in ascending order: the map is sorted by its keys,
-- the set by its nodes.
unfoldable pub insert_node : ℕ → ℕ → List (ℕ × List ℕ) → List (ℕ × List ℕ)
insert_node root node [] = (root, node ∷ []) ∷ []
insert_node root node (entry ∷ temp) =
    let rest = entry ∷ insert_node root node temp in
    if root == entry.0
    then (entry.0, entry.1 ++ node ∷ []) ∷ temp
    else (if ltb root entry.0 then (root, node ∷ []) ∷ entry ∷ temp else rest)

-- The loop that fills the map, for `count` nodes from `i` on.
unfoldable pub collect_components :
    ℕ → ℕ → List ℕ → List (ℕ × List ℕ) → Option (List (ℕ × List ℕ) × List ℕ)
unfolding insert_node
collect_components zero i parent temp = some (temp, parent)
collect_components (suc count) i parent temp = elim (get_parent parent i) [
  | none ↦ none
  | some (root, parent') ↦ collect_components count (suc i) parent' (insert_node root i temp)
]

-- The copies go back to their places; a null pointer stays where it was put.
unfoldable pub restore_copies :
    List ℕ → List (Option Supernode) → List Supernode → Option (List Supernode)
restore_copies [] copies supernodes = some supernodes
restore_copies (i ∷ backed_up) copies supernodes = elim (get_elem? copies i) [
  | none ↦ none
  | some copy ↦ elim copy [
    | none ↦ none
    | some s ↦ restore_copies backed_up copies (set supernodes i s)
  ]
]

-- The loop that gets the graph ready for more of the stream, and the unlocking after it.
unfoldable pub resume : Graph → Graph
unfolding own_parents
resume g = record g {
  supernodes = map reset_query_state g.supernodes;
  parent = own_parents g.num_nodes 0;
  size = replicate g.num_nodes 1;
  update_locked = false;
}

-- The graph is got ready also before an exception is passed on, but not when the process has ended
-- or a step without a meaning was taken.
unfoldable pub resume_after : Graph → Result (List (List ℕ)) → Graph
unfolding resume
resume_after g (ok found) = resume g
resume_after g (throw e) = elim e [ exit_failure ↦ g | undefined_behaviour ↦ g | _ ↦ resume g ]

module _ (p : Platform) (d : Doubles) (cfg : Config) where
  -- The supernodes `ids` from the backup file, one after the other.
  unfoldable pub restore_from_disk :
      ℕ → ℕ → List ℕ → List ℕ → List Supernode → Option (List Supernode)
  restore_from_disk num_nodes seed [] binary_in supernodes = some supernodes
  restore_from_disk num_nodes seed (i ∷ ids) binary_in supernodes =
      elim (read_supernode p cfg d num_nodes seed binary_in) [
        | none ↦ none
        | some (s, rest) ↦ restore_from_disk num_nodes seed ids rest (set supernodes i s)
      ]

  -- The lambda `cleanup_copy`.
  unfoldable pub cleanup_copy : Bool → Rounds → Graph × Option Exception
  unfolding restore_copies restore_from_disk
  cleanup_copy make_copy st =
      let g = st.graph in
      let finish = λ (restored : Option (List Supernode)).
        elim restored as (λ _. Graph × Option Exception) [
          | none ↦ (g, some undefined_behaviour)
          | some supernodes ↦ (record g { supernodes = supernodes }, none)
        ] in
      if make_copy
      then (if g.copy_in_mem
          then finish (restore_copies st.backed_up st.copies g.supernodes)
          else (elim g.backup [
            | none ↦ (g, some exit_failure)
            | some file ↦
                finish (restore_from_disk g.num_nodes g.seed st.backed_up file g.supernodes)
          ]))
      else (g, none)

  -- The variables at the start of the first round, with updates locked and all sizes 1.
  unfoldable pub start_rounds : Graph → Rounds
  unfolding own_parents
  start_rounds g = record {
    graph = record g { update_locked = true; size = replicate g.num_nodes 1 };
    query = replicate g.num_nodes ((0, 0), fail);
    reps = own_parents g.num_nodes 0;
    copies = replicate g.num_nodes none;
    backed_up = [];
    first_round = true;
  }

  -- What is returned once the loop ended: the copies go back also after an exception.
  unfoldable pub finish_rounds : Bool → Rounds → Option Exception → Graph × Result (List (List ℕ))
  unfolding cleanup_copy collect_components
  finish_rounds make_copy st (some e) =
      let (restored, failure) = cleanup_copy make_copy st in
      elim failure [ some e' ↦ (restored, throw e') | none ↦ (restored, throw e) ]
  finish_rounds make_copy st none =
      let g = st.graph in
      elim (collect_components g.num_nodes 0 g.parent []) [
        | none ↦ (g, throw undefined_behaviour)
        | some (temp, parent) ↦
            let found = record st { graph = record g { parent = parent } } in
            let (restored, failure) = cleanup_copy make_copy found in
            elim failure [
              | some e ↦ (restored, throw e)
              | none ↦ (restored, ok (map (λ entry. entry.1) temp))
            ]
      ]

  unfoldable pub boruvka_emulation : ℕ → Bool → Graph → Option (Graph × Result (List (List ℕ)))
  unfolding start_rounds finish_rounds
  boruvka_emulation fuel make_copy g =
      Option.map (λ end. finish_rounds make_copy end.0 end.1)
        (rounds p cfg fuel make_copy (start_rounds g))

  -- From the state after the flush. With `cont` the copies are back when the graph is got ready.
  unfoldable pub connected_components : ℕ → Bool → Graph → Option (Graph × Result (List (List ℕ)))
  unfolding boruvka_emulation resume_after
  connected_components fuel cont g =
      if cont
      then Option.map (λ end. (resume_after end.0 end.1, end.1)) (boruvka_emulation fuel true g)
      else boruvka_emulation fuel false g

module _ (p : Platform) (cfg : Config) where
  unfoldable pub write_supernodes : List Supernode → List ℕ
  write_supernodes [] = []
  write_supernodes (s ∷ supernodes) = Defs.write_binary p cfg s ++ write_supernodes supernodes

  -- The bytes of the file, from the state after the flush.
  unfoldable pub write_binary : Graph → List ℕ
  unfolding write_supernodes
  write_binary g =
      to_bytes 8 g.seed
      ++ to_bytes p.sizeof_node_id g.num_nodes
      ++ to_bytes p.sizeof_vec cfg.failure_factor
      ++ write_supernodes g.supernodes

-- `Graph(const std::string &, int)`, with the contents of the file.
unfoldable pub read_graph : Platform → Doubles → Bool → Bool → List ℕ → Result (Config × Graph)
unfolding read_supernodes
read_graph p d open_graph copy_in_mem binary_in =
    if open_graph then throw multiple_graphs else (elim (from_bytes 8 binary_in) [
      | none ↦ throw undefined_behaviour
      | some (seed, rest) ↦ elim (from_bytes p.sizeof_node_id rest) [
        | none ↦ throw undefined_behaviour
        | some (num_nodes, rest') ↦ elim (from_bytes p.sizeof_vec rest') [
          | none ↦ throw undefined_behaviour
          | some (sketch_fail_factor, body) ↦
              let cfg = configure_supernodes d num_nodes sketch_fail_factor in
              elim (read_supernodes p d cfg num_nodes seed num_nodes body) [
                | none ↦ throw undefined_behaviour
                | some (supernodes, end) ↦ ok (
                  cfg,
                  record {
                    num_nodes = num_nodes;
                    seed = seed;
                    update_locked = false;
                    modified = false;
                    supernodes = supernodes;
                    parent = own_parents num_nodes 0;
                    size = replicate num_nodes 1;
                    gts = [];
                    num_updates = 0;
                    copy_in_mem = copy_in_mem;
                    backup = none;
                  },
                )
              ]
        ]
      ]
    ])
