-- ===== src/Graph/Components/Restoring/Finish.antt =====
-- How `Graph::boruvka_emulation` (src/graph.cpp) ends with the copies in memory.
use hyper_graph_streaming_cc.Prelude.{ℕ, ◌≡◌, refl, subst, List, [], map, length, some, none, true}
use hyper_graph_streaming_cc.Platform.{Platform, Doubles}
use hyper_graph_streaming_cc.Exceptions.{Result, ok, throw, out_of_queries}
use hyper_graph_streaming_cc.Sketch.Defs.{Config}
use hyper_graph_streaming_cc.Supernode.Defs.{Supernode}
use hyper_graph_streaming_cc.Forest.{root}
use hyper_graph_streaming_cc.Graph.State.{Graph}
use hyper_graph_streaming_cc.Graph.Rounds.{Rounds}
use hyper_graph_streaming_cc.Graph.Rounds.Sampled.{OnForest}
use hyper_graph_streaming_cc.Graph.Components.{
  finish_rounds, resume, resume_after, collect_components,
}
use hyper_graph_streaming_cc.Graph.Components.Classes.{classes, collect_components-classes}
use hyper_graph_streaming_cc.Graph.Components.Restoring.Rounds.{Held}
use hyper_graph_streaming_cc.Graph.Components.Restoring.PutBack.{PutBack, cleanup_copy-PutBack}

module _ (p : Platform) (d : Doubles) (cfg : Config) where
  -- A result after which the graph is got ready again.
  pub data GoesOn : Result (List (List ℕ)) → Type 0 where
    found : (components : List (List ℕ)) → GoesOn (ok components)
    spent : GoesOn (throw out_of_queries)

  pub resume_after-GoesOn :
      (g : Graph) (r : Result (List (List ℕ))) → GoesOn r → resume_after g r ≡ resume g
  unfolding resume_after
  resume_after-GoesOn g r (found components) = refl
  resume_after-GoesOn g r spent = refl

  unfoldable pub Finished : List Supernode → Graph × Result (List (List ℕ)) → Type 0
  Finished orig r = PutBack orig r.0.supernodes × (r.0.num_nodes ≡ length orig) × GoesOn r.1

  pub throw-Finished :
      (orig : List Supernode) (st : Rounds)
      → Held orig st
      → Finished orig (finish_rounds p d cfg true st (some out_of_queries))
  unfolding finish_rounds Finished
  throw-Finished orig st h =
      let (calm, back, count) = cleanup_copy-PutBack p d cfg orig st h in
      rw (calm, finish_rounds) (back, count, spent)

  pub return-Finished :
      (orig : List Supernode) (st : Rounds)
      → Held orig st
      → OnForest st
      → Finished orig (finish_rounds p d cfg true st none)
  unfolding finish_rounds Finished
  return-Finished orig st h (forest, nodes) =
      let (parent, collected, _, _) = collect_components-classes st.graph.parent forest in
      let temp = classes (root st.graph.parent) st.graph.num_nodes 0 st.graph.num_nodes in
      let collected' =
        subst
          (λ n.
            collect_components n 0 st.graph.parent []
            ≡ some (classes (root st.graph.parent) n 0 n, parent))
          nodes collected in
      let with_parent : Rounds = record st { graph = record st.graph { parent = parent } } in
      let held : Held orig with_parent = (h.0, h.1, h.2) in
      let (calm, back, count) = cleanup_copy-PutBack p d cfg orig with_parent held in
      rw (collected', finish_rounds) (rw calm (back, count, found (map (λ entry. entry.1) temp)))
