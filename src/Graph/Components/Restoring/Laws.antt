-- ===== src/Graph/Components/Restoring/Laws.antt =====
-- After a query that goes on with the stream, with the copies in memory, the supernodes are what they
-- were (`cleanup_copy` and `Graph::connected_components` of src/graph.cpp).
use mathlib.Core.Option.{some-injective}
use hyper_graph_streaming_cc.Prelude.{
  ℕ, zero, suc, ◌≤◌, ◌≡◌, refl, ap, ◌∙◌, sym, subst, List, [], ◌∷◌, map, length, length-replicate,
  Option, some, none, true, false, Option-cases, some≢none, inl, inr, get_elem?, replicate,
}
use hyper_graph_streaming_cc.Platform.{Platform, Doubles}
use hyper_graph_streaming_cc.Exceptions.{Exception, Result}
use hyper_graph_streaming_cc.Sketch.Defs.{Config}
use hyper_graph_streaming_cc.Supernode.Defs.{Supernode, reset_query_state}
use hyper_graph_streaming_cc.Supernode.Streams.{Represents-IsQueryable}
use hyper_graph_streaming_cc.Dsu.{own_parents}
use hyper_graph_streaming_cc.Graph.State.{Graph}
use hyper_graph_streaming_cc.Graph.Update.Laws.{Holds}
use hyper_graph_streaming_cc.Graph.Update.Cut.{InRange}
use hyper_graph_streaming_cc.Graph.Rounds.{Rounds, round, rounds}
use hyper_graph_streaming_cc.Graph.Rounds.Sampled.{OnForest, run_edges, rounds-Joined}
use hyper_graph_streaming_cc.Graph.Rounds.Throws.{rounds_throw}
use hyper_graph_streaming_cc.Graph.Components.{
  start_rounds, finish_rounds, boruvka_emulation, resume, connected_components,
}
use hyper_graph_streaming_cc.Graph.Components.Start.{start_rounds-Ready}
use hyper_graph_streaming_cc.Graph.Components.Answers.{
  start_rounds-OnForest, boruvka_emulation-finish_rounds, connected_components-resume,
}
use hyper_graph_streaming_cc.Graph.Components.Restoring.Distinct.{
  among, own_parents-Distinct, false≢true,
}
use hyper_graph_streaming_cc.Graph.Components.Restoring.Merges.{AllAmong}
use hyper_graph_streaming_cc.Graph.Components.Restoring.Rounds.{Held}
use hyper_graph_streaming_cc.Graph.Components.Restoring.Runs.{later_targets, first-Run}
use hyper_graph_streaming_cc.Graph.Components.Restoring.PutBack.{PutBack}
use hyper_graph_streaming_cc.Graph.Components.Restoring.Finish.{
  Finished, resume_after-GoesOn, throw-Finished, return-Finished,
}

get_elem?-map :
    {A B : Type 0}
    → (f : A → B) (xs : List A) (i : ℕ) (x : A) → get_elem? xs i ≡ some x
    → get_elem? (map f xs) i ≡ some (f x)
get_elem?-map f [] i x e = cc
get_elem?-map f (y ∷ xs) zero x e = ap (λ z. some (f z)) (some-injective y x e)
get_elem?-map f (y ∷ xs) (suc i) x e = get_elem?-map f xs i x e

length-map : {A B : Type 0} → (f : A → B) (xs : List A) → length (map f xs) ≡ length xs
length-map f [] = refl
length-map f (x ∷ xs) = ap suc (length-map f xs)

-- The graph as it was before a query, its supernodes ready to be queried again.
pub record Restored (g end : Graph) : Type 0 where
  pub num_nodes : end.num_nodes ≡ g.num_nodes
  pub count : length end.supernodes ≡ length g.supernodes
  pub supernodes :
      (i : ℕ) (s : Supernode)
      → get_elem? g.supernodes i ≡ some s
      → get_elem? end.supernodes i ≡ some (reset_query_state s)
  pub parent : end.parent ≡ own_parents g.num_nodes 0
  pub size : end.size ≡ replicate g.num_nodes 1
  pub unlocked : end.update_locked ≡ false

resume-Restored :
    (g g' : Graph)
    → length g.supernodes ≡ g.num_nodes
    → g'.num_nodes ≡ length g.supernodes
    → PutBack g.supernodes g'.supernodes
    → Restored g (resume g')
unfolding resume
resume-Restored g g' count nodes (size, back) =
    let same = nodes ∙ count in
    record {
      num_nodes = same;
      count = length-map reset_query_state g'.supernodes ∙ size;
      supernodes = λ i s e.
          let (t, f, k) = back i s e in
          get_elem?-map reset_query_state g'.supernodes i t f ∙ ap some k;
      parent = ap (λ n. own_parents n 0) same;
      size = ap (λ n. replicate n 1) same;
      unlocked = refl;
    }

module _ (p : Platform) (d : Doubles) (cfg : Config) where
  start-Held :
      (g : Graph) (streams : ℕ → List ℕ)
      → Holds p d cfg g streams
      → g.copy_in_mem ≡ true
      → Held g.supernodes (start_rounds p d cfg g)
  unfolding start_rounds among
  start-Held g streams h in_mem = (
    in_mem,
    sym h.count,
    record {
      count = refl;
      slots = length-replicate g.num_nodes none ∙ sym h.count;
      ids_below = tt;
      kept = λ i o e out.
          (o, e, (Represents-IsQueryable p d cfg o (streams i) (h.nodes i o e).contents, refl));
      saved = λ i o e inside outside. absurd (false≢true inside);
    },
  )

  module _ (fuel : ℕ) (g : Graph) (streams : ℕ → List ℕ) (few : cfg.num_guesses ≤ 31)
      (holds : Holds p d cfg g streams) (own : g.parent ≡ own_parents g.num_nodes 0)
      (in_mem : g.copy_in_mem ≡ true)
      (below : InRange g.num_nodes (run_edges p cfg true fuel (start_rounds p d cfg g)))
      (covered : AllAmong
        (round p cfg true (start_rounds p d cfg g)).0.backed_up
        (later_targets p d cfg fuel (start_rounds p d cfg g))) where
    boruvka_emulation-Finished :
        (r : Graph × Result (List (List ℕ)))
        → boruvka_emulation p d cfg fuel true g ≡ some r
        → Finished p d cfg g.supernodes r
    unfolding boruvka_emulation start_rounds
    boruvka_emulation-Finished r e =
        let start = start_rounds p d cfg g in
        let ready = start_rounds-Ready p d cfg g streams holds own in
        let held =
          λ (st : Rounds) (except : Option Exception)
              (ran : rounds p cfg fuel true start ≡ some (st, except)).
            first-Run p d cfg g.num_nodes g.seed g.supernodes fuel start st streams except ready
              below refl refl (own_parents-Distinct g.num_nodes 0) holds.count covered
              (start-Held g streams holds in_mem) ran in
        elim (Option-cases (rounds p cfg fuel true start)) [
          | inl stuck ↦ absurd (some≢none (sym e ∙ rw (stuck, boruvka_emulation) refl))
          | inr ((st, none), ran) ↦
              let own_forest = start_rounds-OnForest p d cfg g own in
              let (joins, same) = rounds-Joined p cfg true fuel start st ran own_forest below in
              let on : OnForest st = (joins.forest, joins.size ∙ own_forest.1 ∙ sym same) in
              subst (Finished p d cfg g.supernodes)
                (some-injective _ r
                  (sym (boruvka_emulation-finish_rounds p d cfg fuel true g st none ran) ∙ e))
                (return-Finished p d cfg g.supernodes st (held st none ran) on)
          | inr ((st, some x), ran) ↦
              let only =
                rounds_throw p d cfg g.num_nodes g.seed few true fuel start st streams x ready below
                  ran in
              subst (Finished p d cfg g.supernodes)
                (some-injective _ r
                  (sym (boruvka_emulation-finish_rounds p d cfg fuel true g st (some x) ran) ∙ e))
                (subst (λ y. Finished p d cfg g.supernodes (finish_rounds p d cfg true st (some y)))
                  (sym only) (throw-Finished p d cfg g.supernodes st (held st (some x) ran)))
        ]

    -- Let a graph with its copies in memory hold the streams of its vertices, each vertex its own
    -- root, with at most 31 guesses. If a query that goes on with the stream samples only edges
    -- between vertices, and its rounds after the first one merge only into supernodes that were
    -- backed up in the first one, then once it has returned components or thrown, the graph has the
    -- same number of vertices, takes updates, each vertex is its own root with size 1, and every
    -- supernode is the one from before the query with its query state reset.
    pub connected_components-Restored :
        (end : Graph) (result : Result (List (List ℕ)))
        → connected_components p d cfg fuel true g ≡ some (end, result)
        → Restored g end
    unfolding connected_components Finished
    connected_components-Restored end result e =
        elim (Option-cases (boruvka_emulation p d cfg fuel true g)) [
          | inl stuck ↦ absurd (some≢none (sym e ∙ rw (stuck, connected_components) refl))
          | inr ((g', r), ran) ↦
              let (back, nodes, on) = boruvka_emulation-Finished (g', r) ran in
              let reached =
                ap (λ t. t.0)
                  (some-injective _ (end, result)
                    (sym (connected_components-resume p d cfg fuel g g' r ran) ∙ e)) in
              subst (Restored g) (sym (resume_after-GoesOn p d cfg g' r on) ∙ reached)
                (resume-Restored g g' holds.count nodes back)
        ]
