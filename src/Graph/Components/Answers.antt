-- ===== src/Graph/Components/Answers.antt =====
-- What `Graph::connected_components` of src/graph.cpp returns: the connected components of the graph
-- of the edges that its rounds have sampled.
use mathlib.Core.Option.{some-injective}
use hyper_graph_streaming_cc.Prelude.{
  some≢none, ℕ, ◌<◌, ◌≡◌, ◌≢◌, refl, ap, ◌∙◌, sym, subst, List, [], map, length, Option, none, some,
  Bool, true, false, Option-cases, inl, inr, ◌⊎◌, ◌↔◌, arith,
}
use hyper_graph_streaming_cc.Platform.{Platform, Doubles}
use hyper_graph_streaming_cc.Exceptions.{Exception, Result, ok, throw}
use hyper_graph_streaming_cc.Sketch.Defs.{Config}
use hyper_graph_streaming_cc.Supernode.Defs.{Edge}
use hyper_graph_streaming_cc.Forest.{root}
use hyper_graph_streaming_cc.Forest.Root.{IsForest, root-lt}
use hyper_graph_streaming_cc.Dsu.{own_parents, make_dsu}
use hyper_graph_streaming_cc.Dsu.Laws.{make_dsu_singletons}
use hyper_graph_streaming_cc.Graph.State.{Graph}
use hyper_graph_streaming_cc.Graph.Update.Cut.{InRange}
use hyper_graph_streaming_cc.Graph.Plan.Sampled.{JoinsEdges}
use hyper_graph_streaming_cc.Graph.Rounds.{Rounds, rounds}
use hyper_graph_streaming_cc.Graph.Rounds.Sampled.{OnForest, run_edges, rounds-Joined}
use hyper_graph_streaming_cc.Graph.Components.{
  collect_components, cleanup_copy, start_rounds, finish_rounds, boruvka_emulation,
  connected_components, resume_after,
}
use hyper_graph_streaming_cc.Graph.Components.Linked.{
  Linked, back, then_along, Linked-SameEnds, labels, labels-SameEnds, labels-Linked,
}
use hyper_graph_streaming_cc.Graph.Components.Classes.{classes, collect_components-classes}

pub ok≢throw : {A : Type 0} {a : A} {e : Exception} → ok a ≢ throw e
ok≢throw e = cc

ok-injective : {A : Type 0} (a b : A) → ok a ≡ ok b → a ≡ b
ok-injective a b e = cc

-- The sets of nodes that a labelling of `n` nodes by smaller numbers makes.
abbrev pub components_by : (ℕ → ℕ) → ℕ → List (List ℕ)
components_by label n = map (λ entry. entry.1) (classes label n 0 n)

-- The roots of a forest that the edges make of single nodes.
JoinsEdges-Linked :
    (n : ℕ) (old new : List ℕ) (edges : List Edge)
    → old ≡ own_parents n 0
    → JoinsEdges old edges new
    → (i j : ℕ) → i < n
    → j < n
    → (root new i ≡ root new j) ↔ Linked edges i j
unfolding make_dsu
JoinsEdges-Linked n old new edges own joins i j lt lt' =
    let (_, nodes, alone) = make_dsu_singletons n in
    let length_old : length old ≡ n = rw own nodes in
    let top : (k : ℕ) → k < n → root old k ≡ k = λ k h. rw own (alone k h) in
    let linked = λ (k : ℕ) (h : k < n). labels-Linked edges (root new k) k (
      joins.least (labels edges) (λ m h'. ap (labels edges) (top m (omega (arith, length_old))))
        (labels-SameEnds edges) k (omega (arith, length_old))) in
    (
      λ e. then_along (back (linked i lt)) (subst (λ r. Linked edges r j) (sym e) (linked j lt')),
      λ l. Linked-SameEnds (root new) edges joins.joined l,
    )

module _ (p : Platform) (d : Doubles) (cfg : Config) where
  finish_rounds-throws :
      (make_copy : Bool) (st : Rounds) (x : Exception)
      → (y : Exception) × ((finish_rounds p d cfg make_copy st (some x)).1 ≡ throw y)
  unfolding finish_rounds
  finish_rounds-throws make_copy st x = elim (Option-cases (cleanup_copy p d cfg make_copy st).1) [
    | inl restored ↦ (x, rw (restored, finish_rounds) refl)
    | inr (y, failed) ↦ (y, rw (failed, finish_rounds) refl)
  ]

  finish_rounds-found :
      (make_copy : Bool) (st : Rounds) (temp : List (ℕ × List ℕ)) (parent : List ℕ)
      → collect_components st.graph.num_nodes 0 st.graph.parent [] ≡ some (temp, parent)
      → ((finish_rounds p d cfg make_copy st none).1 ≡ ok (map (λ entry. entry.1) temp))
        ⊎ ((y : Exception) × ((finish_rounds p d cfg make_copy st none).1 ≡ throw y))
  unfolding finish_rounds
  finish_rounds-found make_copy st temp parent collected =
      elim (Option-cases
        (cleanup_copy p d cfg make_copy
          (record st { graph = record st.graph { parent = parent } })).1) [
            | inl restored ↦ inl (rw (collected, finish_rounds) (rw restored refl))
            | inr (y, failed) ↦ inr (y, rw (collected, finish_rounds) (rw failed refl))
          ]

  finish_rounds-classes :
      (make_copy : Bool) (st : Rounds) (end : Graph) (found : List (List ℕ))
      → OnForest st
      → finish_rounds p d cfg make_copy st none ≡ (end, ok found)
      → found ≡ components_by (root st.graph.parent) st.graph.num_nodes
  finish_rounds-classes make_copy st end found (forest, nodes) e =
      let (parent, collected, _, _) = collect_components-classes st.graph.parent forest in
      elim (finish_rounds-found make_copy st
        (classes (root st.graph.parent) st.graph.num_nodes 0 st.graph.num_nodes) parent
        (subst
          (λ n.
            collect_components n 0 st.graph.parent []
            ≡ some (classes (root st.graph.parent) n 0 n, parent))
          nodes collected)) [
            | inl good ↦ ok-injective _ _ (sym (ap (λ r. r.1) e) ∙ good)
            | inr (y, bad) ↦ absurd (ok≢throw (sym (ap (λ r. r.1) e) ∙ bad))
          ]

  -- The state in which the loop ended.
  abbrev Ended : ℕ → Bool → Graph → List (List ℕ) → Type 0
  Ended fuel make_copy g found =
      (st : Rounds) × (rounds p cfg fuel make_copy (start_rounds p d cfg g) ≡ some (st, none))
      × ((end : Graph) × (finish_rounds p d cfg make_copy st none ≡ (end, ok found)))

  pub boruvka_emulation-finish_rounds :
      (fuel : ℕ) (make_copy : Bool) (g : Graph) (st : Rounds) (except : Option Exception)
      → rounds p cfg fuel make_copy (start_rounds p d cfg g) ≡ some (st, except)
      → boruvka_emulation p d cfg fuel make_copy g
        ≡ some (finish_rounds p d cfg make_copy st except)
  unfolding boruvka_emulation
  boruvka_emulation-finish_rounds fuel make_copy g st except ran = rw (ran, boruvka_emulation) refl

  boruvka_emulation-Ended :
      (fuel : ℕ) (make_copy : Bool) (g end : Graph) (found : List (List ℕ))
      → boruvka_emulation p d cfg fuel make_copy g ≡ some (end, ok found)
      → Ended fuel make_copy g found
  unfolding boruvka_emulation
  boruvka_emulation-Ended fuel make_copy g end found e =
      elim (Option-cases (rounds p cfg fuel make_copy (start_rounds p d cfg g))) [
        | inl stuck ↦ absurd (some≢none (sym e ∙ rw (stuck, boruvka_emulation) refl))
        | inr ((st, none), ran) ↦ (
          st,
          ran,
          (
            end,
            some-injective _ _
                (sym (boruvka_emulation-finish_rounds fuel make_copy g st none ran) ∙ e),
          ),
        )
        | inr ((st, some x), ran) ↦
            let (y, thrown) = finish_rounds-throws make_copy st x in
            absurd (
              ok≢throw (
                sym (
                  ap (λ r. r.1)
                    (some-injective _ _
                      (sym (boruvka_emulation-finish_rounds fuel make_copy g st (some x) ran) ∙ e)))
                ∙ thrown))
      ]

  pub connected_components-resume :
      (fuel : ℕ) (g g' : Graph) (result : Result (List (List ℕ)))
      → boruvka_emulation p d cfg fuel true g ≡ some (g', result)
      → connected_components p d cfg fuel true g ≡ some (resume_after g' result, result)
  unfolding connected_components
  connected_components-resume fuel g g' result ran = rw (ran, connected_components) refl

  connected_components-boruvka_emulation :
      (fuel : ℕ) (cont : Bool) (g end : Graph) (found : List (List ℕ))
      → connected_components p d cfg fuel cont g ≡ some (end, ok found)
      → (g' : Graph) × (boruvka_emulation p d cfg fuel cont g ≡ some (g', ok found))
  unfolding connected_components
  connected_components-boruvka_emulation fuel true g end found e =
      elim (Option-cases (boruvka_emulation p d cfg fuel true g)) [
        | inl stuck ↦ absurd (some≢none (sym e ∙ rw (stuck, connected_components) refl))
        | inr ((g', result), ran) ↦ (
          g',
          ran
              ∙ ap (λ r. some (g', r))
                  (ap (λ r. r.1)
                    (some-injective _ (end, ok found)
                      (sym (connected_components-resume fuel g g' result ran) ∙ e))),
        )
      ]
  connected_components-boruvka_emulation fuel false g end found e = (end, e)

  pub start_rounds-OnForest :
      (g : Graph) → g.parent ≡ own_parents g.num_nodes 0 → OnForest (start_rounds p d cfg g)
  unfolding start_rounds make_dsu
  start_rounds-OnForest g e =
      let (forest, nodes, _) = make_dsu_singletons g.num_nodes in
      (subst IsForest (sym e) forest, rw e nodes)

  -- If a query for the components, of a graph in which each vertex is its own root, returns
  -- components and has sampled only edges between its vertices, then the components are the
  -- connected components of the graph of the sampled edges: they are the sets of a labelling of the
  -- vertices by vertices, where two vertices have one label exactly if a path of sampled edges links
  -- them.
  pub connected_components-Linked :
      (fuel : ℕ) (cont : Bool) (g end : Graph) (found : List (List ℕ))
      → connected_components p d cfg fuel cont g ≡ some (end, ok found)
      → g.parent ≡ own_parents g.num_nodes 0
      → InRange g.num_nodes (run_edges p cfg cont fuel (start_rounds p d cfg g))
      → (label : ℕ → ℕ) × (found ≡ components_by label g.num_nodes)
        × ((k : ℕ) → k < g.num_nodes → label k < g.num_nodes)
        × ((i j : ℕ)
            → i < g.num_nodes
            → j < g.num_nodes
            → (label i ≡ label j) ↔ Linked (run_edges p cfg cont fuel (start_rounds p d cfg g)) i j)
  unfolding start_rounds make_dsu
  connected_components-Linked fuel cont g end found e own below =
      let edges = run_edges p cfg cont fuel (start_rounds p d cfg g) in
      let (g', ran) = connected_components-boruvka_emulation fuel cont g end found e in
      let (st, looped, (end', finished)) = boruvka_emulation-Ended fuel cont g g' found ran in
      let on = start_rounds-OnForest g own in
      let (joins, same) =
        rounds-Joined p cfg cont fuel (start_rounds p d cfg g) st looped on below in
      (
        root st.graph.parent,
        finish_rounds-classes cont st end' found (joins.forest, joins.size ∙ on.1 ∙ sym same)
              finished
            ∙ ap (components_by (root st.graph.parent)) same,
        λ k lt. omega (
          arith,
          root-lt st.graph.parent joins.forest k (omega (arith, joins.size, on.1)),
          joins.size,
          on.1,
        ),
        λ i j lt lt'.
            JoinsEdges-Linked g.num_nodes g.parent st.graph.parent edges own joins i j lt lt',
      )
