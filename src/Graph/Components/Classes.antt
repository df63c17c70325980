-- ===== src/Graph/Components/Classes.antt =====
-- The components that `Graph::boruvka_emulation` of src/graph.cpp returns are the sets of the parent
-- array, one for each root.
use hyper_graph_streaming_cc.Prelude.{
  ℕ, zero, suc, ◌+◌, ◌≤◌, ◌<◌, ◌≡◌, ◌≢◌, refl, ap, ◌∙◌, sym, List, [], ◌∷◌, ◌++◌, some, arith,
  length, Bool-cases, inl, inr, ◌==◌, ==_iff, if◌then◌else◌,
}
use hyper_graph_streaming_cc.Forest.{root}
use hyper_graph_streaming_cc.Forest.Root.{IsForest, root-lt}
use hyper_graph_streaming_cc.Forest.Find.{find_total, SameRoots-refl, SameRoots-trans}
use hyper_graph_streaming_cc.Forest.Writes.{SameRoots}
use hyper_graph_streaming_cc.Graph.Plan.{get_parent}
use hyper_graph_streaming_cc.Graph.Components.{insert_node, collect_components}

-- The nodes below `count` with the label `r`, in ascending order.
unfoldable pub labelled : (ℕ → ℕ) → ℕ → ℕ → List ℕ
labelled label r zero = []
labelled label r (suc count) =
    let rest = labelled label r count in if label count == r then rest ++ count ∷ [] else rest

unfoldable pub with_class : ℕ → List ℕ → List (ℕ × List ℕ) → List (ℕ × List ℕ)
with_class r [] later = later
with_class r (i ∷ nodes) later = (r, i ∷ nodes) ∷ later

-- The labels from `r` on, `labels` of them, each with the nodes below `count` that have it; labels
-- that no node has are left out.
unfoldable pub classes : (ℕ → ℕ) → ℕ → ℕ → ℕ → List (ℕ × List ℕ)
classes label count r zero = []
classes label count r (suc labels) =
    with_class r (labelled label r count) (classes label count (suc r) labels)

module _ (k node r : ℕ) (later : List (ℕ × List ℕ)) where
  insert_before :
      (nodes : List ℕ)
      → k < r
      → insert_node k node later ≡ (k, node ∷ []) ∷ later
      → insert_node k node (with_class r nodes later) ≡ (k, node ∷ []) ∷ with_class r nodes later
  unfolding insert_node with_class
  insert_before [] lt front = front
  insert_before (i ∷ nodes) lt front = ground arith

  insert_here :
      (nodes : List ℕ)
      → k ≡ r
      → insert_node k node later ≡ (k, node ∷ []) ∷ later
      → insert_node k node (with_class r nodes later) ≡ with_class r (nodes ++ node ∷ []) later
  unfolding insert_node with_class
  insert_here [] e front = ground (arith, e)
  insert_here (i ∷ nodes) e front = ground arith

  insert_after :
      (nodes : List ℕ)
      → r < k
      → insert_node k node (with_class r nodes later)
        ≡ with_class r nodes (insert_node k node later)
  unfolding insert_node with_class
  insert_after [] lt = refl
  insert_after (i ∷ nodes) lt = ground arith

module _ (label : ℕ → ℕ) (count : ℕ) where
  labelled-suc_with :
      (r : ℕ)
      → label count ≡ r
      → labelled label r (suc count) ≡ labelled label r count ++ count ∷ []
  unfolding labelled
  labelled-suc_with r e = ground (arith, e)

  labelled-suc_without :
      (r : ℕ) → label count ≢ r → labelled label r (suc count) ≡ labelled label r count
  unfolding labelled
  labelled-suc_without r ne = ground (arith, ne)

  -- The entry of a label that is smaller than all others is put in front.
  insert_front :
      (k node r labels : ℕ)
      → k < r
      → insert_node k node (classes label count r labels)
        ≡ (k, node ∷ []) ∷ classes label count r labels
  unfolding insert_node classes
  insert_front k node r zero lt = refl
  insert_front k node r (suc labels) lt =
      insert_before k node r (classes label count (suc r) labels) (labelled label r count) lt
        (insert_front k node (suc r) labels (omega arith))

  classes-suc_below :
      (r labels : ℕ)
      → label count < r
      → classes label (suc count) r labels ≡ classes label count r labels
  unfolding classes
  classes-suc_below r zero lt = refl
  classes-suc_below r (suc labels) lt =
      ap (λ nodes. with_class r nodes (classes label (suc count) (suc r) labels))
        (labelled-suc_without r (λ e. omega (arith, e)))
      ∙ ap (with_class r (labelled label r count)) (classes-suc_below (suc r) labels (omega arith))

  insert_node-classes :
      (r labels : ℕ)
      → r ≤ label count
      → label count < r + labels
      → insert_node (label count) count (classes label count r labels)
        ≡ classes label (suc count) r labels
  unfolding classes
  insert_node-classes r zero ge lt = absurd (omega arith)
  insert_node-classes r (suc labels) ge lt = elim (Bool-cases (label count == r)) [
    | inl e ↦
        let here = (==_iff (label count) r).0 e in
        insert_here (label count) count r (classes label count (suc r) labels)
          (labelled label r count) here
          (insert_front (label count) count (suc r) labels (omega (arith, here)))
        ∙ ap (λ nodes. with_class r nodes (classes label count (suc r) labels))
            (sym (labelled-suc_with r here))
        ∙ ap (with_class r (labelled label r (suc count)))
            (sym (classes-suc_below (suc r) labels (omega (arith, here))))
    | inr e ↦
        let apart : label count ≢ r = ground arith in
        insert_after (label count) count r (classes label count (suc r) labels)
          (labelled label r count) (omega (arith, apart))
        ∙ ap (with_class r (labelled label r count))
            (insert_node-classes (suc r) labels (omega (arith, apart)) (omega arith))
        ∙ ap (λ nodes. with_class r nodes (classes label (suc count) (suc r) labels))
            (sym (labelled-suc_without r apart))
  ]

classes_none : (label : ℕ → ℕ) (r labels : ℕ) → classes label 0 r labels ≡ []
unfolding classes labelled with_class
classes_none label r zero = refl
classes_none label r (suc labels) = classes_none label (suc r) labels

collect-found :
    (count : ℕ) (temp : List (ℕ × List ℕ)) (ps : List ℕ) (i : ℕ)
    → {r : ℕ} {qs : List ℕ} → get_parent ps i ≡ some (r, qs)
    → collect_components (suc count) i ps temp
      ≡ collect_components count (suc i) qs (insert_node r i temp)
unfolding collect_components
collect-found count temp ps i found = rw (found, collect_components) refl

-- A map that was filled with the classes of the nodes below `i`, and a parent array that the
-- searches so far have changed.
collect_components_from :
    (parent : List ℕ) (count i : ℕ) (ps : List ℕ)
    → IsForest ps
    → SameRoots parent ps
    → i + count ≡ length parent
    → (ps' : List ℕ) × (collect_components count i ps (classes (root parent) i 0 (length parent))
        ≡ some (classes (root parent) (length parent) 0 (length parent), ps'))
      × IsForest ps'
      × SameRoots parent ps'
unfolding collect_components get_parent
collect_components_from parent zero i ps f same e =
    (ps, ap (λ n. some (classes (root parent) n 0 (length parent), ps)) (omega (arith, e)), f, same)
collect_components_from parent (suc count) i ps f same e =
    let lt : i < length ps = omega (arith, same.size) in
    let (qs, found, forest, kept) = find_total ps i f lt in
    let top = same.roots i (omega arith) in
    let inserted =
      ap (λ r. insert_node r i (classes (root parent) i 0 (length parent))) top
      ∙ insert_node-classes (root parent) i 0 (length parent) (omega arith)
          (omega (arith, root-lt ps f i lt, top, same.size)) in
    let (ps', rest, forest', same') =
      collect_components_from parent count (suc i) qs forest
        (SameRoots-trans parent ps qs same kept) (omega (arith, e)) in
    (
      ps',
      collect-found count _ ps i found ∙ ap (collect_components count (suc i) qs) inserted ∙ rest,
      forest',
      same',
    )

-- For a parent array that is a forest, the loop after the last round returns the nodes grouped by
-- their roots: a component for each root, in ascending order of the roots, with exactly the nodes
-- that have this root, in ascending order. It leaves a forest with the same roots.
pub collect_components-classes :
    (parent : List ℕ)
    → IsForest parent
    → (ps : List ℕ) × (collect_components (length parent) 0 parent []
        ≡ some (classes (root parent) (length parent) 0 (length parent), ps))
      × IsForest ps
      × SameRoots parent ps
collect_components-classes parent f = rw (sym (classes_none (root parent) 0 (length parent))) (
    collect_components_from parent (length parent) 0 parent f (SameRoots-refl parent) (omega arith))
