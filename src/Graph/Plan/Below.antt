-- ===== src/Graph/Plan/Below.antt =====
-- The nodes in the lists that `Graph::supernodes_to_merge` (src/graph.cpp) makes are nodes of the
-- graph.
use hyper_graph_streaming_cc.Prelude.{
  ℕ, zero, suc, ◌+◌, ◌≤◌, ◌<◌, ◌≡◌, ◌∙◌, sym, subst, List, [], ◌∷◌, ◌++◌, length, some, Bool, true,
  false, get_elem?, arith, if◌then◌else◌,
}
use mathlib.Core.Option.{some-injective}
use hyper_graph_streaming_cc.Arrays.Cells.{count}
use hyper_graph_streaming_cc.Forest.Root.{IsForest}
use hyper_graph_streaming_cc.Sketch.Defs.{SampleSketchRet}
use hyper_graph_streaming_cc.Supernode.Defs.{Edge}
use hyper_graph_streaming_cc.Graph.Update.Cut.{InRange}
use hyper_graph_streaming_cc.Graph.Plan.{
  Plan, nodes_of, empty?, unmerged, merged_from, supernodes_to_merge,
}
use hyper_graph_streaming_cc.Graph.Plan.Step.{merges}
use hyper_graph_streaming_cc.Graph.Plan.Samples.{failed?, failing}
use hyper_graph_streaming_cc.Graph.Plan.Sampled.{
  edges_of, merge_samples-returned, merge_samples-SamplesBelow,
}
use hyper_graph_streaming_cc.Graph.Plan.Partition.{planned}

abbrev pub AllBelow : ℕ → List ℕ → Type 0
AllBelow n [] = Unit
AllBelow n (a ∷ nodes) = (a < n) × AllBelow n nodes

-- The representatives and the nodes that are to merge into them are below `n`.
abbrev pub MergesBelow : ℕ → List ℕ → List (List ℕ) → Type 0
MergesBelow n [] to_merge = Unit
MergesBelow n (a ∷ reps) to_merge =
    ((a < n) × AllBelow n (nodes_of to_merge a)) × MergesBelow n reps to_merge

AllBelow-append : (n : ℕ) (cs bs : List ℕ) → AllBelow n cs → AllBelow n bs → AllBelow n (cs ++ bs)
AllBelow-append n [] bs h k = k
AllBelow-append n (a ∷ cs) bs h k = (h.0, AllBelow-append n cs bs h.1 k)

AllBelow-if :
    (n a : ℕ) (b : Bool) (rest : List ℕ)
    → a < n
    → AllBelow n rest
    → AllBelow n (if b then a ∷ rest else rest) × AllBelow n (if b then rest else a ∷ rest)
AllBelow-if n a true rest lt h = ((lt, h), h)
AllBelow-if n a false rest lt h = (h, (lt, h))

AllBelow-failing :
    (n : ℕ) (query : List (Edge × SampleSketchRet)) (reps : List ℕ)
    → AllBelow n reps
    → AllBelow n (failing query reps)
unfolding failing
AllBelow-failing n query [] h = tt
AllBelow-failing n query (i ∷ reps) h =
    (AllBelow-if n i (failed? (get_elem? query i)) _ h.0 (AllBelow-failing n query reps h.1)).0

AllBelow-unmerged :
    (n : ℕ) (to_merge : List (List ℕ)) (reps : List ℕ)
    → AllBelow n reps
    → AllBelow n (unmerged to_merge reps)
unfolding unmerged
AllBelow-unmerged n to_merge [] h = tt
AllBelow-unmerged n to_merge (a ∷ reps) h =
    (AllBelow-if n a (empty? (nodes_of to_merge a)) _ h.0 (AllBelow-unmerged n to_merge reps h.1)).0

AllBelow-merged_from :
    (n : ℕ) (to_merge : List (List ℕ)) (k a : ℕ) → a + k ≤ n → AllBelow n (merged_from to_merge k a)
unfolding merged_from
AllBelow-merged_from n to_merge zero a h = tt
AllBelow-merged_from n to_merge (suc k) a h =
    (AllBelow-if n a (empty? (nodes_of to_merge a)) _ (omega arith)
      (AllBelow-merged_from n to_merge k (suc a) (omega arith))).1

count-AllBelow : (n : ℕ) (bs : List ℕ) → ((x : ℕ) → n ≤ x → count x bs ≡ 0) → AllBelow n bs
unfolding count
count-AllBelow n [] h = tt
count-AllBelow n (b ∷ bs) h =
    (ground (arith, h b), count-AllBelow n bs (λ x ge. ground (arith, h x ge)))

lists-MergesBelow :
    (n : ℕ) (to_merge : List (List ℕ)) (reps : List ℕ)
    → ((a : ℕ) → a < n → AllBelow n (nodes_of to_merge a))
    → AllBelow n reps
    → MergesBelow n reps to_merge
lists-MergesBelow n to_merge [] lists h = tt
lists-MergesBelow n to_merge (a ∷ reps) lists h =
    ((h.0, lists a h.0), lists-MergesBelow n to_merge reps lists h.1)

merges_out : (old new : List ℕ) (a x : ℕ) → length old ≤ x → merges old new a x ≡ 0
merges_out old new a x ge = ground arith

-- What a plan lists, and the representatives it leaves, are below the number of nodes.
pub supernodes_to_merge-MergesBelow :
    (query : List (Edge × SampleSketchRet)) (reps old size : List ℕ) (modified : Bool) (plan : Plan)
    → IsForest old
    → supernodes_to_merge (length old) query reps old size modified ≡ some plan
    → InRange (length old) (edges_of query reps)
    → AllBelow (length old) reps
    → AllBelow (length old) plan.new_reps × MergesBelow (length old) plan.new_reps plan.to_merge
supernodes_to_merge-MergesBelow query reps old size modified plan forest e below reps_below =
    let n = length old in
    let samples =
      merge_samples-SamplesBelow n query reps _ _
        (merge_samples-returned query reps old size modified plan e).1 below in
    let (plan', e', _, _, _, _, lists, _, left) =
      planned query reps old size modified forest samples in
    let left_below : AllBelow n plan'.new_reps = subst (AllBelow n) (sym left) (
      AllBelow-append n _ _
        (AllBelow-unmerged n plan'.to_merge _ (AllBelow-failing n query reps reps_below))
        (AllBelow-merged_from n plan'.to_merge n 0 (omega arith))) in
    subst (λ (t : Plan). AllBelow n t.new_reps × MergesBelow n t.new_reps t.to_merge)
      (some-injective plan' plan (sym e' ∙ e))
      (
        left_below,
        lists-MergesBelow n plan'.to_merge plan'.new_reps
            (λ a lt.
              count-AllBelow n (nodes_of plan'.to_merge a)
                (λ x ge. lists a x lt ∙ merges_out old plan'.parent a x ge))
            left_below,
      )
