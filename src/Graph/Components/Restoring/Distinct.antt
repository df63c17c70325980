-- ===== src/Graph/Components/Restoring/Distinct.antt =====
-- The representatives of a round of `Graph::boruvka_emulation` (src/graph.cpp) are distinct.
use hyper_graph_streaming_cc.Prelude.{
  ℕ, zero, suc, ◌<◌, ◌≡◌, ◌≢◌, refl, ap, ◌∙◌, sym, List, [], ◌∷◌, ◌++◌, Bool, true, false,
  Bool-cases, inl, inr, ◌==◌, ==_iff, if◌then◌else◌, arith, get_elem?, length, some, subst,
}
use hyper_graph_streaming_cc.Dsu.{own_parents}
use hyper_graph_streaming_cc.Sketch.Defs.{SampleSketchRet}
use hyper_graph_streaming_cc.Supernode.Defs.{Edge}
use mathlib.Core.Option.{some-injective}
use hyper_graph_streaming_cc.Forest.Root.{IsForest}
use hyper_graph_streaming_cc.Graph.Update.Cut.{InRange}
use hyper_graph_streaming_cc.Graph.Plan.{
  Plan, nodes_of, empty?, unmerged, merged_from, supernodes_to_merge,
}
use hyper_graph_streaming_cc.Graph.Plan.Partition.{planned}
use hyper_graph_streaming_cc.Graph.Plan.Sampled.{
  edges_of, merge_samples-returned, merge_samples-SamplesBelow,
}
use hyper_graph_streaming_cc.Graph.Plan.Samples.{failed?, failing}

unfoldable pub among : ℕ → List ℕ → Bool
among x [] = false
among x (a ∷ nodes) = let rest = among x nodes in if a == x then true else rest

abbrev pub Distinct : List ℕ → Type 0
Distinct [] = Unit
Distinct (a ∷ nodes) = (among a nodes ≡ false) × Distinct nodes

pub false≢true : false ≢ true
false≢true e = cc

among-append :
    (x : ℕ) (xs ys : List ℕ) → among x xs ≡ false → among x ys ≡ false → among x (xs ++ ys) ≡ false
unfolding among
among-append x [] ys h k = k
among-append x (a ∷ xs) ys h k = elim (Bool-cases (a == x)) [
  | inl e ↦ absurd (ground arith)
  | inr e ↦ rw e (among-append x xs ys (rw e at h) k)
]

among-failing :
    (x : ℕ) (query : List (Edge × SampleSketchRet)) (reps : List ℕ)
    → among x reps ≡ false
    → among x (failing query reps) ≡ false
unfolding among failing
among-failing x query [] h = refl
among-failing x query (i ∷ reps) h = ground (arith, among-failing x query reps)

Distinct-failing :
    (query : List (Edge × SampleSketchRet)) (reps : List ℕ)
    → Distinct reps
    → Distinct (failing query reps)
unfolding failing
Distinct-failing query [] h = tt
Distinct-failing query (i ∷ reps) h = elim (Bool-cases (failed? (get_elem? query i))) [
  | inl e ↦ rw e (among-failing i query reps h.0, Distinct-failing query reps h.1)
  | inr e ↦ rw e (Distinct-failing query reps h.1)
]

among-unmerged :
    (x : ℕ) (to_merge : List (List ℕ)) (reps : List ℕ)
    → among x reps ≡ false
    → among x (unmerged to_merge reps) ≡ false
unfolding among unmerged
among-unmerged x to_merge [] h = refl
among-unmerged x to_merge (a ∷ reps) h = ground (arith, among-unmerged x to_merge reps)

among-merged_from :
    (x : ℕ) (to_merge : List (List ℕ)) (k a : ℕ)
    → x < a
    → among x (merged_from to_merge k a) ≡ false
unfolding among merged_from
among-merged_from x to_merge zero a h = refl
among-merged_from x to_merge (suc k) a h =
    ground (arith, among-merged_from x to_merge k (suc a) (omega arith))

Distinct-merged_from : (to_merge : List (List ℕ)) (k a : ℕ) → Distinct (merged_from to_merge k a)
unfolding merged_from
Distinct-merged_from to_merge zero a = tt
Distinct-merged_from to_merge (suc k) a = elim (Bool-cases (empty? (nodes_of to_merge a))) [
  | inl e ↦ rw e (Distinct-merged_from to_merge k (suc a))
  | inr e ↦ rw e (
    among-merged_from a to_merge k (suc a) (omega arith),
    Distinct-merged_from to_merge k (suc a),
  )
]

-- A node into which nothing merges is not among those into which something does.
among-merged_from_empty :
    (x : ℕ) (to_merge : List (List ℕ)) (k a : ℕ)
    → empty? (nodes_of to_merge x) ≡ true
    → among x (merged_from to_merge k a) ≡ false
unfolding among merged_from
among-merged_from_empty x to_merge zero a h = refl
among-merged_from_empty x to_merge (suc k) a h =
    let rest = among-merged_from_empty x to_merge k (suc a) h in
    elim (Bool-cases (empty? (nodes_of to_merge a))) [
      | inl e ↦ rw e rest
      | inr e ↦ elim (Bool-cases (a == x)) [
        | inl same ↦
            absurd (
              false≢true (sym e ∙ ap (λ k. empty? (nodes_of to_merge k)) ((==_iff a x).0 same) ∙ h))
        | inr other ↦ rw e (rw other rest)
      ]
    ]

Distinct-new_reps :
    (to_merge : List (List ℕ)) (reps : List ℕ) (n : ℕ)
    → Distinct reps
    → Distinct (unmerged to_merge reps ++ merged_from to_merge n 0)
unfolding unmerged
Distinct-new_reps to_merge [] n h = Distinct-merged_from to_merge n 0
Distinct-new_reps to_merge (a ∷ reps) n h = elim (Bool-cases (empty? (nodes_of to_merge a))) [
  | inr e ↦ rw e (Distinct-new_reps to_merge reps n h.1)
  | inl e ↦ rw e (
    among-append a (unmerged to_merge reps) (merged_from to_merge n 0)
        (among-unmerged a to_merge reps h.0) (among-merged_from_empty a to_merge n 0 e),
    Distinct-new_reps to_merge reps n h.1,
  )
]

-- From a forest and distinct representatives, a plan leaves distinct representatives.
pub supernodes_to_merge-Distinct :
    (query : List (Edge × SampleSketchRet)) (reps old size : List ℕ) (modified : Bool) (plan : Plan)
    → IsForest old
    → supernodes_to_merge (length old) query reps old size modified ≡ some plan
    → InRange (length old) (edges_of query reps)
    → Distinct reps
    → Distinct plan.new_reps
supernodes_to_merge-Distinct query reps old size modified plan forest e below distinct =
    let samples =
      merge_samples-SamplesBelow (length old) query reps _ _
        (merge_samples-returned query reps old size modified plan e).1 below in
    let (plan', e', _, _, _, _, _, _, left) = planned query reps old size modified forest samples in
    subst (λ (t : Plan). Distinct t.new_reps) (some-injective plan' plan (sym e' ∙ e))
      (subst Distinct (sym left) (
        Distinct-new_reps plan'.to_merge (failing query reps) (length old)
          (Distinct-failing query reps distinct)))

among-own_parents : (x count k : ℕ) → x < k → among x (own_parents count k) ≡ false
unfolding among own_parents
among-own_parents x zero k h = refl
among-own_parents x (suc count) k h =
    ground (arith, among-own_parents x count (suc k) (omega arith))

pub own_parents-Distinct : (count k : ℕ) → Distinct (own_parents count k)
unfolding own_parents
own_parents-Distinct zero k = tt
own_parents-Distinct (suc count) k =
    (among-own_parents k count (suc k) (omega arith), own_parents-Distinct count (suc k))
