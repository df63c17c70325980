-- ===== src/Graph/Plan/Settled.antt =====
-- What it means that `Graph::supernodes_to_merge` (src/graph.cpp) leaves `modified` false: no sample
-- failed, and no sampled edge leaves its set.
use hyper_graph_streaming_cc.Prelude.{
  ℕ, ◌≡◌, refl, ap, ◌∙◌, sym, subst, List, [], ◌∷◌, ◌++◌, replicate, length, Option, some, none,
  Bool, false, get_elem?, Option-cases, some≢none, inl, inr,
}
use mathlib.Core.Option.{some-injective}
use hyper_graph_streaming_cc.Forest.{root}
use hyper_graph_streaming_cc.Forest.Root.{IsForest}
use hyper_graph_streaming_cc.Forest.Writes.{SameRoots}
use hyper_graph_streaming_cc.Forest.Find.{SameRoots-refl, SameRoots-trans}
use hyper_graph_streaming_cc.Sketch.Defs.{SampleSketchRet, good, zero_ret, fail}
use hyper_graph_streaming_cc.Supernode.Defs.{Edge}
use hyper_graph_streaming_cc.Graph.Plan.{
  Plan, merge_sample, merge_samples, supernodes_to_merge, unmerged, merged_from,
}
use hyper_graph_streaming_cc.Graph.Plan.Samples.{SampleBelow, SamplesBelow, merge_samples-cons}
use hyper_graph_streaming_cc.Graph.Update.Cut.{InRange}
use hyper_graph_streaming_cc.Graph.Plan.Sampled.{
  edges_of, merge_samples-returned, merge_samples-SamplesBelow,
}
use hyper_graph_streaming_cc.Graph.Plan.Idle.{
  Settled, SettledAll, Idle, merge_sample-Idle, merge_samples-before,
}

-- Settled samples stay so in a forest with the same roots.
SettledAll-SameRoots :
    (ps qs : List ℕ) (query : List (Edge × SampleSketchRet)) (reps : List ℕ)
    → SameRoots ps qs
    → SamplesBelow (length ps) query reps
    → SettledAll (root qs) query reps
    → SettledAll (root ps) query reps
SettledAll-SameRoots ps qs query [] same below h = tt
SettledAll-SameRoots ps qs query (i ∷ reps) same below h =
    (one (get_elem? query i) below.0 h.0, SettledAll-SameRoots ps qs query reps same below.1 h.1)
  where
    one :
        (o : Option (Edge × SampleSketchRet))
        → SampleBelow (length ps) o
        → Settled (root qs) o
        → Settled (root ps) o
    one none lt s = s
    one (some (edge, good)) lt s = sym (same.roots edge.0 lt.0) ∙ s ∙ same.roots edge.1 lt.1
    one (some (edge, zero_ret)) lt s = tt
    one (some (edge, fail)) lt s = s

merge_samples-Idle :
    (query : List (Edge × SampleSketchRet)) (reps : List ℕ) (plan end : Plan)
    → IsForest plan.parent
    → SamplesBelow (length plan.parent) query reps
    → merge_samples query reps plan ≡ some end
    → end.modified ≡ false
    → SettledAll (root plan.parent) query reps × Idle plan end
unfolding merge_samples
merge_samples-Idle query [] plan end f below e idle =
    let kept = some-injective plan end e in
    (
      tt,
      record {
        before = ap (λ (t : Plan). t.modified) kept ∙ idle;
        forest = subst (λ (t : Plan). IsForest t.parent) kept f;
        same =
            subst (λ (t : Plan). SameRoots plan.parent t.parent) kept (SameRoots-refl plan.parent);
      },
    )
merge_samples-Idle query (i ∷ reps) plan end f below e idle =
    elim (Option-cases (get_elem? query i)) [
      | inl missing ↦ absurd (some≢none (sym e ∙ rw (missing, merge_samples) refl))
      | inr ((edge, ret_code), read) ↦ elim (Option-cases (merge_sample i edge ret_code plan)) [
        | inl failed ↦ absurd (some≢none (sym e ∙ rw (read, merge_samples) (rw failed refl)))
        | inr (mid, merged) ↦
            let rest =
              sym (merge_samples-cons query i reps edge ret_code plan mid read merged) ∙ e in
            let (settled, step) =
              merge_sample-Idle i edge ret_code plan mid f (rw read at below.0) merged
                (merge_samples-before query reps mid end rest idle) in
            let (later, steps) =
              merge_samples-Idle query reps mid end step.forest
                (subst (λ n. SamplesBelow n query reps) (sym step.same.size) below.1) rest idle in
            (
              (
                subst (Settled (root plan.parent)) (sym read) settled,
                SettledAll-SameRoots plan.parent mid.parent query reps step.same below.1 later,
              ),
              record {
                before = step.before;
                forest = steps.forest;
                same = SameRoots-trans plan.parent mid.parent end.parent step.same steps.same;
              },
            )
      ]
    ]

supernodes_to_merge-merge_samples :
    (query : List (Edge × SampleSketchRet)) (reps : List ℕ) (n : ℕ) (old size : List ℕ)
    (modified : Bool) (end : Plan)
    → merge_samples query reps (record {
      parent = old;
      size = size;
      modified = modified;
      new_reps = [];
      to_merge = replicate n [];
    })
      ≡ some end
    → supernodes_to_merge n query reps old size modified
      ≡ some (record end {
        new_reps = unmerged end.to_merge end.new_reps ++ merged_from end.to_merge n 0;
      })
unfolding supernodes_to_merge
supernodes_to_merge-merge_samples query reps n old size modified end ran =
    rw (ran, supernodes_to_merge) refl

-- From a forest, a plan that modifies nothing has the same roots, and every sample that it was made
-- from was ZERO or an edge between nodes of one root: none failed.
pub supernodes_to_merge-SettledAll :
    (query : List (Edge × SampleSketchRet)) (reps old size : List ℕ) (modified : Bool) (plan : Plan)
    → IsForest old
    → InRange (length old) (edges_of query reps)
    → supernodes_to_merge (length old) query reps old size modified ≡ some plan
    → plan.modified ≡ false
    → SettledAll (root old) query reps × SameRoots old plan.parent
supernodes_to_merge-SettledAll query reps old size modified plan f below e idle =
    let (end, ran) = merge_samples-returned query reps old size modified plan e in
    let below' = merge_samples-SamplesBelow (length old) query reps _ end ran below in
    let kept = some-injective _ plan (
      sym (supernodes_to_merge-merge_samples query reps (length old) old size modified end ran)
      ∙ e) in
    let (settled, idle_plan) =
      merge_samples-Idle query reps _ end f below' ran
        (ap (λ (t : Plan). t.modified) kept ∙ idle) in
    (settled, subst (λ (t : Plan). SameRoots old t.parent) kept idle_plan.same)
