-- ===== src/Graph/Plan/Idle.antt =====
-- A sample that leaves `modified` false in `Graph::supernodes_to_merge` (src/graph.cpp).
use hyper_graph_streaming_cc.Prelude.{
  ℕ, ◌<◌, ◌≡◌, ◌≢◌, refl, ap, ◌∙◌, sym, subst, List, [], ◌∷◌, length, Option, some, none, true,
  false, get_elem?, arith, if◌then◌else◌, Option-cases, Bool-cases, some≢none, inl, inr, ◌==◌,
  ==_iff,
}
use mathlib.Core.Option.{some-injective}
use hyper_graph_streaming_cc.Forest.{root}
use hyper_graph_streaming_cc.Forest.Root.{IsForest}
use hyper_graph_streaming_cc.Forest.Writes.{SameRoots}
use hyper_graph_streaming_cc.Forest.Find.{SameRoots-refl, SameRoots-trans}
use hyper_graph_streaming_cc.Sketch.Defs.{SampleSketchRet, good, zero_ret, fail}
use hyper_graph_streaming_cc.Supernode.Defs.{Edge}
use hyper_graph_streaming_cc.Graph.Plan.{
  Plan, get_parent, join, join_edge, merge_sample, merge_samples,
}
use hyper_graph_streaming_cc.Graph.Plan.Edges.{join_edge-found, get_parent-found}
use hyper_graph_streaming_cc.Graph.Plan.Samples.{SampleBelow, merge_samples-cons}

-- The sample was ZERO, or an edge inside a set.
abbrev pub Settled : (ℕ → ℕ) → Option (Edge × SampleSketchRet) → Type 0
Settled label none = ⊥
Settled label (some (edge, good)) = label edge.0 ≡ label edge.1
Settled label (some (edge, zero_ret)) = Unit
Settled label (some (edge, fail)) = ⊥

abbrev pub SettledAll : (ℕ → ℕ) → List (Edge × SampleSketchRet) → List ℕ → Type 0
SettledAll label query [] = Unit
SettledAll label query (i ∷ reps) = Settled label (get_elem? query i) × SettledAll label query reps

-- A plan that was not modified, and the sets before.
pub record Idle (plan plan' : Plan) : Type 0 where
  pub before : plan.modified ≡ false
  pub forest : IsForest plan'.parent
  pub same : SameRoots plan.parent plan'.parent

true≢false : true ≢ false
true≢false e = cc

join-modified : (a b : ℕ) (plan : Plan) → (join a b plan).modified ≡ true
unfolding join
join-modified a b plan = refl

join_edge-Idle :
    (edge : Edge) (plan plan' : Plan)
    → IsForest plan.parent
    → edge.0 < length plan.parent
    → edge.1 < length plan.parent
    → join_edge edge plan ≡ some plan'
    → plan'.modified ≡ false
    → (root plan.parent edge.0 ≡ root plan.parent edge.1) × Idle plan plan'
join_edge-Idle edge plan plan' f u-lt v-lt e idle =
    let (ps, found_u, fu, same_u) = get_parent-found plan.parent edge.0 f u-lt in
    let (qs, found_v, fv, same_v) = get_parent-found ps edge.1 fu (omega (arith, same_u.size)) in
    let a = root plan.parent edge.0 in
    let b = root ps edge.1 in
    let both = SameRoots-trans plan.parent ps qs same_u same_v in
    let result : (if a == b
          then record plan { parent = qs }
          else join a b (record plan { parent = qs }))
        ≡ plan' =
      some-injective _ plan' (sym (join_edge-found edge plan a b ps qs found_u found_v) ∙ e) in
    elim (Bool-cases (a == b)) [
      | inr other ↦ absurd (
          true≢false (
            sym (join-modified a b (record plan { parent = qs }))
            ∙ ap (λ (t : Plan). t.modified) (rw other at result)
            ∙ idle))
      | inl one ↦
          let kept : record plan { parent = qs } ≡ plan' = rw one at result in
          (
            (==_iff a b).0 one ∙ same_u.roots edge.1 v-lt,
            record {
              before = ap (λ (t : Plan). t.modified) kept ∙ idle;
              forest = subst (λ (t : Plan). IsForest t.parent) kept fv;
              same = subst (λ (t : Plan). SameRoots plan.parent t.parent) kept both;
            },
          )
    ]

pub merge_sample-Idle :
    (i : ℕ) (edge : Edge) (ret_code : SampleSketchRet) (plan plan' : Plan)
    → IsForest plan.parent
    → SampleBelow (length plan.parent) (some (edge, ret_code))
    → merge_sample i edge ret_code plan ≡ some plan'
    → plan'.modified ≡ false
    → Settled (root plan.parent) (some (edge, ret_code)) × Idle plan plan'
unfolding merge_sample
merge_sample-Idle i edge good plan plan' f below e idle =
    join_edge-Idle edge plan plan' f below.0 below.1 e idle
merge_sample-Idle i edge zero_ret plan plan' f below e idle =
    let kept = some-injective plan plan' e in
    (
      tt,
      record {
        before = ap (λ (t : Plan). t.modified) kept ∙ idle;
        forest = subst (λ (t : Plan). IsForest t.parent) kept f;
        same =
            subst (λ (t : Plan). SameRoots plan.parent t.parent) kept (SameRoots-refl plan.parent);
      },
    )
merge_sample-Idle i edge fail plan plan' f below e idle =
    absurd (true≢false (ap (λ (t : Plan). t.modified) (some-injective _ plan' e) ∙ idle))

join_edge-before :
    (edge : Edge) (plan plan' : Plan)
    → join_edge edge plan ≡ some plan'
    → plan'.modified ≡ false
    → plan.modified ≡ false
unfolding join_edge join
join_edge-before edge plan plan' e idle = elim (Option-cases (get_parent plan.parent edge.0)) [
  | inl missing ↦ absurd (some≢none (sym e ∙ rw (missing, join_edge) refl))
  | inr ((a, ps), found) ↦ elim (Option-cases (get_parent ps edge.1)) [
    | inl missing ↦ absurd (some≢none (sym e ∙ rw (found, join_edge) (rw missing refl)))
    | inr ((b, qs), found') ↦
        let result =
          some-injective _ plan' (sym (join_edge-found edge plan a b ps qs found found') ∙ e) in
        elim (Bool-cases (a == b)) [
          | inl one ↦ ap (λ (t : Plan). t.modified) (rw one at result) ∙ idle
          | inr other ↦
              absurd (true≢false (ap (λ (t : Plan). t.modified) (rw other at result) ∙ idle))
        ]
  ]
]

merge_sample-before :
    (i : ℕ) (edge : Edge) (ret_code : SampleSketchRet) (plan plan' : Plan)
    → merge_sample i edge ret_code plan ≡ some plan'
    → plan'.modified ≡ false
    → plan.modified ≡ false
unfolding merge_sample
merge_sample-before i edge good plan plan' e idle = join_edge-before edge plan plan' e idle
merge_sample-before i edge zero_ret plan plan' e idle =
    ap (λ (t : Plan). t.modified) (some-injective plan plan' e) ∙ idle
merge_sample-before i edge fail plan plan' e idle =
    absurd (true≢false (ap (λ (t : Plan). t.modified) (some-injective _ plan' e) ∙ idle))

pub merge_samples-before :
    (query : List (Edge × SampleSketchRet)) (reps : List ℕ) (plan end : Plan)
    → merge_samples query reps plan ≡ some end
    → end.modified ≡ false
    → plan.modified ≡ false
unfolding merge_samples
merge_samples-before query [] plan end e idle =
    ap (λ (t : Plan). t.modified) (some-injective plan end e) ∙ idle
merge_samples-before query (i ∷ reps) plan end e idle = elim (Option-cases (get_elem? query i)) [
  | inl missing ↦ absurd (some≢none (sym e ∙ rw (missing, merge_samples) refl))
  | inr ((edge, ret_code), read) ↦ elim (Option-cases (merge_sample i edge ret_code plan)) [
    | inl failed ↦ absurd (some≢none (sym e ∙ rw (read, merge_samples) (rw failed refl)))
    | inr (mid, merged) ↦ merge_sample-before i edge ret_code plan mid merged (
        merge_samples-before query reps mid end
          (sym (merge_samples-cons query i reps edge ret_code plan mid read merged) ∙ e) idle)
  ]
]
