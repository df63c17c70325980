-- ===== src/Graph/Plan/Partition.antt =====
-- What `supernodes_to_merge` decides: the new sets, and the lists of supernodes to merge.
use hyper_graph_streaming_cc.Prelude.{
  ℕ, ◌<◌, ◌≡◌, refl, ap, ◌∙◌, sym, subst, List, [], ◌∷◌, ◌++◌, arith, length, length-replicate,
  Option, none, some, Bool, get_elem?, get_or-replicate, replicate, if◌then◌else◌, Bool-cases, inl,
  inr,
}
use mathlib.Core.List.{append-nil, append_assoc}
use mathlib.Core.Option.{some-injective}
use hyper_graph_streaming_cc.Arrays.Cells.{count}
use hyper_graph_streaming_cc.Forest.{root}
use hyper_graph_streaming_cc.Forest.Root.{IsForest, root-lt, root_of_root, parent_of-root}
use hyper_graph_streaming_cc.Sketch.Defs.{SampleSketchRet, good, zero_ret, fail}
use hyper_graph_streaming_cc.Supernode.Defs.{Edge}
use hyper_graph_streaming_cc.Graph.Plan.{
  Plan, nodes_of, merge_samples, supernodes_to_merge, unmerged, merged_from,
}
use hyper_graph_streaming_cc.Graph.Plan.Step.{Tracks, merges}
use hyper_graph_streaming_cc.Graph.Plan.Samples.{
  SampleBelow, SamplesBelow, Respects, RespectsAll, failed?, failing, root_twice,
  merge_samples-cons, merge_sample_lem,
}

-- The forest of `plan'` is that of `plan` with the sampled edges joined in, and nothing else.
pub record JoinsAll (old : List ℕ) (query : List (Edge × SampleSketchRet)) (reps : List ℕ)
    (plan plan' : Plan) : Type 0 where
  pub tracks : Tracks old plan'
  pub waiting_reps : plan'.new_reps ≡ plan.new_reps ++ failing query reps
  pub over : (k : ℕ) → k < length old → root plan'.parent (root plan.parent k) ≡ root plan'.parent k
  pub sampled : RespectsAll (root plan'.parent) query reps
  pub least :
      (f : ℕ → ℕ)
      → ((k : ℕ) → k < length old → f (root plan.parent k) ≡ f k)
      → RespectsAll f query reps
      → (k : ℕ) → k < length old
      → f (root plan'.parent k) ≡ f k

-- An edge that was joined once stays joined.
Respects-later :
    (old : List ℕ) (i : ℕ) (sample : Option (Edge × SampleSketchRet)) (plan plan' : Plan)
    → SampleBelow (length old) sample
    → ((k : ℕ) → k < length old → root plan'.parent (root plan.parent k) ≡ root plan'.parent k)
    → Respects (root plan.parent) sample
    → Respects (root plan'.parent) sample
Respects-later old i none plan plan' below over r = tt
Respects-later old i (some (edge, good)) plan plan' below over r =
    sym (over edge.0 below.0) ∙ ap (root plan'.parent) r ∙ over edge.1 below.1
Respects-later old i (some (edge, zero_ret)) plan plan' below over r = tt
Respects-later old i (some (edge, fail)) plan plan' below over r = tt

failing-cons :
    (query : List (Edge × SampleSketchRet)) (i : ℕ) (reps : List ℕ)
    → failing query (i ∷ reps)
      ≡ (if failed? (get_elem? query i) then i ∷ [] else []) ++ failing query reps
unfolding failing
failing-cons query i reps = elim (Bool-cases (failed? (get_elem? query i))) [
  | inl e ↦ rw e refl
  | inr e ↦ rw e refl
]

root-below :
    (old : List ℕ) (plan : Plan)
    → Tracks old plan
    → (k : ℕ) → k < length old
    → root plan.parent k < length old
root-below old plan h k lt =
    omega (arith, root-lt plan.parent h.forest k (omega (arith, h.nodes)), h.nodes)

-- The result of the loop over `reps`.
abbrev Looped : List ℕ → List (Edge × SampleSketchRet) → List ℕ → Plan → Type 0
Looped old query reps plan =
    (plan' : Plan) × (merge_samples query reps plan ≡ some plan')
    × JoinsAll old query reps plan plan'

Looped-cons :
    (old : List ℕ) (query : List (Edge × SampleSketchRet)) (i : ℕ) (reps : List ℕ) (plan : Plan)
    → Tracks old plan
    → ((mid : Plan) → Tracks old mid → Looped old query reps mid)
    → (sample : Option (Edge × SampleSketchRet)) → get_elem? query i ≡ sample
    → SampleBelow (length old) sample
    → Looped old query (i ∷ reps) plan
Looped-cons old query i reps plan h rest none e bad = absurd bad
Looped-cons old query i reps plan h rest (some (edge, ret_code)) e fine =
    let (mid, e1, j) = merge_sample_lem old i edge ret_code plan h fine in
    let (end, e2, js) = rest mid j.tracks in
    let later = Respects-later old i (some (edge, ret_code)) mid end fine js.over j.ends in
    let head = if failed? (some (edge, ret_code)) then i ∷ [] else [] in
    (
      end,
      merge_samples-cons query i reps edge ret_code plan mid e e1 ∙ e2,
      record {
        tracks = js.tracks;
        waiting_reps =
            js.waiting_reps
            ∙ ap (λ xs. xs ++ failing query reps) j.waiting_reps
            ∙ append_assoc plan.new_reps head (failing query reps)
            ∙ ap (λ xs. plan.new_reps ++ xs)
                (sym (
                  failing-cons query i reps
                  ∙ ap (λ r. (if failed? r then i ∷ [] else []) ++ failing query reps) e));
        over = λ k lt.
            sym (js.over (root plan.parent k) (root-below old plan h k lt))
            ∙ ap (root end.parent) (j.over k lt)
            ∙ js.over k lt;
        sampled = (subst (Respects (root end.parent)) (sym e) later, js.sampled);
        least = λ f const same. js.least f (j.least f const (subst (Respects f) e same.0)) same.1;
      },
    )

merge_samples_lem :
    (old : List ℕ) (query : List (Edge × SampleSketchRet)) (reps : List ℕ) (plan : Plan)
    → Tracks old plan
    → SamplesBelow (length old) query reps
    → Looped old query reps plan
unfolding merge_samples failing
merge_samples_lem old query [] plan h below = (
  plan,
  refl,
  record {
    tracks = h;
    waiting_reps = sym (append-nil plan.new_reps);
    over = root_twice old plan h;
    sampled = tt;
    least = λ f const same k lt. const k lt;
  },
)
merge_samples_lem old query (i ∷ reps) plan h below =
    Looped-cons old query i reps plan h (λ mid t. merge_samples_lem old query reps mid t below.1)
      (get_elem? query i) refl below.0

start-Tracks :
    (old size : List ℕ) (modified : Bool)
    → IsForest old
    → Tracks old (record {
      parent = old;
      size = size;
      modified = modified;
      new_reps = [];
      to_merge = replicate (length old) [];
    })
unfolding count
start-Tracks old size modified forest = record {
  start = forest;
  forest = forest;
  nodes = refl;
  slots = length-replicate (length old) [];
  coarser = λ k lt.
      root_of_root old forest (root old k) (root-lt old forest k lt)
        (parent_of-root old forest k lt);
  old_roots = λ k lt e. e;
  waiting = λ a x lt. ap (count x) (get_or-replicate (length old) a []) ∙ ground arith;
}

-- The result of the whole function.
abbrev pub Planned : List (Edge × SampleSketchRet) → List ℕ → List ℕ → List ℕ → Bool → Type 0
Planned query reps old size modified =
    (plan : Plan) × (supernodes_to_merge (length old) query reps old size modified ≡ some plan)
    × IsForest plan.parent
    × (length plan.parent ≡ length old)
    × RespectsAll (root plan.parent) query reps
    × ((f : ℕ → ℕ)
        → ((k : ℕ) → k < length old → f (root old k) ≡ f k)
        → RespectsAll f query reps
        → (k : ℕ) → k < length old
        → f (root plan.parent k) ≡ f k)
    × ((a x : ℕ) → a < length old → count x (nodes_of plan.to_merge a) ≡ merges old plan.parent a x)
    × ((k : ℕ) → k < length old → root plan.parent (root old k) ≡ root plan.parent k)
    × (plan.new_reps
        ≡ unmerged plan.to_merge (failing query reps) ++ merged_from plan.to_merge (length old) 0)

pub planned :
    (query : List (Edge × SampleSketchRet)) (reps old size : List ℕ) (modified : Bool)
    → IsForest old
    → SamplesBelow (length old) query reps
    → Planned query reps old size modified
unfolding supernodes_to_merge
planned query reps old size modified forest below =
    let (plan, e, j) =
      merge_samples_lem old query reps
        (record {
          parent = old;
          size = size;
          modified = modified;
          new_reps = [];
          to_merge = replicate (length old) [];
        })
        (start-Tracks old size modified forest) below in
    (
      record plan {
        new_reps = unmerged plan.to_merge plan.new_reps ++ merged_from plan.to_merge (length old) 0;
      },
      rw (e, supernodes_to_merge) refl,
      j.tracks.forest,
      j.tracks.nodes,
      j.sampled,
      j.least,
      j.tracks.waiting,
      j.over,
      ap (λ xs. unmerged plan.to_merge xs ++ merged_from plan.to_merge (length old) 0)
          j.waiting_reps,
    )

module _ (query : List (Edge × SampleSketchRet)) (reps old size : List ℕ) (modified : Bool)
    (forest : IsForest old) (below : SamplesBelow (length old) query reps) where
  -- From a forest of all vertices and samples of its vertices, the function returns a forest of as
  -- many vertices, where the ends of every sampled edge have one root.
  pub supernodes_to_merge_joins :
      (plan : Plan) × (supernodes_to_merge (length old) query reps old size modified ≡ some plan)
      × IsForest plan.parent
      × (length plan.parent ≡ length old)
      × RespectsAll (root plan.parent) query reps
  supernodes_to_merge_joins =
      let (plan, e, f, n, r, _, _, _, _) = planned query reps old size modified forest below in
      (plan, e, f, n, r)

  module _ (plan : Plan)
      (e : supernodes_to_merge (length old) query reps old size modified ≡ some plan) where
    -- From a forest of all vertices, samples of its vertices and the plan that the function
    -- returns for them: a labelling of the vertices that is constant along the old roots and on
    -- the sampled edges is constant along the new roots, so nothing else is joined.
    pub supernodes_to_merge_least :
        (f : ℕ → ℕ)
        → ((k : ℕ) → k < length old → f (root old k) ≡ f k)
        → RespectsAll f query reps
        → (k : ℕ) → k < length old
        → f (root plan.parent k) ≡ f k
    supernodes_to_merge_least f const same k lt =
        let (plan', e', _, _, _, least, _, _, _) =
          planned query reps old size modified forest below in
        subst (λ t. f (root t.parent k) ≡ f k) (some-injective plan' plan (sym e' ∙ e))
          (least f const same k lt)

    -- From a forest of all vertices, samples of its vertices and the plan that the function
    -- returns for them: for a vertex `a`, `to_merge[a]` has `x` once if `x` was a root, is not
    -- `a`, and has root `a` now, and otherwise not at all.
    pub supernodes_to_merge_lists :
        (a x : ℕ) → a < length old → count x (nodes_of plan.to_merge a) ≡ merges old plan.parent a x
    supernodes_to_merge_lists a x lt =
        let (plan', e', _, _, _, _, lists, _, _) =
          planned query reps old size modified forest below in
        subst (λ t. count x (nodes_of t.to_merge a) ≡ merges old t.parent a x)
          (some-injective plan' plan (sym e' ∙ e)) (lists a x lt)
