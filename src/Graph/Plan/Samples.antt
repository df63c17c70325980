-- ===== src/Graph/Plan/Samples.antt =====
-- What one sample does to the variables of `supernodes_to_merge`.
use hyper_graph_streaming_cc.Prelude.{
  ℕ, ◌<◌, ◌≡◌, refl, ◌∙◌, sym, List, [], ◌∷◌, ◌++◌, arith, length, Option, none, some, Bool, true,
  false, get_elem?, if◌then◌else◌,
}
use mathlib.Core.List.{append-nil}
use hyper_graph_streaming_cc.Forest.{root}
use hyper_graph_streaming_cc.Forest.Root.{root-lt, root_of_root, parent_of-root}
use hyper_graph_streaming_cc.Sketch.Defs.{SampleSketchRet, good, zero_ret, fail}
use hyper_graph_streaming_cc.Supernode.Defs.{Edge}
use hyper_graph_streaming_cc.Graph.Plan.{Plan, merge_sample, merge_samples}
use hyper_graph_streaming_cc.Graph.Plan.Step.{Tracks}
use hyper_graph_streaming_cc.Graph.Plan.Edges.{join_edge_lem}

-- A sample that was taken, with endpoints among the `n` vertices if it is an edge.
abbrev pub SampleBelow : ℕ → Option (Edge × SampleSketchRet) → Type 0
SampleBelow n none = ⊥
SampleBelow n (some (edge, good)) = (edge.0 < n) × (edge.1 < n)
SampleBelow n (some (edge, zero_ret)) = Unit
SampleBelow n (some (edge, fail)) = Unit

abbrev pub SamplesBelow : ℕ → List (Edge × SampleSketchRet) → List ℕ → Type 0
SamplesBelow n query [] = Unit
SamplesBelow n query (i ∷ reps) = SampleBelow n (get_elem? query i) × SamplesBelow n query reps

-- The labelling gives both ends of a sampled edge one label.
abbrev pub Respects : (ℕ → ℕ) → Option (Edge × SampleSketchRet) → Type 0
Respects f none = Unit
Respects f (some (edge, good)) = f edge.0 ≡ f edge.1
Respects f (some (edge, zero_ret)) = Unit
Respects f (some (edge, fail)) = Unit

abbrev pub RespectsAll : (ℕ → ℕ) → List (Edge × SampleSketchRet) → List ℕ → Type 0
RespectsAll f query [] = Unit
RespectsAll f query (i ∷ reps) = Respects f (get_elem? query i) × RespectsAll f query reps

abbrev pub failed? : Option (Edge × SampleSketchRet) → Bool
failed? none = false
failed? (some (edge, good)) = false
failed? (some (edge, zero_ret)) = false
failed? (some (edge, fail)) = true

-- The representatives whose sample failed.
unfoldable pub failing : List (Edge × SampleSketchRet) → List ℕ → List ℕ
failing query [] = []
failing query (i ∷ reps) =
    let rest = failing query reps in if failed? (get_elem? query i) then i ∷ rest else rest

pub root_twice :
    (old : List ℕ) (plan : Plan)
    → Tracks old plan
    → (k : ℕ) → k < length old
    → root plan.parent (root plan.parent k) ≡ root plan.parent k
root_twice old plan h k lt =
    let lt' : k < length plan.parent = omega (arith, h.nodes) in
    root_of_root plan.parent h.forest (root plan.parent k) (root-lt plan.parent h.forest k lt')
      (parent_of-root plan.parent h.forest k lt')

pub merge_samples-cons :
    (query : List (Edge × SampleSketchRet)) (i : ℕ) (reps : List ℕ) (edge : Edge)
    (ret_code : SampleSketchRet) (plan plan' : Plan)
    → get_elem? query i ≡ some (edge, ret_code)
    → merge_sample i edge ret_code plan ≡ some plan'
    → merge_samples query (i ∷ reps) plan ≡ merge_samples query reps plan'
unfolding merge_samples
merge_samples-cons query i reps edge ret_code plan plan' e e' = rw (e, merge_samples) (rw e' refl)

-- Each sample is one step of the forest.
pub record JoinsSample (old : List ℕ) (i : ℕ) (sample : Option (Edge × SampleSketchRet))
    (plan plan' : Plan) : Type 0 where
  pub tracks : Tracks old plan'
  pub waiting_reps : plan'.new_reps ≡ plan.new_reps ++ (if failed? sample then i ∷ [] else [])
  pub over : (k : ℕ) → k < length old → root plan'.parent (root plan.parent k) ≡ root plan'.parent k
  pub ends : Respects (root plan'.parent) sample
  pub least :
      (f : ℕ → ℕ)
      → ((k : ℕ) → k < length old → f (root plan.parent k) ≡ f k)
      → Respects f sample
      → (k : ℕ) → k < length old
      → f (root plan'.parent k) ≡ f k

pub merge_sample_lem :
    (old : List ℕ) (i : ℕ) (edge : Edge) (ret_code : SampleSketchRet) (plan : Plan)
    → Tracks old plan
    → SampleBelow (length old) (some (edge, ret_code))
    → (plan' : Plan) × (merge_sample i edge ret_code plan ≡ some plan')
      × JoinsSample old i (some (edge, ret_code)) plan plan'
unfolding merge_sample
merge_sample_lem old i edge good plan h below =
    let (plan', e, j) = join_edge_lem old edge plan h below.0 below.1 in
    (
      plan',
      e,
      record {
        tracks = j.tracks;
        waiting_reps = j.same_reps ∙ sym (append-nil plan.new_reps);
        over = j.over;
        ends = j.ends;
        least = j.least;
      },
    )
merge_sample_lem old i edge zero_ret plan h below = (
  plan,
  refl,
  record {
    tracks = h;
    waiting_reps = sym (append-nil plan.new_reps);
    over = root_twice old plan h;
    ends = tt;
    least = λ f const same k lt. const k lt;
  },
)
merge_sample_lem old i edge fail plan h below = (
  record plan { modified = true; new_reps = plan.new_reps ++ i ∷ [] },
  refl,
  record {
    tracks = record {
      start = h.start;
      forest = h.forest;
      nodes = h.nodes;
      slots = h.slots;
      coarser = h.coarser;
      old_roots = h.old_roots;
      waiting = h.waiting;
    };
    waiting_reps = refl;
    over = root_twice old plan h;
    ends = tt;
    least = λ f const same k lt. const k lt;
  },
)
