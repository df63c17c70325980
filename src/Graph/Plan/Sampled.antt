-- ===== src/Graph/Plan/Sampled.antt =====
-- The edges that a run of the loop of `Graph::boruvka_emulation` (src/graph.cpp) samples, and the
-- forest that the run makes of them.
use hyper_graph_streaming_cc.Prelude.{
  replicate, some≢none, ℕ, ◌<◌, ◌≡◌, refl, ap, ◌∙◌, sym, subst, List, [], ◌∷◌, ◌++◌, length, Option,
  none, some, Bool, get_elem?, Option-cases, inl, inr, arith,
}
use mathlib.Core.Option.{some-injective}
use hyper_graph_streaming_cc.Sketch.Defs.{SampleSketchRet, good, zero_ret, fail}
use hyper_graph_streaming_cc.Supernode.Defs.{Edge}
use hyper_graph_streaming_cc.Forest.{root}
use hyper_graph_streaming_cc.Forest.Root.{IsForest, root-lt}
use hyper_graph_streaming_cc.Graph.Update.Cut.{InRange}
use hyper_graph_streaming_cc.Graph.Plan.{Plan, supernodes_to_merge, merge_samples, merge_sample}
use hyper_graph_streaming_cc.Graph.Plan.Samples.{
  SampleBelow, SamplesBelow, Respects, RespectsAll, merge_samples-cons,
}
use hyper_graph_streaming_cc.Graph.Plan.Partition.{planned}

abbrev pub edge_of : Option (Edge × SampleSketchRet) → List Edge
edge_of none = []
edge_of (some (edge, good)) = edge ∷ []
edge_of (some (edge, zero_ret)) = []
edge_of (some (edge, fail)) = []

-- The edges that were sampled for the representatives.
unfoldable pub edges_of : List (Edge × SampleSketchRet) → List ℕ → List Edge
edges_of query [] = []
edges_of query (i ∷ reps) = edge_of (get_elem? query i) ++ edges_of query reps

-- The labelling gives the ends of every edge one label.
abbrev pub SameEnds : (ℕ → ℕ) → List Edge → Type 0
SameEnds label [] = Unit
SameEnds label (edge ∷ edges) = (label edge.0 ≡ label edge.1) × SameEnds label edges

pub InRange-append :
    (n : ℕ) (es es' : List Edge) → InRange n (es ++ es') → InRange n es × InRange n es'
InRange-append n [] es' h = (tt, h)
InRange-append n (edge ∷ es) es' h = let (a, b) = InRange-append n es es' h.1 in ((h.0, a), b)

pub SameEnds-append :
    (label : ℕ → ℕ) (es es' : List Edge)
    → SameEnds label (es ++ es')
    → SameEnds label es × SameEnds label es'
SameEnds-append label [] es' h = (tt, h)
SameEnds-append label (edge ∷ es) es' h =
    let (a, b) = SameEnds-append label es es' h.1 in ((h.0, a), b)

pub append-SameEnds :
    (label : ℕ → ℕ) (es es' : List Edge)
    → SameEnds label es
    → SameEnds label es'
    → SameEnds label (es ++ es')
append-SameEnds label [] es' h h' = h'
append-SameEnds label (edge ∷ es) es' h h' = (h.0, append-SameEnds label es es' h.1 h')

-- What is constant along the labels of the ends stays so for a coarser labelling.
SameEnds-over :
    (n : ℕ) (f g : ℕ → ℕ) (es : List Edge)
    → ((k : ℕ) → k < n → f (g k) ≡ f k)
    → InRange n es
    → SameEnds g es
    → SameEnds f es
SameEnds-over n f g [] over below h = tt
SameEnds-over n f g (edge ∷ es) over below h = (
  sym (over edge.0 below.0.0) ∙ ap f h.0 ∙ over edge.1 below.0.1,
  SameEnds-over n f g es over below.1 h.1,
)

SameEnds-RespectsAll :
    (label : ℕ → ℕ) (query : List (Edge × SampleSketchRet)) (reps : List ℕ)
    → SameEnds label (edges_of query reps)
    → RespectsAll label query reps
unfolding edges_of
SameEnds-RespectsAll label query [] h = tt
SameEnds-RespectsAll label query (i ∷ reps) h =
    let (now, later) = SameEnds-append label (edge_of (get_elem? query i)) _ h in
    (one (get_elem? query i) now, SameEnds-RespectsAll label query reps later)
  where
    one :
        (sample : Option (Edge × SampleSketchRet))
        → SameEnds label (edge_of sample)
        → Respects label sample
    one none h = tt
    one (some (edge, good)) h = h.0
    one (some (edge, zero_ret)) h = tt
    one (some (edge, fail)) h = tt

RespectsAll-SameEnds :
    (label : ℕ → ℕ) (query : List (Edge × SampleSketchRet)) (reps : List ℕ)
    → RespectsAll label query reps
    → SameEnds label (edges_of query reps)
unfolding edges_of
RespectsAll-SameEnds label query [] h = tt
RespectsAll-SameEnds label query (i ∷ reps) h =
    append-SameEnds label (edge_of (get_elem? query i)) _ (one (get_elem? query i) h.0)
      (RespectsAll-SameEnds label query reps h.1)
  where
    one :
        (sample : Option (Edge × SampleSketchRet))
        → Respects label sample
        → SameEnds label (edge_of sample)
    one none h = tt
    one (some (edge, good)) h = (h, tt)
    one (some (edge, zero_ret)) h = tt
    one (some (edge, fail)) h = tt

-- A loop over the representatives that returned has read a sample for each of them.
pub merge_samples-SamplesBelow :
    (n : ℕ) (query : List (Edge × SampleSketchRet)) (reps : List ℕ) (plan plan' : Plan)
    → merge_samples query reps plan ≡ some plan'
    → InRange n (edges_of query reps)
    → SamplesBelow n query reps
unfolding merge_samples edges_of
merge_samples-SamplesBelow n query [] plan plan' e below = tt
merge_samples-SamplesBelow n query (i ∷ reps) plan plan' e below =
    elim (Option-cases (get_elem? query i)) [
      | inl failed ↦ absurd (some≢none (sym e ∙ rw (failed, merge_samples) refl))
      | inr ((edge, ret_code), read) ↦ elim (Option-cases (merge_sample i edge ret_code plan)) [
        | inl failed ↦ absurd (some≢none (sym e ∙ rw (read, merge_samples) (rw failed refl)))
        | inr (mid, merged) ↦ (
          one (get_elem? query i) read (InRange-append n (edge_of (get_elem? query i)) _ below).0,
          merge_samples-SamplesBelow n query reps mid plan'
              (sym (merge_samples-cons query i reps edge ret_code plan mid read merged) ∙ e)
              (InRange-append n (edge_of (get_elem? query i)) _ below).1,
        )
      ]
    ]
  where
    one :
        {edge : Edge} {ret_code : SampleSketchRet}
        → (sample : Option (Edge × SampleSketchRet)) → sample ≡ some (edge, ret_code)
        → InRange n (edge_of sample)
        → SampleBelow n sample
    one none e h = absurd (some≢none (sym e))
    one (some (edge, good)) e h = h.0
    one (some (edge, zero_ret)) e h = tt
    one (some (edge, fail)) e h = tt

-- `new` is the forest `old` with the edges joined in, and nothing else.
pub record JoinsEdges (old : List ℕ) (edges : List Edge) (new : List ℕ) : Type 0 where
  pub forest : IsForest new
  pub size : length new ≡ length old
  pub over : (k : ℕ) → k < length old → root new (root old k) ≡ root new k
  pub joined : SameEnds (root new) edges
  pub least :
      (f : ℕ → ℕ)
      → ((k : ℕ) → k < length old → f (root old k) ≡ f k)
      → SameEnds f edges
      → (k : ℕ) → k < length old
      → f (root new k) ≡ f k

pub JoinsEdges-trans :
    (old mid new : List ℕ) (edges edges' : List Edge)
    → IsForest old
    → InRange (length old) edges
    → JoinsEdges old edges mid
    → JoinsEdges mid edges' new
    → JoinsEdges old (edges ++ edges') new
JoinsEdges-trans old mid new edges edges' forest below h h' = record {
  forest = h'.forest;
  size = h'.size ∙ h.size;
  over = λ k lt.
      sym (h'.over (root old k) (omega (arith, root-lt old forest k lt, h.size)))
      ∙ ap (root new) (h.over k lt)
      ∙ h'.over k (omega (arith, h.size));
  joined =
      append-SameEnds (root new) edges edges'
        (SameEnds-over (length old) (root new) (root mid) edges
          (λ k lt. h'.over k (omega (arith, h.size))) below h.joined)
        h'.joined;
  least = λ f const same k lt.
      let (now, later) = SameEnds-append f edges edges' same in
      h'.least f (λ j lt'. h.least f const now j (omega (arith, h.size))) later k
        (omega (arith, h.size));
}

pub merge_samples-returned :
    (query : List (Edge × SampleSketchRet)) (reps old size : List ℕ) (modified : Bool) (plan : Plan)
    → supernodes_to_merge (length old) query reps old size modified ≡ some plan
    → (end : Plan) × (merge_samples query reps (record {
      parent = old;
      size = size;
      modified = modified;
      new_reps = [];
      to_merge = replicate (length old) [];
    })
        ≡ some end)
unfolding supernodes_to_merge
merge_samples-returned query reps old size modified plan e =
    elim (Option-cases (
      merge_samples query reps (record {
        parent = old;
        size = size;
        modified = modified;
        new_reps = [];
        to_merge = replicate (length old) [];
      }))) [
        | inl failed ↦ absurd (some≢none (sym e ∙ rw (failed, supernodes_to_merge) refl))
        | inr (end, e') ↦ (end, e')
      ]

-- What the function that plans a round does with the edges that were sampled.
pub supernodes_to_merge-JoinsEdges :
    (query : List (Edge × SampleSketchRet)) (reps old size : List ℕ) (modified : Bool) (plan : Plan)
    → IsForest old
    → supernodes_to_merge (length old) query reps old size modified ≡ some plan
    → InRange (length old) (edges_of query reps)
    → JoinsEdges old (edges_of query reps) plan.parent
supernodes_to_merge-JoinsEdges query reps old size modified plan forest e below =
    let samples =
      merge_samples-SamplesBelow (length old) query reps _ _
        (merge_samples-returned query reps old size modified plan e).1 below in
    let (plan', e', f, n, r, least, _, over, _) =
      planned query reps old size modified forest samples in
    subst (λ (t : Plan). JoinsEdges old (edges_of query reps) t.parent)
      (some-injective plan' plan (sym e' ∙ e))
      (record {
        forest = f;
        size = n;
        over = over;
        joined = RespectsAll-SameEnds (root plan'.parent) query reps r;
        least = λ g const same. least g const (SameEnds-RespectsAll g query reps same);
      })
