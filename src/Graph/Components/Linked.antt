-- ===== src/Graph/Components/Linked.antt =====
-- Vertices that a list of edges connects, as the specification of what a query for the connected
-- components (`Graph::connected_components` of src/graph.cpp) returns.
use hyper_graph_streaming_cc.Prelude.{
  ℕ, ◌≡◌, refl, ap, ◌∙◌, sym, subst, true, false, List, [], ◌∷◌, ◌==◌, ==_iff, Bool-cases, inl, inr,
  if◌then◌else◌, arith,
}
use mathlib.Core.List.{Memᴰ}
use hyper_graph_streaming_cc.Supernode.Defs.{Edge}
use hyper_graph_streaming_cc.Graph.Plan.Sampled.{SameEnds}

-- A path along the edges, in either direction.
pub data Linked (edges : List Edge) : ℕ → ℕ → Type 0 where
  stay : (i : ℕ) → Linked edges i i
  along : (edge : Edge) → Memᴰ edge edges → Linked edges edge.0 edge.1
  back : {i j : ℕ} → Linked edges i j → Linked edges j i
  then_along : {i j k : ℕ} → Linked edges i j → Linked edges j k → Linked edges i k

SameEnds-Memᴰ :
    (label : ℕ → ℕ) (edges : List Edge)
    → SameEnds label edges
    → (edge : Edge) → Memᴰ edge edges
    → label edge.0 ≡ label edge.1
SameEnds-Memᴰ label [] h edge m = elim m [ ]
SameEnds-Memᴰ label (edge' ∷ edges) h edge (Memᴰ.head e) =
    ap (λ (x : Edge). label x.0) e ∙ h.0 ∙ sym (ap (λ (x : Edge). label x.1) e)
SameEnds-Memᴰ label (edge' ∷ edges) h edge (Memᴰ.tail m) = SameEnds-Memᴰ label edges h.1 edge m

-- A labelling with one label for the ends of each edge has one label along a path.
pub Linked-SameEnds :
    (label : ℕ → ℕ) (edges : List Edge)
    → SameEnds label edges
    → {i j : ℕ} → Linked edges i j
    → label i ≡ label j
Linked-SameEnds label edges h (stay i) = refl
Linked-SameEnds label edges h (along edge m) = SameEnds-Memᴰ label edges h edge m
Linked-SameEnds label edges h (back l) = sym (Linked-SameEnds label edges h l)
Linked-SameEnds label edges h (then_along l l') =
    Linked-SameEnds label edges h l ∙ Linked-SameEnds label edges h l'

-- The labels of a graph without fast searches: an edge gives the label of its first end to all that
-- have the label of its second.
unfoldable pub relabel : Edge → (ℕ → ℕ) → ℕ → ℕ
relabel edge label i = if label i == label edge.1 then label edge.0 else label i

unfoldable pub labels : List Edge → ℕ → ℕ
labels [] i = i
labels (edge ∷ edges) i = relabel edge (labels edges) i

relabel-same :
    (edge edge' : Edge) (label : ℕ → ℕ)
    → label edge'.0 ≡ label edge'.1
    → relabel edge label edge'.0 ≡ relabel edge label edge'.1
unfolding relabel
relabel-same edge edge' label e = ap (λ x. if x == label edge.1 then label edge.0 else x) e

relabel-SameEnds :
    (edge : Edge) (label : ℕ → ℕ) (edges : List Edge)
    → SameEnds label edges
    → SameEnds (relabel edge label) edges
relabel-SameEnds edge label [] h = tt
relabel-SameEnds edge label (edge' ∷ edges) h =
    (relabel-same edge edge' label h.0, relabel-SameEnds edge label edges h.1)

relabel-ends : (edge : Edge) (label : ℕ → ℕ) → relabel edge label edge.0 ≡ relabel edge label edge.1
unfolding relabel
relabel-ends edge label = ground arith

pub labels-SameEnds : (edges : List Edge) → SameEnds (labels edges) edges
unfolding labels
labels-SameEnds [] = tt
labels-SameEnds (edge ∷ edges) = (
  relabel-ends edge (labels edges),
  relabel-SameEnds edge (labels edges) edges (labels-SameEnds edges),
)

Linked-cons :
    (edge : Edge) (edges : List Edge) {i j : ℕ} → Linked edges i j → Linked (edge ∷ edges) i j
Linked-cons edge edges (stay i) = stay i
Linked-cons edge edges (along edge' m) = along edge' (Memᴰ.tail m)
Linked-cons edge edges (back l) = back (Linked-cons edge edges l)
Linked-cons edge edges (then_along l l') =
    then_along (Linked-cons edge edges l) (Linked-cons edge edges l')

relabel-met :
    (edge : Edge) (label : ℕ → ℕ) (i : ℕ)
    → (label i == label edge.1) ≡ true
    → relabel edge label i ≡ label edge.0
unfolding relabel
relabel-met edge label i e = rw e refl

relabel-kept :
    (edge : Edge) (label : ℕ → ℕ) (i : ℕ)
    → (label i == label edge.1) ≡ false
    → relabel edge label i ≡ label i
unfolding relabel
relabel-kept edge label i e = rw e refl

-- What has one label is connected.
pub labels-Linked :
    (edges : List Edge) (i j : ℕ) → labels edges i ≡ labels edges j → Linked edges i j
unfolding labels
labels-Linked [] i j e = subst (Linked [] i) e (stay i)
labels-Linked (edge ∷ edges) i j e =
    let older = λ (a b : ℕ) (e' : labels edges a ≡ labels edges b).
      Linked-cons edge edges (labels-Linked edges a b e') in
    let crossed : Linked (edge ∷ edges) edge.0 edge.1 = along edge (Memᴰ.head refl) in
    let met = λ (a : ℕ) (e' : (labels edges a == labels edges edge.1) ≡ true).
      older a edge.1 ((==_iff _ _).0 e') in
    elim (Bool-cases (labels edges i == labels edges edge.1)) [
      | inl a ↦ elim (Bool-cases (labels edges j == labels edges edge.1)) [
        | inl b ↦ then_along (met i a) (back (met j b))
        | inr b ↦ then_along (met i a) (
            then_along (back crossed) (
              older edge.0 j (
                sym (relabel-met edge (labels edges) i a)
                ∙ e
                ∙ relabel-kept edge (labels edges) j b)))
      ]
      | inr a ↦ elim (Bool-cases (labels edges j == labels edges edge.1)) [
        | inl b ↦
            then_along
              (older i edge.0 (
                sym (relabel-kept edge (labels edges) i a)
                ∙ e
                ∙ relabel-met edge (labels edges) j b))
              (then_along crossed (back (met j b)))
        | inr b ↦
            older i j (
              sym (relabel-kept edge (labels edges) i a) ∙ e ∙ relabel-kept edge (labels edges) j b)
      ]
    ]
