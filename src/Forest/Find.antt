-- ===== src/Forest/Find.antt =====
-- The search returns the root, with as much fuel as there are nodes, and keeps all roots.
use hyper_graph_streaming_cc.Prelude.{
  ℕ, zero, suc, ◌+◌, ◌<◌, ◌≡◌, ◌≢◌, refl, ap, ◌∙◌, sym, List, [], ◌∷◌, arith, length, set, ◌==◌,
  ==_iff, Bool-cases, inl, inr, Option, some, get_elem?, false,
}
use hyper_graph_streaming_cc.Forest.{find, parent_of, root}
use hyper_graph_streaming_cc.Forest.Root.{
  IsForest, non_roots, non_roots_from-le-length, parent_of-root, root_of_root, root-parent_of,
}
use hyper_graph_streaming_cc.Forest.Writes.{SameRoots, shorten-IsForest, shorten-SameRoots}

pub SameRoots-refl : (ps : List ℕ) → SameRoots ps ps
SameRoots-refl ps = record { size = refl; roots = λ i h. refl }

pub SameRoots-trans : (ps qs rs : List ℕ) → SameRoots ps qs → SameRoots qs rs → SameRoots ps rs
SameRoots-trans ps qs rs h k = record {
  size = k.size ∙ h.size;
  roots = λ i lt. k.roots i (omega (arith, h.size)) ∙ h.roots i lt;
}

get_elem?-parent_of : (ps : List ℕ) (i : ℕ) → i < length ps → get_elem? ps i ≡ some (parent_of ps i)
get_elem?-parent_of [] i h = absurd (omega arith)
get_elem?-parent_of (q ∷ ps) zero h = refl
get_elem?-parent_of (q ∷ ps) (suc i) h = get_elem?-parent_of ps i (omega arith)

-- A search that returned the root of `i` and left a forest with the same roots.
abbrev pub Finds : List ℕ → ℕ → Option (ℕ × List ℕ) → Type 0
Finds ps i r = (qs : List ℕ) × (r ≡ some (root ps i, qs)) × IsForest qs × SameRoots ps qs

find-found :
    (fuel : ℕ) (ps : List ℕ) (i : ℕ)
    → get_elem? ps i ≡ some (parent_of ps i)
    → (parent_of ps i == i) ≡ false
    → {r : ℕ} {qs : List ℕ} → find fuel ps (parent_of ps i) ≡ some (r, qs)
    → find (suc fuel) ps i ≡ some (r, set qs i r)
unfolding find
find-found fuel ps i e ne h = ground arith

find-root :
    (fuel : ℕ) (ps : List ℕ) (i : ℕ)
    → get_elem? ps i ≡ some (parent_of ps i)
    → parent_of ps i ≡ i
    → find (suc fuel) ps i ≡ some (i, ps)
unfolding find
find-root fuel ps i e root_i = ground arith

pub find_lem :
    (fuel : ℕ) (ps : List ℕ) (f : IsForest ps) (i : ℕ)
    → i < length ps
    → non_roots ps < f.rank i + fuel
    → Finds ps i (find fuel ps i)
find_lem zero ps f i lt h = absurd (omega (arith, f.bounded i lt))
find_lem (suc fuel) ps f i lt h = elim (Bool-cases (parent_of ps i == i)) [
  | inl e ↦
      let root_i = (==_iff _ _).0 e in
      (
        ps,
        find-root fuel ps i (get_elem?-parent_of ps i lt) root_i
            ∙ ap (λ r. some (r, ps)) (sym (root_of_root ps f i lt root_i)),
        f,
        SameRoots-refl ps,
      )
  | inr e ↦
      let inner : parent_of ps i ≢ i = ground arith in
      let (qs, found, forest, same) =
        find_lem fuel ps f (parent_of ps i) (f.in_range i lt)
          (omega (arith, f.climbs i lt inner)) in
      let lt' : i < length qs = omega (arith, same.size) in
      let top : root ps (parent_of ps i) ≡ root qs i =
        root-parent_of ps f i lt ∙ sym (same.roots i lt) in
      let inner' : parent_of qs i ≢ i = λ fixed. inner (
        ap (parent_of ps) (sym (sym (same.roots i lt) ∙ root_of_root qs forest i lt' fixed))
        ∙ parent_of-root ps f i lt
        ∙ sym (same.roots i lt)
        ∙ root_of_root qs forest i lt' fixed) in
      (
        set qs i (root qs i),
        find-found fuel ps i (get_elem?-parent_of ps i lt) e found
            ∙ ap (λ r. some (r, set qs i r)) top
            ∙ ap (λ r. some (r, set qs i (root qs i))) (same.roots i lt),
        shorten-IsForest qs forest i lt' inner',
        SameRoots-trans ps qs _ same (shorten-SameRoots qs forest i lt' inner'),
      )
]

-- In a forest, the search from a node, with one unit of fuel more than there are nodes, returns
-- the root of the node, and leaves a forest of as many nodes with the same roots.
pub find_total :
    (ps : List ℕ) (i : ℕ) → IsForest ps → i < length ps → Finds ps i (find (suc (length ps)) ps i)
find_total ps i f lt =
    find_lem (suc (length ps)) ps f i lt (omega (arith, non_roots_from-le-length 0 ps))
