-- ===== src/Graph/Rounds/Merging.antt =====
-- Merging supernodes leaves no more sketches to query than there were.
use mathlib.Core.Option
use mathlib.Core.Option.{some-injective}
use hyper_graph_streaming_cc.Prelude.{
  ℕ, zero, suc, ◌≤◌, max, ◌≡◌, ◌≢◌, refl, ap, ◌∙◌, sym, List, [], ◌∷◌, arith, Option, none, some,
  Bool, inl, inr, length, get_elem?, set, Option-cases,
}
use hyper_graph_streaming_cc.Sketch.Defs.{Config, Sketch, add_assign}
use hyper_graph_streaming_cc.Supernode.Defs.{Supernode, merge, merge_sketches, add_sketches}
use hyper_graph_streaming_cc.Graph.Plan.{nodes_of}
use hyper_graph_streaming_cc.Graph.Rounds.{merge_nodes, merge_supernodes}
use hyper_graph_streaming_cc.Graph.Rounds.Unused.{unused, total_unused, total_unused-set}

none≢some : {A : Type 0} {a : A} → none ≢ some a
none≢some e = cc

-- The value of a mapped option comes from a value.
map-some :
    {A B : Type 0} (f : A → B) (o : Option A) (b : B)
    → Option.map f o ≡ some b
    → (a : A) × (o ≡ some a) × (b ≡ f a)
map-some f none b e = cc
map-some f (some a) b e = (a, refl, sym (some-injective (f a) b e))

module _ (cfg : Config) where
  length-add_sketches :
      (ss ts us : List Sketch) → add_sketches cfg ss ts ≡ some us → length us ≡ length ss
  unfolding add_sketches
  length-add_sketches [] ts us e = ap length (sym (some-injective [] us e))
  length-add_sketches (s ∷ ss) [] us e = cc
  length-add_sketches (s ∷ ss) (t ∷ ts) us e = elim (Option-cases (add_assign cfg s t)) [
    | inl failed ↦ cc
    | inr (u, added) ↦
        let (rest, e', same) =
          map-some (λ vs. u ∷ vs) (add_sketches cfg ss ts) us (rw (added, add_sketches) at e) in
        ap length same ∙ ap suc (length-add_sketches ss ts rest e')
  ]

  length-merge_sketches :
      (i : ℕ) (ss ts us : List Sketch)
      → merge_sketches cfg i ss ts ≡ some us
      → length us ≡ length ss
  unfolding merge_sketches
  length-merge_sketches zero ss ts us e = length-add_sketches ss ts us e
  length-merge_sketches (suc i) [] ts us e = ap length (sym (some-injective [] us e))
  length-merge_sketches (suc i) (s ∷ ss) [] us e =
      let (rest, e', same) = map-some (λ vs. s ∷ vs) (merge_sketches cfg i ss []) us e in
      ap length same ∙ ap suc (length-merge_sketches i ss [] rest e')
  length-merge_sketches (suc i) (s ∷ ss) (t ∷ ts) us e =
      let (rest, e', same) = map-some (λ vs. s ∷ vs) (merge_sketches cfg i ss ts) us e in
      ap length same ∙ ap suc (length-merge_sketches i ss ts rest e')

  unused-merge : (s t s' : Supernode) → merge cfg s t ≡ some s' → unused s' ≤ unused s
  unfolding merge
  unused-merge s t s' e =
      let m = max s.idx t.idx in
      let (us, e', same) =
        map-some (λ ss. record s { idx = m; sketches = ss })
          (merge_sketches cfg m s.sketches t.sketches) s' e in
      let size = length-merge_sketches m s.sketches t.sketches us e' in
      omega (arith, ap unused same, size)

  total_unused-merge_nodes :
      (a : ℕ) (bs : List ℕ) (supernodes merged : List Supernode)
      → merge_nodes cfg a bs supernodes ≡ some merged
      → total_unused merged ≤ total_unused supernodes
  unfolding merge_nodes
  total_unused-merge_nodes a [] supernodes merged e =
      omega (arith, ap total_unused (some-injective supernodes merged e))
  total_unused-merge_nodes a (b ∷ bs) supernodes merged e =
      elim (Option-cases (get_elem? supernodes a)) [
        | inl missing ↦ absurd (none≢some (rw (missing, merge_nodes) at e))
        | inr (s, at_a) ↦ elim (Option-cases (get_elem? supernodes b)) [
          | inl missing ↦ absurd (none≢some (rw missing at (rw (at_a, merge_nodes) at e)))
          | inr (t, at_b) ↦ elim (Option-cases (merge cfg s t)) [
            | inl failed ↦
                absurd (none≢some (rw failed at (rw at_b at (rw (at_a, merge_nodes) at e))))
            | inr (s', joined) ↦
                let rest =
                  total_unused-merge_nodes a bs (set supernodes a s') merged
                    (rw joined at (rw at_b at (rw (at_a, merge_nodes) at e))) in
                omega (arith, total_unused-set supernodes a s s' at_a, unused-merge s t s' joined)
          ]
        ]
      ]

  pub total_unused-merge_supernodes :
      (make_copy : Bool) (new_reps : List ℕ) (to_merge : List (List ℕ))
      (supernodes merged : List Supernode) (copies copies' : List (Option Supernode))
      → merge_supernodes cfg make_copy new_reps to_merge supernodes copies ≡ some (merged, copies')
      → total_unused merged ≤ total_unused supernodes
  unfolding merge_supernodes
  total_unused-merge_supernodes make_copy [] to_merge supernodes merged copies copies' e =
      omega (arith, ap (λ r. total_unused r.0) (some-injective _ _ e))
  total_unused-merge_supernodes make_copy (a ∷ new_reps) to_merge supernodes merged copies copies'
        e =
      elim (Option-cases (merge_nodes cfg a (nodes_of to_merge a) supernodes)) [
        | inl failed ↦ absurd (none≢some (rw (failed, merge_supernodes) at e))
        | inr (mid, done) ↦
            let first = total_unused-merge_nodes a (nodes_of to_merge a) supernodes mid done in
            let rest =
              total_unused-merge_supernodes make_copy new_reps to_merge mid merged _ copies'
                (rw (done, merge_supernodes) at e) in
            omega arith
      ]
