-- ===== src/Graph/Components/Restoring/Saved.antt =====
-- Which supernodes a query has changed, and what is kept of them: sampling and merging in
-- `Graph::boruvka_emulation` (src/graph.cpp).
use mathlib.Core.Option.{some-injective}
use hyper_graph_streaming_cc.Prelude.{
  ℕ, ◌<◌, ◌≡◌, refl, ap, ◌∙◌, sym, subst, List, [], ◌∷◌, length, length-set, Option, some, none,
  true, false, Bool-cases, Option-cases, inl, inr, ◌⊎◌, ◌==◌, ==_iff, get_elem?, set,
}
use hyper_graph_streaming_cc.Prelude.Slots.{
  get_elem?-below, get_elem?-set_same, get_elem?-set_other,
}
use hyper_graph_streaming_cc.Platform.{Platform}
use hyper_graph_streaming_cc.Sketch.Defs.{Config, SampleSketchRet}
use hyper_graph_streaming_cc.Supernode.Defs.{Supernode, Edge, sample, reset_query_state}
use hyper_graph_streaming_cc.Supernode.Sampling.{IsQueryable, sample-IsQueryable}
use hyper_graph_streaming_cc.Supernode.Reset.{reset-sample}
use hyper_graph_streaming_cc.Graph.Plan.Below.{AllBelow}
use hyper_graph_streaming_cc.Graph.Rounds.{sample_supernodes, store_sample}
use hyper_graph_streaming_cc.Graph.Components.Restoring.Distinct.{among}

-- A supernode that was only sampled since it was `o`.
abbrev pub Kept : Supernode → Supernode → Type 0
Kept o s = IsQueryable s × (reset_query_state s ≡ reset_query_state o)

-- An entry that is there and has a property.
abbrev pub At : {A : Type 0} → (A → Type 0) → List A → ℕ → Type 0
At {A = A} q xs i = (x : A) × (get_elem? xs i ≡ some x) × q x

-- A copy from which the supernode `o` is put back.
abbrev pub Copied : Supernode → Option Supernode → Type 0
Copied o none = ⊥
Copied o (some c) = reset_query_state c ≡ reset_query_state o

-- Of the supernodes `orig`, those that are not among `backed_up`, or are still `ahead`, were only
-- sampled, and of the others there is a copy.
pub record Saved (orig supernodes : List Supernode) (copies : List (Option Supernode))
    (backed_up ahead : List ℕ) : Type 0 where
  pub count : length supernodes ≡ length orig
  pub slots : length copies ≡ length orig
  pub ids_below : AllBelow (length orig) backed_up
  pub kept :
      (i : ℕ) (o : Supernode)
      → get_elem? orig i ≡ some o
      → (among i backed_up ≡ false) ⊎ (among i ahead ≡ true)
      → At (Kept o) supernodes i
  pub saved :
      (i : ℕ) (o : Supernode)
      → get_elem? orig i ≡ some o
      → among i backed_up ≡ true
      → among i ahead ≡ false
      → At (Copied o) copies i

-- Every entry of a list of supernodes that changed at one place.
pub set-At :
    {A : Type 0}
    → (q : A → Type 0) (xs : List A) (a i : ℕ) (v : A) → (a == i) ≡ false
    → At q xs i
    → At q (set xs a v) i
set-At q xs a i v other (x, e, h) = (x, get_elem?-set_other xs a i v other ∙ e, h)

pub set-At_here :
    {A : Type 0}
    → (q : A → Type 0) (xs : List A) (a : ℕ) (v : A) → a < length xs
    → q v
    → At q (set xs a v) a
set-At_here q xs a v lt h = (v, get_elem?-set_same xs a v lt, h)

module _ (p : Platform) (cfg : Config) where
  sample-Kept : (o s : Supernode) → Kept o s → Kept o (sample p cfg s).0
  sample-Kept o s h = (sample-IsQueryable p cfg s h.0, reset-sample p cfg s h.0 ∙ h.1)

  -- Sampling keeps what was only sampled.
  pub sample_supernodes-Kept :
      (reps : List ℕ) (supernodes : List Supernode) (query : List (Edge × SampleSketchRet)) (i : ℕ)
      (o : Supernode)
      → At (Kept o) supernodes i
      → At (Kept o) (sample_supernodes p cfg reps supernodes query).0 i
  unfolding sample_supernodes
  sample_supernodes-Kept [] supernodes query i o h = h
  sample_supernodes-Kept (a ∷ reps) supernodes query i o (s, e, h) =
      elim (Option-cases (get_elem? supernodes a)) [
        | inl missing ↦ rw (missing, sample_supernodes) (s, e, h)
        | inr (t, at) ↦
            rw (at, sample_supernodes)
              (sample_supernodes-Kept reps (set supernodes a (sample p cfg t).0)
                (store_sample a (sample p cfg t).1 query) i o
                (elim (Bool-cases (a == i)) [
                  | inr other ↦ set-At (Kept o) supernodes a i (sample p cfg t).0 other (s, e, h)
                  | inl same ↦
                      let at_i : a ≡ i = (==_iff a i).0 same in
                      let t_s : t ≡ s =
                        some-injective t s (sym at ∙ ap (get_elem? supernodes) at_i ∙ e) in
                      subst (At (Kept o) (set supernodes a (sample p cfg t).0)) at_i (
                        set-At_here (Kept o) supernodes a (sample p cfg t).0
                          (get_elem?-below supernodes a t at)
                          (sample-Kept o t (subst (Kept o) (sym t_s) h)))
                ]))
      ]

  pub length-sampled :
      (reps : List ℕ) (supernodes : List Supernode) (query : List (Edge × SampleSketchRet))
      → length (sample_supernodes p cfg reps supernodes query).0 ≡ length supernodes
  unfolding sample_supernodes
  length-sampled [] supernodes query = refl
  length-sampled (a ∷ reps) supernodes query = elim (Option-cases (get_elem? supernodes a)) [
    | inl missing ↦ rw (missing, sample_supernodes) refl
    | inr (t, at) ↦
        rw (at, sample_supernodes)
          (length-sampled reps (set supernodes a (sample p cfg t).0)
              (store_sample a (sample p cfg t).1 query)
            ∙ length-set supernodes a (sample p cfg t).0)
  ]
