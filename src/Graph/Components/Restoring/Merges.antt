-- ===== src/Graph/Components/Restoring/Merges.antt =====
-- Merging, in `Graph::merge_supernodes` of src/graph.cpp, changes the supernodes into which something
-- merges, and copies them before when it is told to.
use mathlib.Core.Option
use mathlib.Core.Option.{some-injective}
use hyper_graph_streaming_cc.Prelude.{
  ℕ, ◌<◌, ◌≡◌, ◌≢◌, refl, ap, ◌∙◌, sym, subst, List, [], ◌∷◌, length, length-set, Option, some,
  Bool, true, false, Bool-cases, Option-cases, some≢none, inl, inr, ◌⊎◌, ◌==◌, ==_iff, ==_refl,
  if◌then◌else◌, get_elem?, set, arith,
}
use hyper_graph_streaming_cc.Prelude.Slots.{get_elem?-lt, get_elem?-set_other}
use hyper_graph_streaming_cc.Sketch.Defs.{Config}
use hyper_graph_streaming_cc.Supernode.Defs.{Supernode, merge, copy_supernode}
use hyper_graph_streaming_cc.Supernode.Reset.{reset-copy_supernode}
use hyper_graph_streaming_cc.Graph.Plan.{nodes_of, empty?}
use hyper_graph_streaming_cc.Graph.Plan.Below.{AllBelow}
use hyper_graph_streaming_cc.Graph.Rounds.{merge_nodes, merge_supernodes}
use hyper_graph_streaming_cc.Graph.Components.Restoring.Distinct.{among, Distinct, false≢true}
use hyper_graph_streaming_cc.Graph.Components.Restoring.Saved.{
  At, Copied, Saved, set-At, set-At_here,
}

abbrev pub AllAmong : List ℕ → List ℕ → Type 0
AllAmong ids [] = Unit
AllAmong ids (x ∷ nodes) = (among x ids ≡ true) × AllAmong ids nodes

-- The representatives into which something merges.
unfoldable pub merge_targets : List ℕ → List (List ℕ) → List ℕ
merge_targets [] to_merge = []
merge_targets (a ∷ reps) to_merge =
    let rest = merge_targets reps to_merge in
    if empty? (nodes_of to_merge a) then rest else a ∷ rest

pub among_head :
    (a i : ℕ) (nodes : List ℕ)
    → (a == i) ≡ false
    → among i nodes ≡ false
    → among i (a ∷ nodes) ≡ false
unfolding among
among_head a i nodes other h = rw other h

pub among_tail : (a i : ℕ) (nodes : List ℕ) → among i nodes ≡ true → among i (a ∷ nodes) ≡ true
unfolding among
among_tail a i nodes h = ground (arith, h)

pub among_first : (a : ℕ) (nodes : List ℕ) → among a (a ∷ nodes) ≡ true
unfolding among
among_first a nodes = rw (==_refl a) refl

among_apart : (a i : ℕ) (ids : List ℕ) → among a ids ≡ true → among i ids ≡ false → (a == i) ≡ false
among_apart a i ids h k = elim (Bool-cases (a == i)) [
  | inr other ↦ other
  | inl same ↦ absurd (false≢true (sym k ∙ ap (λ x. among x ids) (sym ((==_iff a i).0 same)) ∙ h))
]

pub among_nil : (i : ℕ) → among i [] ≢ true
unfolding among
among_nil i e = false≢true e

module _ (cfg : Config) where
  -- Merging into `a` leaves all other supernodes as they were.
  merge_nodes-elsewhere :
      (a : ℕ) (bs : List ℕ) (supernodes merged : List Supernode)
      → merge_nodes cfg a bs supernodes ≡ some merged
      → (length merged ≡ length supernodes)
        × ((i : ℕ) → (a == i) ≡ false → get_elem? merged i ≡ get_elem? supernodes i)
  unfolding merge_nodes
  merge_nodes-elsewhere a [] supernodes merged e =
      let same = sym (some-injective supernodes merged e) in
      (ap length same, λ i other. ap (λ ss. get_elem? ss i) same)
  merge_nodes-elsewhere a (b ∷ bs) supernodes merged e =
      elim (Option-cases (get_elem? supernodes a)) [
        | inl missing ↦ absurd (some≢none (sym e ∙ rw (missing, merge_nodes) refl))
        | inr (s, at_a) ↦ elim (Option-cases (get_elem? supernodes b)) [
          | inl missing ↦ absurd (some≢none (sym e ∙ rw (at_a, merge_nodes) (rw missing refl)))
          | inr (t, at_b) ↦ elim (Option-cases (merge cfg s t)) [
            | inl failed ↦
                absurd (some≢none (sym e ∙ rw (at_a, merge_nodes) (rw at_b (rw failed refl))))
            | inr (s', joined) ↦
                let (size, others) =
                  merge_nodes-elsewhere a bs (set supernodes a s') merged
                    (rw joined at (rw at_b at (rw (at_a, merge_nodes) at e))) in
                (
                  size ∙ length-set supernodes a s',
                  λ i other. others i other ∙ get_elem?-set_other supernodes a i s' other,
                )
          ]
        ]
      ]

  merge_nodes_none :
      (a : ℕ) (bs : List ℕ) (supernodes merged : List Supernode)
      → empty? bs ≡ true
      → merge_nodes cfg a bs supernodes ≡ some merged
      → merged ≡ supernodes
  unfolding merge_nodes
  merge_nodes_none a [] supernodes merged h e = sym (some-injective supernodes merged e)
  merge_nodes_none a (b ∷ bs) supernodes merged h e = absurd (false≢true h)

  merge_supernodes-step :
      (copying : Bool) (a : ℕ) (reps : List ℕ) (to_merge : List (List ℕ))
      (supernodes : List Supernode) (copies : List (Option Supernode))
      (result : List Supernode × List (Option Supernode))
      → merge_supernodes cfg copying (a ∷ reps) to_merge supernodes copies ≡ some result
      → (mid : List Supernode) × (merge_nodes cfg a (nodes_of to_merge a) supernodes ≡ some mid)
        × (merge_supernodes cfg copying reps to_merge mid (
              if copying
              then set copies a (Option.map (copy_supernode cfg) (get_elem? supernodes a))
              else copies)
            ≡ some result)
  unfolding merge_supernodes
  merge_supernodes-step copying a reps to_merge supernodes copies result e =
      elim (Option-cases (merge_nodes cfg a (nodes_of to_merge a) supernodes)) [
        | inl failed ↦ absurd (some≢none (sym e ∙ rw (failed, merge_supernodes) refl))
        | inr (mid, done) ↦ (mid, done, rw (done, merge_supernodes) at e)
      ]

  -- One representative is copied and merged into.
  copy-Saved :
      (orig supernodes mid : List Supernode) (copies : List (Option Supernode)) (backed_up : List ℕ)
      (a : ℕ) (reps : List ℕ) (o : Supernode)
      → get_elem? orig a ≡ some o
      → a < length orig
      → among a backed_up ≡ true
      → among a reps ≡ false
      → length mid ≡ length supernodes
      → ((i : ℕ) → (a == i) ≡ false → get_elem? mid i ≡ get_elem? supernodes i)
      → Saved orig supernodes copies backed_up (a ∷ reps)
      → Saved orig mid
          (set copies a (Option.map (copy_supernode cfg) (get_elem? supernodes a)))
          backed_up
          reps
  copy-Saved orig supernodes mid copies backed_up a reps o at_o lt inside distinct size others h =
      let here = h.kept a o at_o (inr (among_first a reps)) in
      record {
        count = size ∙ h.count;
        slots = length-set copies a _ ∙ h.slots;
        ids_below = h.ids_below;
        kept = λ i x e where_i.
            let apart : (a == i) ≡ false = elim where_i [
              | inl out ↦ among_apart a i backed_up inside out
              | inr later ↦ elim (Bool-cases (a == i)) [
                | inr other ↦ other
                | inl same ↦ absurd (
                    false≢true
                      (sym distinct ∙ ap (λ k. among k reps) ((==_iff a i).0 same) ∙ later))
              ]
            ] in
            let (s, f, k) =
              h.kept i x e
                (elim where_i as (λ w. (among i backed_up ≡ false) ⊎ (among i (a ∷ reps) ≡ true)) [
                  | inl out ↦ inl out
                  | inr later ↦ inr (among_tail a i reps later)
                ]) in
            (s, others i apart ∙ f, k);
        saved = λ i x e in_i out_i. elim (Bool-cases (a == i)) [
          | inr other ↦
              set-At (Copied x) copies a i _ other
                (h.saved i x e in_i (among_head a i reps other out_i))
          | inl same ↦
              let at_i = (==_iff a i).0 same in
              let x_o : o ≡ x = some-injective o x (sym at_o ∙ ap (get_elem? orig) at_i ∙ e) in
              let (s, f, k) = here in
              subst (At (Copied x) (set copies a _)) at_i (
                set-At_here (Copied x) copies a _ (omega (arith, h.slots)) (
                  rw f (
                    subst (λ t. Copied t (some (copy_supernode cfg s))) x_o
                      (reset-copy_supernode cfg s k.0 ∙ k.1))))
        ];
      }

  -- In the first round every representative is copied before something merges into it.
  pub copies-Saved :
      (orig : List Supernode) (backed_up reps : List ℕ) (to_merge : List (List ℕ))
      (supernodes merged : List Supernode) (copies copies' : List (Option Supernode))
      → merge_supernodes cfg true reps to_merge supernodes copies ≡ some (merged, copies')
      → AllBelow (length orig) reps
      → AllAmong backed_up reps
      → Distinct reps
      → Saved orig supernodes copies backed_up reps
      → Saved orig merged copies' backed_up []
  unfolding merge_supernodes
  copies-Saved orig backed_up [] to_merge supernodes merged copies copies' e below inside distinct
        h =
      let same = some-injective (supernodes, copies) (merged, copies') e in
      subst (λ (r : List Supernode × List (Option Supernode)). Saved orig r.0 r.1 backed_up []) same
        h
  copies-Saved orig backed_up (a ∷ reps) to_merge supernodes merged copies copies' e below inside
        distinct h =
      let (mid, done, rest) =
        merge_supernodes-step true a reps to_merge supernodes copies (merged, copies') e in
      let (size, others) = merge_nodes-elsewhere a (nodes_of to_merge a) supernodes mid done in
      let (o, at_o) = get_elem?-lt orig a below.0 in
      copies-Saved orig backed_up reps to_merge mid merged _ copies' rest below.1 inside.1
        distinct.1
        (copy-Saved orig supernodes mid copies backed_up a reps o at_o below.0 inside.0 distinct.0
          size others h)

  -- In a later round nothing is lost if everything merges into supernodes that were copied.
  pub merges-Saved :
      (orig : List Supernode) (backed_up reps : List ℕ) (to_merge : List (List ℕ))
      (supernodes merged : List Supernode) (copies copies' : List (Option Supernode))
      → merge_supernodes cfg false reps to_merge supernodes copies ≡ some (merged, copies')
      → AllAmong backed_up (merge_targets reps to_merge)
      → Saved orig supernodes copies backed_up []
      → Saved orig merged copies' backed_up []
  unfolding merge_supernodes merge_targets
  merges-Saved orig backed_up [] to_merge supernodes merged copies copies' e inside h =
      let same = some-injective (supernodes, copies) (merged, copies') e in
      subst (λ (r : List Supernode × List (Option Supernode)). Saved orig r.0 r.1 backed_up []) same
        h
  merges-Saved orig backed_up (a ∷ reps) to_merge supernodes merged copies copies' e inside h =
      let (mid, done, rest) =
        merge_supernodes-step false a reps to_merge supernodes copies (merged, copies') e in
      elim (Bool-cases (empty? (nodes_of to_merge a))) [
        | inl nothing ↦
            merges-Saved orig backed_up reps to_merge mid merged copies copies' rest
              (rw nothing at inside)
              (subst (λ ss. Saved orig ss copies backed_up [])
                (sym (merge_nodes_none a (nodes_of to_merge a) supernodes mid nothing done)) h)
        | inr something ↦
            let covered : (among a backed_up ≡ true)
                × AllAmong backed_up (merge_targets reps to_merge) =
              rw something at inside in
            let (size, others) =
              merge_nodes-elsewhere a (nodes_of to_merge a) supernodes mid done in
            merges-Saved orig backed_up reps to_merge mid merged copies copies' rest covered.1
              (record {
                count = size ∙ h.count;
                slots = h.slots;
                ids_below = h.ids_below;
                kept = λ i x e' out. elim out [
                  | inr later ↦ absurd (among_nil i later)
                  | inl outside ↦
                      let (s, f, k) = h.kept i x e' (inl outside) in
                      (s, others i (among_apart a i backed_up covered.0 outside) ∙ f, k)
                ];
                saved = h.saved;
              })
      ]
