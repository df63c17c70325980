-- ===== src/Graph/Components/Restoring/PutBack.antt =====
-- The copies go back to their places (`cleanup_copy` in `Graph::boruvka_emulation` of src/graph.cpp).
use mathlib.Core.Option.{some-injective}
use hyper_graph_streaming_cc.Prelude.{
  ℕ, ◌≡◌, refl, ap, ◌∙◌, sym, subst, List, [], ◌∷◌, length, length-set, Option, some, none, true,
  false, Bool-cases, inl, inr, ◌==◌, ==_iff, get_elem?, set, arith,
}
use hyper_graph_streaming_cc.Prelude.Slots.{get_elem?-lt}
use hyper_graph_streaming_cc.Platform.{Platform, Doubles}
use hyper_graph_streaming_cc.Sketch.Defs.{Config}
use hyper_graph_streaming_cc.Supernode.Defs.{Supernode, reset_query_state}
use hyper_graph_streaming_cc.Graph.Plan.Below.{AllBelow}
use hyper_graph_streaming_cc.Graph.Rounds.{Rounds}
use hyper_graph_streaming_cc.Graph.Components.{restore_copies, cleanup_copy}
use hyper_graph_streaming_cc.Graph.Components.Restoring.Distinct.{among}
use hyper_graph_streaming_cc.Graph.Components.Restoring.Saved.{At, Copied, set-At, set-At_here}
use hyper_graph_streaming_cc.Graph.Components.Restoring.Merges.{among_head, among_tail, among_first}
use hyper_graph_streaming_cc.Graph.Components.Restoring.Rounds.{Held}

-- A supernode that is reset to the same as `o`.
abbrev pub Same : Supernode → Supernode → Type 0
Same o s = reset_query_state s ≡ reset_query_state o

-- The copies that are still to be put back.
record Pending (orig supernodes : List Supernode) (copies : List (Option Supernode)) (ids : List ℕ)
    : Type 0 where
  count : length supernodes ≡ length orig
  rest :
      (i : ℕ) (o : Supernode)
      → get_elem? orig i ≡ some o
      → among i ids ≡ false
      → At (Same o) supernodes i
  copied :
      (i : ℕ) (o : Supernode)
      → get_elem? orig i ≡ some o
      → among i ids ≡ true
      → At (Copied o) copies i

copy_there :
    (copies : List (Option Supernode)) (a : ℕ) (o : Supernode)
    → At (Copied o) copies a
    → (c : Supernode) × (get_elem? copies a ≡ some (some c)) × Same o c
copy_there copies a o (none, e, bad) = absurd bad
copy_there copies a o (some c, e, good) = (c, e, good)

put_back :
    (ids : List ℕ) (orig supernodes : List Supernode) (copies : List (Option Supernode))
    → AllBelow (length orig) ids
    → Pending orig supernodes copies ids
    → (restored : List Supernode) × (restore_copies ids copies supernodes ≡ some restored)
      × Pending orig restored copies []
unfolding restore_copies
put_back [] orig supernodes copies below h = (supernodes, refl, h)
put_back (a ∷ ids) orig supernodes copies below h =
    let (o, at_o) = get_elem?-lt orig a below.0 in
    let (c, e, good) = copy_there copies a o (h.copied a o at_o (among_first a ids)) in
    let next : Pending orig (set supernodes a c) copies ids = record {
      count = length-set supernodes a c ∙ h.count;
      rest = λ i x f out. elim (Bool-cases (a == i)) [
        | inr other ↦
            set-At (Same x) supernodes a i c other (h.rest i x f (among_head a i ids other out))
        | inl same ↦
            let at_i = (==_iff a i).0 same in
            let x_o : o ≡ x = some-injective o x (sym at_o ∙ ap (get_elem? orig) at_i ∙ f) in
            subst (At (Same x) (set supernodes a c)) at_i (
              set-At_here (Same x) supernodes a c (omega (arith, h.count, below.0))
                (subst (λ t. Same t c) x_o good))
      ];
      copied = λ i x f inside. h.copied i x f (among_tail a i ids inside);
    } in
    let (restored, f, done) = put_back ids orig (set supernodes a c) copies below.1 next in
    (restored, rw (e, restore_copies) f, done)

-- The supernodes that a query puts back.
abbrev pub PutBack : List Supernode → List Supernode → Type 0
PutBack orig restored =
    (length restored ≡ length orig)
    × ((i : ℕ) (o : Supernode) → get_elem? orig i ≡ some o → At (Same o) restored i)

module _ (p : Platform) (d : Doubles) (cfg : Config) where
  cleanup_copy_found :
      (st : Rounds) (restored : List Supernode)
      → st.graph.copy_in_mem ≡ true
      → restore_copies st.backed_up st.copies st.graph.supernodes ≡ some restored
      → ((cleanup_copy p d cfg true st).1 ≡ none)
        × ((cleanup_copy p d cfg true st).0.supernodes ≡ restored)
        × ((cleanup_copy p d cfg true st).0.num_nodes ≡ st.graph.num_nodes)
  unfolding cleanup_copy
  cleanup_copy_found st restored in_mem e = rw (in_mem, cleanup_copy) (rw e (refl, refl, refl))

  pub cleanup_copy-PutBack :
      (orig : List Supernode) (st : Rounds)
      → Held orig st
      → ((cleanup_copy p d cfg true st).1 ≡ none)
        × PutBack orig (cleanup_copy p d cfg true st).0.supernodes
        × ((cleanup_copy p d cfg true st).0.num_nodes ≡ length orig)
  unfolding among
  cleanup_copy-PutBack orig st (in_mem, nodes, h) =
      let pending : Pending orig st.graph.supernodes st.copies st.backed_up = record {
        count = h.count;
        rest = λ i o e out. let (s, f, k) = h.kept i o e (inl out) in (s, f, k.1);
        copied = λ i o e inside. h.saved i o e inside refl;
      } in
      let (restored, e, done) =
        put_back st.backed_up orig st.graph.supernodes st.copies h.ids_below pending in
      let (calm, same, count) = cleanup_copy_found st restored in_mem e in
      (
        calm,
        subst (PutBack orig) (sym same) (done.count, λ i o f. done.rest i o f refl),
        count ∙ nodes,
      )
