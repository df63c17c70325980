-- ===== src/Streams/Shared/Pool/Tasks.antt =====
-- The tasks beside the edges that each has in its buffer.
use mathlib.Core.Option.{some-injective}
use hyper_graph_streaming_cc.Prelude.{
  ℕ, zero, suc, ◌+◌, ◌<◌, ◌≡◌, refl, ap, subst, List, [], ◌∷◌, true, false, arith, some, take, drop,
  get_elem?, set,
}
use hyper_graph_streaming_cc.Prelude.Totals.{total}
use hyper_graph_streaming_cc.Supernode.Defs.{Edge}
use hyper_graph_streaming_cc.Streams.Reader.{EdgeFits}
use hyper_graph_streaming_cc.Streams.Shared.Reads.{Ahead}
use hyper_graph_streaming_cc.Streams.Shared.Pool.{Task, all_ended}

-- Edges that fit the file, each an insertion or a deletion.
abbrev pub Updates : List (Edge × ℕ) → Type 0
Updates [] = Unit {0}
Updates (e ∷ es) = (EdgeFits e × (e.1 < 2)) × Updates es

pub Updates-take : (k : ℕ) (es : List (Edge × ℕ)) → Updates es → Updates (take k es)
Updates-take zero es h = tt
Updates-take (suc k) [] h = tt
Updates-take (suc k) (e ∷ es) h = (h.0, Updates-take k es h.1)

pub Updates-drop : (k : ℕ) (es : List (Edge × ℕ)) → Updates es → Updates (drop k es)
Updates-drop zero es h = h
Updates-drop (suc k) [] h = tt
Updates-drop (suc k) (e ∷ es) h = Updates-drop k es h.1

-- A task that goes on has the edges `l` in its buffer; one that ended has none, and the file has
-- been given out.
pub record Busy (given_out : Type 0) (q : ℕ) (t : Task) (l : List (Edge × ℕ)) : Type 0 where
  pub ended_empty : t.ended ≡ true → (l ≡ []) × given_out
  pub going : t.ended ≡ false → Ahead q t.reader l
  pub updates : Updates l

abbrev pub Pairs : (Task → List (Edge × ℕ) → Type 0) → List Task → List (List (Edge × ℕ)) → Type 0
Pairs P [] [] = Unit {0}
Pairs P [] (l ∷ ls) = ⊥
Pairs P (t ∷ ts) [] = ⊥
Pairs P (t ∷ ts) (l ∷ ls) = P t l × Pairs P ts ls

-- The sum of a weight over the edges in all buffers.
unfoldable pub totals : (Edge × ℕ → ℕ) → List (List (Edge × ℕ)) → ℕ
totals w [] = 0
totals w (l ∷ ls) = total w l + totals w ls

pub totals-set :
    (w : Edge × ℕ → ℕ) (ls : List (List (Edge × ℕ))) (i : ℕ) (l l' : List (Edge × ℕ))
    → get_elem? ls i ≡ some l
    → totals w (set ls i l') + total w l ≡ totals w ls + total w l'
unfolding totals
totals-set w [] i l l' e = cc
totals-set w (x ∷ ls) zero l l' e =
    subst (λ y. totals w (l' ∷ ls) + total w y ≡ totals w (x ∷ ls) + total w l')
      (some-injective x l e) (omega arith)
totals-set w (x ∷ ls) (suc i) l l' e = omega (arith, totals-set w ls i l l' e)

module _ (P : Task → List (Edge × ℕ) → Type 0) where
  pub Pairs-at :
      (ts : List Task) (ls : List (List (Edge × ℕ))) (i : ℕ) (t : Task)
      → Pairs P ts ls
      → get_elem? ts i ≡ some t
      → (l : List (Edge × ℕ)) × (get_elem? ls i ≡ some l) × P t l
  Pairs-at [] ls i t h e = cc
  Pairs-at (x ∷ ts) [] i t h e = absurd h
  Pairs-at (x ∷ ts) (l ∷ ls) zero t h e = (l, refl, subst (λ y. P y l) (some-injective x t e) h.0)
  Pairs-at (x ∷ ts) (l ∷ ls) (suc i) t h e = Pairs-at ts ls i t h.1 e

  pub Pairs-set :
      (ts : List Task) (ls : List (List (Edge × ℕ))) (i : ℕ) (t : Task) (l : List (Edge × ℕ))
      → Pairs P ts ls
      → P t l
      → Pairs P (set ts i t) (set ls i l)
  Pairs-set [] [] i t l h new = tt
  Pairs-set [] (y ∷ ls) i t l h new = absurd h
  Pairs-set (x ∷ ts) [] i t l h new = absurd h
  Pairs-set (x ∷ ts) (y ∷ ls) zero t l h new = (new, h.1)
  Pairs-set (x ∷ ts) (y ∷ ls) (suc i) t l h new = (h.0, Pairs-set ts ls i t l h.1 new)

  pub Pairs-map :
      (Q : Task → List (Edge × ℕ) → Type 0)
      → ((t : Task) (l : List (Edge × ℕ)) → P t l → Q t l)
      → (ts : List Task) (ls : List (List (Edge × ℕ))) → Pairs P ts ls
      → Pairs Q ts ls
  Pairs-map Q keep [] [] h = tt
  Pairs-map Q keep [] (l ∷ ls) h = absurd h
  Pairs-map Q keep (t ∷ ts) [] h = absurd h
  Pairs-map Q keep (t ∷ ts) (l ∷ ls) h = (keep t l h.0, Pairs-map Q keep ts ls h.1)

-- When all tasks have ended, no buffer holds an edge.
pub totals_ended :
    (given_out : Type 0) (q : ℕ) (w : Edge × ℕ → ℕ) (ts : List Task) (ls : List (List (Edge × ℕ)))
    → Pairs (Busy given_out q) ts ls
    → all_ended ts ≡ true
    → totals w ls ≡ 0
unfolding totals all_ended total
totals_ended given_out q w [] [] h all = refl
totals_ended given_out q w [] (l ∷ ls) h all = absurd h
totals_ended given_out q w (t ∷ ts) [] h all = absurd h
totals_ended given_out q w (t ∷ ts) (l ∷ ls) h all =
    let empty = (h.0.ended_empty (ground arith)).0 in
    omega (arith, ap (total w) empty, totals_ended given_out q w ts ls h.1 (ground arith))
