-- ===== src/Dsu/Laws.antt =====
-- The classes that `DisjointSetUnion` of include/dsu.h keeps.
use hyper_graph_streaming_cc.Prelude.{
  ℕ, zero, suc, ◌+◌, ◌<◌, ◌≡◌, ◌≢◌, refl, ap, ◌∙◌, sym, List, [], ◌∷◌, arith, length, get_or, set,
  ◌==◌, ==_iff, Bool-cases, inl, inr, if◌then◌else◌, Option, some, ltb, length-set, subst, ◌↔◌, ◌⊎◌,
}
use mathlib.Core.Option.{some-injective}
use hyper_graph_streaming_cc.Forest.{parent_of, root}
use hyper_graph_streaming_cc.Forest.Root.{IsForest, root-lt, parent_of-root, root_of_root}
use hyper_graph_streaming_cc.Forest.Writes.{SameRoots, hang-IsForest, root-hang}
use hyper_graph_streaming_cc.Forest.Find.{find_total, SameRoots-trans}
use hyper_graph_streaming_cc.Dsu.{Dsu, own_parents, make_dsu, link, find_set, union_set}

length-own_parents : (n k : ℕ) → length (own_parents n k) ≡ n
unfolding own_parents
length-own_parents zero k = refl
length-own_parents (suc n) k = ap suc (length-own_parents n (suc k))

get_or-own_parents : (n k i : ℕ) → i < n → get_or (own_parents n k) i 0 ≡ k + i
unfolding own_parents
get_or-own_parents zero k i h = absurd (omega arith)
get_or-own_parents (suc n) k zero h = omega arith
get_or-own_parents (suc n) k (suc i) h = get_or-own_parents n (suc k) i (omega arith) ∙ omega arith

pub own_parents-IsForest : (n : ℕ) → IsForest (own_parents n 0)
own_parents-IsForest n = record {
  rank = λ i. 0;
  in_range = λ i h. ground (arith, get_or-own_parents n 0 i, length-own_parents n 0);
  climbs = λ i h ne.
      absurd (ne (get_or-own_parents n 0 i (omega (arith, length-own_parents n 0)) ∙ omega arith));
  bounded = λ i h. omega arith;
}

-- A new structure is a forest where each node is alone.
pub make_dsu_singletons :
    (n : ℕ)
    → IsForest (make_dsu n).parent
      × (length (make_dsu n).parent ≡ n)
      × ((i : ℕ) → i < n → root (make_dsu n).parent i ≡ i)
unfolding make_dsu
make_dsu_singletons n = (
  own_parents-IsForest n,
  length-own_parents n 0,
  λ i h.
      root_of_root (own_parents n 0) (own_parents-IsForest n) i
        (omega (arith, length-own_parents n 0)) (get_or-own_parents n 0 i h ∙ omega arith),
)

-- A search that returned the root of `i` and changed no root and no size.
abbrev pub FindsSet : ℕ → Dsu → Option (ℕ × Dsu) → Type 0
FindsSet i d r =
    (d' : Dsu) × (r ≡ some (root d.parent i, d'))
    × IsForest d'.parent
    × SameRoots d.parent d'.parent
    × (d'.size ≡ d.size)

pub find_set_lem :
    (i : ℕ) (d : Dsu) → IsForest d.parent → i < length d.parent → FindsSet i d (find_set i d)
unfolding find_set
find_set_lem i d forest lt =
    let (qs, found, forest', same) = find_total d.parent i forest lt in
    (record d { parent = qs }, rw (found, find_set) refl, forest', same, refl)

-- The roots that stay and go when the classes of `i` and `j` are joined, by their sizes.
abbrev pub winner : Dsu → ℕ → ℕ → ℕ
winner d a b = if ltb (get_or d.size a 0) (get_or d.size b 0) then b else a

abbrev pub loser : Dsu → ℕ → ℕ → ℕ
loser d a b = if ltb (get_or d.size a 0) (get_or d.size b 0) then a else b

link-parent : (a b : ℕ) (d : Dsu) → (link a b d).parent ≡ set d.parent (loser d a b) (winner d a b)
unfolding link
link-parent a b d = refl

set-parent_of : (ps : List ℕ) (i : ℕ) → parent_of ps i ≡ i → set ps i i ≡ ps
set-parent_of [] i e = refl
set-parent_of (q ∷ ps) zero e = ap (λ x. x ∷ ps) (sym e)
set-parent_of (q ∷ ps) (suc i) e = ap (λ xs. q ∷ xs) (set-get_or ps i (suc i) e)
  where
    set-get_or : (ps : List ℕ) (i v : ℕ) → get_or ps i 0 ≡ v → set ps i v ≡ ps
    set-get_or [] i v e = refl
    set-get_or (q ∷ ps) zero v e = ap (λ x. x ∷ ps) (sym e)
    set-get_or (q ∷ ps) (suc i) v e = ap (λ xs. q ∷ xs) (set-get_or ps i v e)

-- The roots after the classes with roots `a` and `b` are joined.
abbrev pub joined : Dsu → ℕ → ℕ → ℕ → ℕ
joined d a b r = if r == loser d a b then winner d a b else r

abbrev pub Joins : ℕ → ℕ → Dsu → Dsu → Type 0
Joins a b d d' =
    IsForest d'.parent
    × (length d'.parent ≡ length d.parent)
    × ((k : ℕ) → k < length d.parent → root d'.parent k ≡ joined d a b (root d.parent k))

link-hang :
    (ps : List ℕ) (f : IsForest ps) (a b : ℕ)
    → a < length ps
    → b < length ps
    → parent_of ps a ≡ a
    → parent_of ps b ≡ b
    → IsForest (set ps b a)
      × (length (set ps b a) ≡ length ps)
      × ((k : ℕ) → k < length ps → root (set ps b a) k ≡ (if root ps k == b then a else root ps k))
link-hang ps f a b a-lt b-lt a_root b_root = elim (Bool-cases (a == b)) [
  | inl e ↦
      let same : set ps b a ≡ ps = ap (set ps b) ((==_iff a b).0 e) ∙ set-parent_of ps b b_root in
      rw same (f, refl, λ k h. ground arith)
  | inr e ↦
      let ne : a ≢ b = ground arith in
      (
        hang-IsForest ps f a b a-lt b-lt a_root b_root ne,
        length-set ps b a,
        root-hang ps f a b a-lt b-lt a_root b_root ne,
      )
]

pub link_lem :
    (a b : ℕ) (d : Dsu)
    → IsForest d.parent
    → a < length d.parent
    → b < length d.parent
    → parent_of d.parent a ≡ a
    → parent_of d.parent b ≡ b
    → Joins a b d (link a b d)
unfolding link
link_lem a b d f a-lt b-lt a_root b_root =
    elim (Bool-cases (ltb (get_or d.size a 0) (get_or d.size b 0))) [
      | inl e ↦ rw e (link-hang d.parent f b a b-lt a-lt b_root a_root)
      | inr e ↦ rw e (link-hang d.parent f a b a-lt b-lt a_root b_root)
    ]

union_set-found :
    (i j : ℕ) (d d' d'' : Dsu) (a b : ℕ)
    → find_set i d ≡ some (a, d')
    → find_set j d' ≡ some (b, d'')
    → union_set i j d ≡ some (link a b d'')
unfolding union_set
union_set-found i j d d' d'' a b e e' = rw (e, e', union_set) refl

joined_size : (d d' : Dsu) (a b r : ℕ) → d'.size ≡ d.size → joined d' a b r ≡ joined d a b r
joined_size d d' a b r e =
    ap
      (λ (s : List ℕ).
        if r == (if ltb (get_or s a 0) (get_or s b 0) then a else b)
        then (if ltb (get_or s a 0) (get_or s b 0) then b else a)
        else r)
      e

-- For a forest and two nodes `i` and `j` of it, a union returns a forest of as many nodes, where
-- the nodes whose root was the smaller of the two roots (by size, the second if they are equal) have
-- the other one as root and all other nodes keep theirs.
pub union_set_lem :
    (i j : ℕ) (d : Dsu)
    → IsForest d.parent
    → i < length d.parent
    → j < length d.parent
    → (d' : Dsu) × (union_set i j d ≡ some d') × Joins (root d.parent i) (root d.parent j) d d'
union_set_lem i j d f i-lt j-lt =
    let (d1, e1, f1, same1, size1) = find_set_lem i d f i-lt in
    let j-lt1 : j < length d1.parent = omega (arith, same1.size) in
    let (d2, e2, f2, same2, size2) = find_set_lem j d1 f1 j-lt1 in
    let same = SameRoots-trans d.parent d1.parent d2.parent same1 same2 in
    let i-lt2 : i < length d2.parent = omega (arith, same.size) in
    let j-lt2 : j < length d2.parent = omega (arith, same.size) in
    let a = root d.parent i in
    let b = root d1.parent j in
    let a_eq : root d2.parent i ≡ a = same.roots i i-lt in
    let b_eq : root d2.parent j ≡ b = same2.roots j j-lt1 in
    let (g, size, roots) =
      link_lem a b d2 f2 (subst (λ r. r < length d2.parent) a_eq (root-lt d2.parent f2 i i-lt2))
        (subst (λ r. r < length d2.parent) b_eq (root-lt d2.parent f2 j j-lt2))
        (subst (λ r. parent_of d2.parent r ≡ r) a_eq (parent_of-root d2.parent f2 i i-lt2))
        (subst (λ r. parent_of d2.parent r ≡ r) b_eq (parent_of-root d2.parent f2 j j-lt2)) in
    let b_old : b ≡ root d.parent j = same1.roots j j-lt in
    (
      link a b d2,
      union_set-found i j d d1 d2 a b e1 e2,
      (
        g,
        size ∙ same.size,
        λ k h.
            roots k (omega (arith, same.size))
            ∙ ap (joined d2 a b) (same.roots k h)
            ∙ joined_size d d2 a b (root d.parent k) (size2 ∙ size1)
            ∙ ap (λ x. joined d a x (root d.parent k)) b_old,
      ),
    )

-- If a forest and two nodes `i` and `j` of it are given, then after a union of `i` and `j` two
-- nodes of the forest have the same root just when they had before, or one was in the class of `i`
-- and the other in the class of `j`.
pub union_set_classes :
    (i j : ℕ) (d d' : Dsu)
    → IsForest d.parent
    → i < length d.parent
    → j < length d.parent
    → union_set i j d ≡ some d'
    → (k l : ℕ) → k < length d.parent
    → l < length d.parent
    → (root d'.parent k ≡ root d'.parent l) ↔ (
        (root d.parent k ≡ root d.parent l)
        ⊎ ((root d.parent k ≡ root d.parent i) × (root d.parent l ≡ root d.parent j)
            ⊎ (root d.parent k ≡ root d.parent j) × (root d.parent l ≡ root d.parent i)))
union_set_classes i j d d' f i-lt j-lt e k l k-lt l-lt =
    let (d2, e2, joins) = union_set_lem i j d f i-lt j-lt in
    let (g, size, roots) =
      subst (Joins (root d.parent i) (root d.parent j) d) (some-injective _ _ (sym e2 ∙ e)) joins in
    let at_k = roots k k-lt in
    let at_l = roots l l-lt in (λ h. ground (arith, at_k, at_l), λ h. ground (arith, at_k, at_l))
