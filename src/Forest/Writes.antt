-- ===== src/Forest/Writes.antt =====
-- The two writes to a parent array: shortening a path, and hanging one root under another.
use hyper_graph_streaming_cc.Prelude.{
  ℕ, zero, suc, ◌+◌, ◌<◌, max, ◌≡◌, ◌≢◌, ap, ◌∙◌, sym, List, [], ◌∷◌, arith, length, get_or, set,
  ◌==◌, ==_iff, Bool-cases, inl, inr, if◌then◌else◌, length-set, get_or-set, subst, ==_refl,
}
use hyper_graph_streaming_cc.Forest.{parent_of, root}
use hyper_graph_streaming_cc.Forest.Root.{
  IsForest, non_roots_from, root-lt, parent_of-root, rank-root, root_unique, root_of_root,
  root-parent_of,
}

non_roots_from-set :
    (k : ℕ) (ps : List ℕ) (i v : ℕ)
    → i < length ps
    → non_roots_from k (set ps i v) + (if get_or ps i 0 == k + i then 0 else 1)
      ≡ non_roots_from k ps + (if v == k + i then 0 else 1)
unfolding non_roots_from
non_roots_from-set k [] i v h = absurd (omega arith)
non_roots_from-set k (q ∷ ps) zero v h = ground arith
non_roots_from-set k (q ∷ ps) (suc i) v h =
    ground (arith, non_roots_from-set (suc k) ps i v (omega arith))

-- The same nodes, with the same roots.
pub record SameRoots (ps qs : List ℕ) : Type 0 where
  pub size : length qs ≡ length ps
  pub roots : (i : ℕ) → i < length ps → root qs i ≡ root ps i

module _ (ps : List ℕ) (f : IsForest ps) (i : ℕ) (lt : i < length ps)
    (inner : parent_of ps i ≢ i) where
  root-ne : root ps i ≢ i
  root-ne e = inner (ap (parent_of ps) (sym e) ∙ parent_of-root ps f i lt ∙ e)

  rank-lt : f.rank i < f.rank (root ps i)
  rank-lt = omega (
    arith,
    f.climbs i lt inner,
    rank-root ps f (parent_of ps i) (f.in_range i lt),
    ap f.rank (root-parent_of ps f i lt),
  )

  abbrev shortened : List ℕ
  shortened = set ps i (root ps i)

  -- A node that is no root may be hung under its root.
  pub shorten-IsForest : IsForest shortened
  shorten-IsForest = record {
    rank = f.rank;
    in_range = λ j h. ground (
      arith,
      length-set ps i (root ps i),
      get_or-set ps i j (root ps i) 0,
      f.in_range j,
      root-lt ps f i lt,
    );
    climbs = λ j h ne.
        ground (
          arith,
          length-set ps i (root ps i),
          get_or-set ps i j (root ps i) 0,
          f.climbs j,
          rank-lt,
        );
    bounded = λ j h. ground (
      arith,
      length-set ps i (root ps i),
      non_roots_from-set 0 ps i (root ps i) lt,
      f.bounded j,
      root-ne,
    );
  }

  pub shorten-SameRoots : SameRoots ps shortened
  shorten-SameRoots = record {
    size = length-set ps i (root ps i);
    roots = λ j h.
        root_unique shortened shorten-IsForest (root ps)
          (λ k hk e. ground (
            arith,
            length-set ps i (root ps i),
            get_or-set ps i k (root ps i) 0,
            root_of_root ps f k,
            root-ne,
          ))
          (λ k hk. ground (
            arith,
            length-set ps i (root ps i),
            get_or-set ps i k (root ps i) 0,
            root-parent_of ps f k,
            root_of_root ps f (root ps i),
            root-lt ps f i lt,
            parent_of-root ps f i lt,
          ))
          j (rw length-set h);
  }

module _ (ps : List ℕ) (f : IsForest ps) (a b : ℕ) (a-lt : a < length ps) (b-lt : b < length ps)
    (a_root : parent_of ps a ≡ a) (b_root : parent_of ps b ≡ b) (distinct : a ≢ b) where
  abbrev hung : List ℕ
  hung = set ps b a

  abbrev hung_rank : ℕ → ℕ
  hung_rank x = if x == a then max (f.rank a) (f.rank b + 1) else f.rank x

  -- A root may be hung under another.
  pub hang-IsForest : IsForest hung
  hang-IsForest = record {
    rank = hung_rank;
    in_range = λ j h. ground (arith, length-set ps b a, get_or-set ps b j a 0, f.in_range j);
    climbs = λ j h ne. elim (Bool-cases (b == j)) [
      | inl e ↦
          subst (λ x. hung_rank x < hung_rank (parent_of hung x)) ((==_iff b j).0 e)
            (rw (get_or-set ps b b a 0 b-lt, ==_refl b) (ground arith))
      | inr e ↦
          let same : parent_of hung j ≡ parent_of ps j = get_or-set ps b j a 0 b-lt ∙ (rw e) in
          rw same (ground (arith, f.climbs j, length-set ps b a))
    ];
    bounded = λ j h. ground (
      arith,
      length-set ps b a,
      non_roots_from-set 0 ps b a b-lt,
      f.bounded j,
      f.bounded a,
      f.bounded b,
    );
  }

  -- The nodes under `b` have root `a` now, and all others the root they had.
  pub root-hang : (j : ℕ) → j < length ps → root hung j ≡ (if root ps j == b then a else root ps j)
  root-hang j h =
      root_unique hung hang-IsForest (λ k. if root ps k == b then a else root ps k)
        (λ k hk e. ground (arith, length-set ps b a, get_or-set ps b k a 0, root_of_root ps f k))
        (λ k hk. ground (
          arith,
          length-set ps b a,
          get_or-set ps b k a 0,
          root-parent_of ps f k,
          root_of_root ps f a,
          root_of_root ps f b,
        ))
        j (rw length-set h)
