-- ===== src/Forest/Root.antt =====
-- Forests, and the root of a node.
use hyper_graph_streaming_cc.Prelude.{
  false, ℕ, zero, suc, ◌+◌, ◌≤◌, ◌<◌, ◌≡◌, ◌≢◌, refl, ap, ◌∙◌, sym, List, [], ◌∷◌, arith, length,
  ◌==◌, ==_iff, Bool-cases, inl, inr, if◌then◌else◌,
}
use hyper_graph_streaming_cc.Forest.{parent_of, climb, root}

-- The entries from `k` on that are not their own parent.
unfoldable pub non_roots_from : ℕ → List ℕ → ℕ
non_roots_from k [] = 0
non_roots_from k (q ∷ ps) = (if q == k then 0 else 1) + non_roots_from (suc k) ps

abbrev pub non_roots : List ℕ → ℕ
non_roots ps = non_roots_from 0 ps

pub non_roots_from-le-length : (k : ℕ) (ps : List ℕ) → non_roots_from k ps ≤ length ps
unfolding non_roots_from
non_roots_from-le-length k [] = omega arith
non_roots_from-le-length k (q ∷ ps) = ground (arith, non_roots_from-le-length (suc k) ps)

-- Every parent is a node, and a rank grows along the parents, up to the number of nodes that have
-- one.
pub record IsForest (ps : List ℕ) : Type 0 where
  pub rank : ℕ → ℕ
  pub in_range : (i : ℕ) → i < length ps → parent_of ps i < length ps
  pub climbs : (i : ℕ) → i < length ps → parent_of ps i ≢ i → rank i < rank (parent_of ps i)
  pub bounded : (i : ℕ) → i < length ps → rank i ≤ non_roots ps

module _ (ps : List ℕ) (f : IsForest ps) where
  -- With enough fuel the climb ends at a root; a function that is constant along parents and fixes
  -- the roots is what it computes.
  climb_lem :
      (fuel i : ℕ)
      → i < length ps
      → non_roots ps ≤ f.rank i + fuel
      → (climb fuel ps i < length ps)
        × (parent_of ps (climb fuel ps i) ≡ climb fuel ps i)
        × (f.rank i ≤ f.rank (climb fuel ps i))
  unfolding climb
  climb_lem zero i lt h = elim (Bool-cases (parent_of ps i == i)) [
    | inl e ↦ (lt, (==_iff _ _).0 e, omega arith)
    | inr e ↦ absurd (ground (arith, f.climbs i lt, f.in_range i lt, f.bounded (parent_of ps i)))
  ]
  climb_lem (suc fuel) i lt h = elim (Bool-cases (parent_of ps i == i)) [
    | inl e ↦ rw e (lt, (==_iff _ _).0 e, omega arith)
    | inr e ↦
        let up = f.climbs i lt (ground arith) in
        let (a, b, c) = climb_lem fuel (parent_of ps i) (f.in_range i lt) (omega arith) in
        rw e (a, b, omega arith)
  ]

  climb_unique :
      (g : ℕ → ℕ)
      → ((i : ℕ) → i < length ps → parent_of ps i ≡ i → g i ≡ i)
      → ((i : ℕ) → i < length ps → g (parent_of ps i) ≡ g i)
      → (fuel i : ℕ) → i < length ps
      → non_roots ps ≤ f.rank i + fuel
      → climb fuel ps i ≡ g i
  unfolding climb
  climb_unique g fixed along zero i lt h = elim (Bool-cases (parent_of ps i == i)) [
    | inl e ↦ sym (fixed i lt ((==_iff _ _).0 e))
    | inr e ↦ absurd (ground (arith, f.climbs i lt, f.in_range i lt, f.bounded (parent_of ps i)))
  ]
  climb_unique g fixed along (suc fuel) i lt h = elim (Bool-cases (parent_of ps i == i)) [
    | inl e ↦ rw e (sym (fixed i lt ((==_iff _ _).0 e)))
    | inr e ↦
        let up = f.climbs i lt (ground arith) in
        rw e (
          climb_unique g fixed along fuel (parent_of ps i) (f.in_range i lt) (omega arith)
          ∙ along i lt)
  ]

  climb_at_root : (fuel i : ℕ) → parent_of ps i ≡ i → climb fuel ps i ≡ i
  unfolding climb
  climb_at_root zero i e = refl
  climb_at_root (suc fuel) i e = rw ((==_iff (parent_of ps i) i).1 e)

  climb-suc :
      (fuel i : ℕ)
      → (parent_of ps i == i) ≡ false
      → climb (suc fuel) ps i ≡ climb fuel ps (parent_of ps i)
  unfolding climb
  climb-suc fuel i e = rw e

  climb_fuel :
      (fuel i : ℕ)
      → i < length ps
      → non_roots ps ≤ f.rank i + fuel
      → climb (suc fuel) ps i ≡ climb fuel ps i
  climb_fuel zero i lt h = elim (Bool-cases (parent_of ps i == i)) [
    | inl e ↦ climb_at_root 1 i ((==_iff _ _).0 e) ∙ sym (climb_at_root 0 i ((==_iff _ _).0 e))
    | inr e ↦ absurd (ground (arith, f.climbs i lt, f.in_range i lt, f.bounded (parent_of ps i)))
  ]
  climb_fuel (suc fuel) i lt h = elim (Bool-cases (parent_of ps i == i)) [
    | inl e ↦
        climb_at_root (suc (suc fuel)) i ((==_iff _ _).0 e)
        ∙ sym (climb_at_root (suc fuel) i ((==_iff _ _).0 e))
    | inr e ↦
        let up = f.climbs i lt (ground arith) in
        let next = climb_fuel fuel (parent_of ps i) (f.in_range i lt) (omega arith) in
        climb-suc (suc fuel) i e ∙ next ∙ sym (climb-suc fuel i e)
  ]

  fuel_fits : (i : ℕ) → non_roots ps ≤ f.rank i + length ps
  fuel_fits i = omega (arith, non_roots_from-le-length 0 ps)

  pub root-lt : (i : ℕ) → i < length ps → root ps i < length ps
  unfolding root
  root-lt i lt = (climb_lem (length ps) i lt (fuel_fits i)).0

  pub parent_of-root : (i : ℕ) → i < length ps → parent_of ps (root ps i) ≡ root ps i
  unfolding root
  parent_of-root i lt = (climb_lem (length ps) i lt (fuel_fits i)).1

  pub rank-root : (i : ℕ) → i < length ps → f.rank i ≤ f.rank (root ps i)
  unfolding root
  rank-root i lt = (climb_lem (length ps) i lt (fuel_fits i)).2

  pub root_unique :
      (g : ℕ → ℕ)
      → ((i : ℕ) → i < length ps → parent_of ps i ≡ i → g i ≡ i)
      → ((i : ℕ) → i < length ps → g (parent_of ps i) ≡ g i)
      → (i : ℕ) → i < length ps
      → root ps i ≡ g i
  unfolding root
  root_unique g fixed along i lt = climb_unique g fixed along (length ps) i lt (fuel_fits i)

  pub root_of_root : (i : ℕ) → i < length ps → parent_of ps i ≡ i → root ps i ≡ i
  unfolding root
  root_of_root i lt e = climb_at_root (length ps) i e

  pub root-parent_of : (i : ℕ) → i < length ps → root ps (parent_of ps i) ≡ root ps i
  unfolding root
  root-parent_of i lt = elim (Bool-cases (parent_of ps i == i)) [
    | inl e ↦ ap (climb (length ps) ps) ((==_iff _ _).0 e)
    | inr e ↦
        let more = climb_fuel (length ps) i lt (fuel_fits i) in
        sym (sym more ∙ climb-suc (length ps) i e)
  ]
