-- ===== src/Graph/Update/Cut.antt =====
-- What the vertices of a set keep of the updates together: the edges that leave the set.
use hyper_graph_streaming_cc.Prelude.{
  ℕ, zero, suc, ◌+◌, ◌%◌, ◌<◌, ◌≡◌, refl, ap, List, [], ◌∷◌, ◌++◌, map, arith, Bool, ◌==◌, ==_iff,
  ltb, Bool-cases, inl, inr, if◌then◌else◌,
}
use hyper_graph_streaming_cc.Arrays.Cells.{count, count-append}
use hyper_graph_streaming_cc.Platform.{Platform}
use hyper_graph_streaming_cc.Sketch.Parity.{SameParity}
use hyper_graph_streaming_cc.Supernode.Defs.{Edge}
use hyper_graph_streaming_cc.Graph.Update.{edge_code}

-- What `update` hands to the guttering system for a sequence of edges.
unfoldable pub both : List Edge → List Edge
both [] = []
both (e ∷ es) = e ∷ (e.1, e.0) ∷ both es

-- The destinations that the guttering system gathers for vertex `k`.
unfoldable pub destinations : ℕ → List Edge → List ℕ
destinations k [] = []
destinations k (e ∷ es) = let rest = destinations k es in if e.0 == k then e.1 ∷ rest else rest

-- The endpoints are among the first `n` vertices.
abbrev pub InRange : ℕ → List Edge → Type 0
InRange n [] = Unit {0}
InRange n (e ∷ es) = ((e.0 < n) × (e.1 < n)) × InRange n es

module _ (p : Platform) where
  abbrev pub stream : ℕ → List Edge → List ℕ
  stream k gts = map (edge_code p k) (destinations k gts)

  -- The streams of the vertices of a set, among the `count` vertices from `k` on.
  unfoldable pub streams_of : (ℕ → Bool) → ℕ → ℕ → List Edge → List ℕ
  streams_of inside zero k gts = []
  streams_of inside (suc count) k gts =
      let rest = streams_of inside count (suc k) gts in
      if inside k then stream k gts ++ rest else rest

  -- The codes of the edges with one endpoint inside and one outside.
  unfoldable pub cut : (ℕ → Bool) → List Edge → List ℕ
  cut inside [] = []
  cut inside (e ∷ es) =
      let rest = cut inside es in
      if inside e.0
      then (if inside e.1 then rest else edge_code p e.0 e.1 ∷ rest)
      else (if inside e.1 then edge_code p e.0 e.1 ∷ rest else rest)

  pub edge_code_symm : (u v : ℕ) → edge_code p u v ≡ edge_code p v u
  unfolding edge_code
  edge_code_symm u v = ground arith

  abbrev hit : ℕ → Edge → ℕ
  hit y e = if edge_code p e.0 e.1 == y then 1 else 0

  count-stream :
      (y k : ℕ) (e : Edge) (gts : List Edge)
      → count y (stream k (e ∷ gts)) ≡ (if e.0 == k then hit y e else 0) + count y (stream k gts)
  unfolding destinations count
  count-stream y k e gts = elim (Bool-cases (e.0 == k)) [
    | inl same ↦ rw same (rw (ap (λ t. edge_code p t e.1) ((==_iff e.0 k).0 same)) (ground arith))
    | inr other ↦ rw other (omega arith)
  ]

  abbrev member : (ℕ → Bool) → ℕ → ℕ → ℕ → ℕ → ℕ
  member inside m k i v =
      if ltb i k then 0 else (if ltb i (k + m) then (if inside i then v else 0) else 0)

  member-suc :
      (inside : ℕ → Bool) (m k i v : ℕ)
      → member inside (suc m) k i v
        ≡ (if inside k then (if i == k then v else 0) else 0) + member inside m (suc k) i v
  member-suc inside m k i v = elim (Bool-cases (i == k)) [
    | inl same ↦
        let at : inside i ≡ inside k = ap inside ((==_iff i k).0 same) in
        rw (same, at) (ground arith)
    | inr other ↦ rw other (ground arith)
  ]

  count-streams_of :
      (inside : ℕ → Bool) (y m k : ℕ) (e : Edge) (gts : List Edge)
      → count y (streams_of inside m k (e ∷ gts))
        ≡ member inside m k e.0 (hit y e) + count y (streams_of inside m k gts)
  unfolding streams_of
  count-streams_of inside y zero k e gts = ground arith
  count-streams_of inside y (suc m) k e gts = elim (Bool-cases (inside k)) [
    | inl is_in ↦ rw is_in (
        rw (count-append y (stream k (e ∷ gts)) (streams_of inside m (suc k) (e ∷ gts))) (
          rw (count-append y (stream k gts) (streams_of inside m (suc k) gts)) (
            rw (member-suc inside m k e.0 (hit y e), is_in)
              (omega (arith, count-stream y k e gts, count-streams_of inside y m (suc k) e gts)))))
    | inr is_out ↦ rw is_out (
        rw (member-suc inside m k e.0 (hit y e), is_out)
          (omega (arith, count-streams_of inside y m (suc k) e gts)))
  ]

  streams_of_none : (inside : ℕ → Bool) (m k : ℕ) → streams_of inside m k [] ≡ []
  unfolding streams_of destinations
  streams_of_none inside zero k = refl
  streams_of_none inside (suc m) k = elim (Bool-cases (inside k)) [
    | inl e ↦ rw e (streams_of_none inside m (suc k))
    | inr e ↦ rw e (streams_of_none inside m (suc k))
  ]

  cut_step :
      (inside : ℕ → Bool) (n : ℕ) (y : ℕ) (e : Edge) (es : List Edge)
      → e.0 < n
      → e.1 < n
      → count y (streams_of inside n 0 (both (e ∷ es)))
        ≡ ((if inside e.0 then hit y e else 0) + (if inside e.1 then hit y e else 0))
          + count y (streams_of inside n 0 (both es))
  unfolding both
  cut_step inside n y e es u-lt v-lt =
      let first = count-streams_of inside y n 0 e ((e.1, e.0) ∷ both es) in
      let second = count-streams_of inside y n 0 (e.1, e.0) (both es) in
      ground (arith, first, second, edge_code_symm e.0 e.1)

  count-cut :
      (inside : ℕ → Bool) (y : ℕ) (e : Edge) (es : List Edge)
      → count y (cut inside (e ∷ es))
        ≡ (if inside e.0
            then (if inside e.1 then 0 else hit y e)
            else (if inside e.1 then hit y e else 0))
          + count y (cut inside es)
  unfolding cut count
  count-cut inside y e es = ground arith

  -- For a set of the first `n` vertices and edges among them, each handed over in both
  -- orientations: the streams of the vertices inside, taken together, have every code as often,
  -- modulo 2, as the edges with one end inside and one outside.
  pub cut_parity :
      (inside : ℕ → Bool) (n : ℕ) (es : List Edge)
      → InRange n es
      → SameParity (streams_of inside n 0 (both es)) (cut inside es)
  unfolding cut both count
  cut_parity inside n [] h y = ap (λ xs. count y xs % 2) (streams_of_none inside n 0)
  cut_parity inside n (e ∷ es) h y =
      let rest = cut_parity inside n es h.1 y in
      let step = cut_step inside n y e es h.0.0 h.0.1 in
      ground (arith, rest, step, count-cut inside y e es)
