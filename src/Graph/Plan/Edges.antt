-- ===== src/Graph/Plan/Edges.antt =====
-- What one sampled edge does to the forest: the roots of its endpoints are joined.
use hyper_graph_streaming_cc.Prelude.{
  ℕ, ◌<◌, ◌≡◌, ◌≢◌, refl, ap, ◌∙◌, sym, subst, List, arith, length, some, Bool, true, ◌==◌, ==_iff,
  ltb, Bool-cases, inl, inr, ◌⊎◌, if◌then◌else◌, get_or, set,
}
use hyper_graph_streaming_cc.Forest.{parent_of, root}
use hyper_graph_streaming_cc.Forest.Root.{IsForest, root-lt, parent_of-root, root_of_root}
use hyper_graph_streaming_cc.Forest.Writes.{SameRoots}
use hyper_graph_streaming_cc.Forest.Find.{find_total, SameRoots-trans}
use hyper_graph_streaming_cc.Supernode.Defs.{Edge}
use hyper_graph_streaming_cc.Graph.Plan.{Plan, get_parent, collect, join, join_edge}
use hyper_graph_streaming_cc.Graph.Plan.Step.{Tracks, find-Tracks, hung-root, hang-Tracks}

-- The roots of the two endpoints are one root now, and any labelling of the vertices that is
-- constant on the sets before and on the edge is constant on the sets after.
pub record JoinsEdge (old : List ℕ) (edge : Edge) (plan plan' : Plan) : Type 0 where
  pub tracks : Tracks old plan'
  pub same_reps : plan'.new_reps ≡ plan.new_reps
  pub over : (k : ℕ) → k < length old → root plan'.parent (root plan.parent k) ≡ root plan'.parent k
  pub ends : root plan'.parent edge.0 ≡ root plan'.parent edge.1
  pub least :
      (f : ℕ → ℕ)
      → ((k : ℕ) → k < length old → f (root plan.parent k) ≡ f k)
      → f edge.0 ≡ f edge.1
      → (k : ℕ) → k < length old
      → f (root plan'.parent k) ≡ f k

module _ (old : List ℕ) (edge : Edge) (plan : Plan) (h : Tracks old plan)
    (u-lt : edge.0 < length old) (v-lt : edge.1 < length old) where
  lt : {k : ℕ} → k < length old → k < length plan.parent
  lt k-lt = omega (arith, h.nodes)

  top-lt : (k : ℕ) → k < length old → root plan.parent k < length old
  top-lt k k-lt = omega (arith, root-lt plan.parent h.forest k (lt k-lt), h.nodes)

  top : (k : ℕ) → k < length old → parent_of plan.parent (root plan.parent k) ≡ root plan.parent k
  top k k-lt = parent_of-root plan.parent h.forest k (lt k-lt)

  top_twice : (k : ℕ) → k < length old → root plan.parent (root plan.parent k) ≡ root plan.parent k
  top_twice k k-lt =
      root_of_root plan.parent h.forest (root plan.parent k) (lt (top-lt k k-lt)) (top k k-lt)

  -- `a` and `b` are the two roots, in one order or the other.
  hang-JoinsEdge :
      (a b : ℕ) (size : List ℕ) (modified : Bool)
      → ((a ≡ root plan.parent edge.0) × (b ≡ root plan.parent edge.1))
        ⊎ ((a ≡ root plan.parent edge.1) × (b ≡ root plan.parent edge.0))
      → a ≢ b
      → JoinsEdge old edge plan (record plan {
        parent = set plan.parent b a;
        size = size;
        to_merge = collect a b plan.to_merge;
        modified = modified;
      })
  hang-JoinsEdge a b size modified which ne =
      let a-lt : a < length old = ground (arith, top-lt edge.0 u-lt, top-lt edge.1 v-lt) in
      let b-lt : b < length old = ground (arith, top-lt edge.0 u-lt, top-lt edge.1 v-lt) in
      let a_root : parent_of plan.parent a ≡ a = ground (arith, top edge.0 u-lt, top edge.1 v-lt) in
      let b_root : parent_of plan.parent b ≡ b = ground (arith, top edge.0 u-lt, top edge.1 v-lt) in
      let at = hung-root old plan h a b a-lt b-lt a_root b_root ne in
      record {
        tracks = hang-Tracks old plan h a b a-lt b-lt a_root b_root ne size modified;
        same_reps = refl;
        over = λ k k-lt.
            at (root plan.parent k) (top-lt k k-lt) ∙ rw (top_twice k k-lt) (sym (at k k-lt));
        ends = at edge.0 u-lt ∙ ground arith ∙ sym (at edge.1 v-lt);
        least = λ f const same k k-lt.
            ap f (at k k-lt) ∙ ground (arith, const k k-lt, const edge.0 u-lt, const edge.1 v-lt);
      }

  join-JoinsEdge :
      root plan.parent edge.0 ≢ root plan.parent edge.1
      → JoinsEdge old edge plan (join (root plan.parent edge.0) (root plan.parent edge.1) plan)
  unfolding join
  join-JoinsEdge ne =
      let a = root plan.parent edge.0 in
      let b = root plan.parent edge.1 in
      elim (Bool-cases (ltb (get_or plan.size a 0) (get_or plan.size b 0))) [
        | inl e ↦ rw e (hang-JoinsEdge b a _ true (inr (refl, refl)) (λ same. ne (sym same)))
        | inr e ↦ rw e (hang-JoinsEdge a b _ true (inl (refl, refl)) ne)
      ]

  stay-JoinsEdge : root plan.parent edge.0 ≡ root plan.parent edge.1 → JoinsEdge old edge plan plan
  stay-JoinsEdge e = record {
    tracks = h;
    same_reps = refl;
    over = top_twice;
    ends = e;
    least = λ f const same k k-lt. const k k-lt;
  }

-- A join after searches that kept the roots.
JoinsEdge-same :
    (old : List ℕ) (edge : Edge) (plan plan' : Plan) (ps : List ℕ)
    → length plan.parent ≡ length old
    → SameRoots plan.parent ps
    → IsForest plan.parent
    → JoinsEdge old edge (record plan { parent = ps }) plan'
    → JoinsEdge old edge plan plan'
JoinsEdge-same old edge plan plan' ps size same f j =
    let at : (k : ℕ) → k < length old → root ps k ≡ root plan.parent k =
      λ k lt. same.roots k (omega (arith, size)) in
    record {
      tracks = j.tracks;
      same_reps = j.same_reps;
      over = λ k lt. subst (λ r. root plan'.parent r ≡ root plan'.parent k) (at k lt) (j.over k lt);
      ends = j.ends;
      least = λ g const same_ends. j.least g (λ k lt. ap g (at k lt) ∙ const k lt) same_ends;
    }

pub join_edge-found :
    (edge : Edge) (plan : Plan) (a b : ℕ) (ps qs : List ℕ)
    → get_parent plan.parent edge.0 ≡ some (a, ps)
    → get_parent ps edge.1 ≡ some (b, qs)
    → join_edge edge plan
      ≡ some
          (if a == b then record plan { parent = qs } else join a b (record plan { parent = qs }))
unfolding join_edge
join_edge-found edge plan a b ps qs e e' = elim (Bool-cases (a == b)) [
  | inl same ↦ rw (e, join_edge) (rw e' (rw same refl))
  | inr other ↦ rw (e, join_edge) (rw e' (rw other refl))
]

pub get_parent-found :
    (ps : List ℕ) (i : ℕ)
    → IsForest ps
    → i < length ps
    → (qs : List ℕ) × (get_parent ps i ≡ some (root ps i, qs)) × IsForest qs × SameRoots ps qs
unfolding get_parent
get_parent-found ps i f lt = find_total ps i f lt

-- A sampled edge between vertices of the graph is handled without a failure.
pub join_edge_lem :
    (old : List ℕ) (edge : Edge) (plan : Plan)
    → Tracks old plan
    → edge.0 < length old
    → edge.1 < length old
    → (plan' : Plan) × (join_edge edge plan ≡ some plan') × JoinsEdge old edge plan plan'
join_edge_lem old edge plan h u-lt v-lt =
    let u-lt' : edge.0 < length plan.parent = omega (arith, h.nodes) in
    let v-lt' : edge.1 < length plan.parent = omega (arith, h.nodes) in
    let (ps, e, f, same) = get_parent-found plan.parent edge.0 h.forest u-lt' in
    let (qs, e', f', same') = get_parent-found ps edge.1 f (omega (arith, same.size)) in
    let both = SameRoots-trans plan.parent ps qs same same' in
    let found = record plan { parent = qs } in
    let tracks : Tracks old found = find-Tracks old plan qs h f' both in
    let a_eq : root plan.parent edge.0 ≡ root qs edge.0 = sym (both.roots edge.0 u-lt') in
    let b_eq : root ps edge.1 ≡ root qs edge.1 =
      sym (same'.roots edge.1 (omega (arith, same.size))) in
    let result =
      join_edge-found edge plan (root plan.parent edge.0) (root ps edge.1) ps qs e e'
      ∙ ap (λ a. some (if a == root ps edge.1 then found else join a (root ps edge.1) found)) a_eq
      ∙ ap (λ b. some (if root qs edge.0 == b then found else join (root qs edge.0) b found))
          b_eq in
    let back : (plan' : Plan) → JoinsEdge old edge found plan' → JoinsEdge old edge plan plan' =
      λ plan' j. JoinsEdge-same old edge plan plan' qs h.nodes both h.forest j in
    elim (Bool-cases (root qs edge.0 == root qs edge.1)) [
      | inl one ↦ (
        found,
        result ∙ rw one refl,
        back found (stay-JoinsEdge old edge found tracks u-lt v-lt ((==_iff _ _).0 one)),
      )
      | inr two ↦
          let ends = join (root qs edge.0) (root qs edge.1) found in
          (
            ends,
            result ∙ rw two refl,
            back ends (join-JoinsEdge old edge found tracks u-lt v-lt (ground arith)),
          )
    ]
