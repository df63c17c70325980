-- ===== src/Graph/Plan/Step.antt =====
-- What the variables of `supernodes_to_merge` say of the sets that the samples have joined so far.
use hyper_graph_streaming_cc.Prelude.{
  ℕ, ◌+◌, ◌<◌, ◌≡◌, ◌≢◌, refl, ap, ap₂, ◌∙◌, sym, List, [], ◌∷◌, ◌++◌, arith, length, Bool, ◌==◌,
  ==_refl, ltb, if◌then◌else◌, set, length-set, get_or-set,
}
use hyper_graph_streaming_cc.Arrays.Cells.{count, count-append}
use hyper_graph_streaming_cc.Forest.{parent_of, root}
use hyper_graph_streaming_cc.Forest.Root.{IsForest, root-lt, root_of_root}
use hyper_graph_streaming_cc.Forest.Writes.{SameRoots, hang-IsForest, root-hang}
use hyper_graph_streaming_cc.Graph.Plan.{Plan, nodes_of, collect}

-- `x` was a root of the forest `old`, and is under the root `a` of the forest `new`, but not `a`.
abbrev pub merges : List ℕ → List ℕ → ℕ → ℕ → ℕ
merges old new a x =
    if ltb x (length old)
    then (if root old x == x then (if root new x == a then (if x == a then 0 else 1) else 0) else 0)
    else 0

-- The forest only joins sets of the forest `old` at the start, and `to_merge[a]` lists once each old
-- root that is now under the root `a`, but for `a`.
pub record Tracks (old : List ℕ) (plan : Plan) : Type 0 where
  pub start : IsForest old
  pub forest : IsForest plan.parent
  pub nodes : length plan.parent ≡ length old
  pub slots : length plan.to_merge ≡ length old
  pub coarser : (k : ℕ) → k < length old → root plan.parent (root old k) ≡ root plan.parent k
  pub old_roots : (k : ℕ) → k < length old → root plan.parent k ≡ k → root old k ≡ k
  pub waiting :
      (a x : ℕ) → a < length old → count x (nodes_of plan.to_merge a) ≡ merges old plan.parent a x

nodes_of-collect :
    (a b c : ℕ) (to_merge : List (List ℕ))
    → a < length to_merge
    → b < length to_merge
    → a ≢ b
    → nodes_of (collect a b to_merge) c ≡ (
        if b == c
        then []
        else (if a == c
            then (nodes_of to_merge a ++ b ∷ []) ++ nodes_of to_merge b
            else nodes_of to_merge c))
unfolding collect
nodes_of-collect a b c tm a-lt b-lt ne =
    let pushed = set tm a (nodes_of tm a ++ b ∷ []) in
    let at_a : nodes_of pushed a ≡ nodes_of tm a ++ b ∷ [] =
      get_or-set tm a a (nodes_of tm a ++ b ∷ []) [] a-lt ∙ rw (==_refl a) refl in
    let at_b : nodes_of pushed b ≡ nodes_of tm b =
      get_or-set tm a b (nodes_of tm a ++ b ∷ []) [] a-lt ∙ ground arith in
    let at_c = get_or-set tm a c (nodes_of tm a ++ b ∷ []) [] a-lt in
    let both = ap₂ ◌++◌ at_a at_b in
    let gathered = nodes_of pushed a ++ nodes_of pushed b in
    let pushed-length = length-set tm a (nodes_of tm a ++ b ∷ []) in
    let inserted-length = length-set pushed a gathered in
    let at_inserted = get_or-set pushed a c gathered [] (omega arith) in
    let at_end = get_or-set (set pushed a gathered) b c [] [] (omega arith) in
    ground (arith, at_end, at_inserted, at_c, both)

count-collect :
    (a b c x : ℕ) (to_merge : List (List ℕ))
    → a < length to_merge
    → b < length to_merge
    → a ≢ b
    → count x (nodes_of (collect a b to_merge) c) ≡ (
        if b == c
        then 0
        else (if a == c
            then (count x (nodes_of to_merge a) + (if b == x then 1 else 0))
              + count x (nodes_of to_merge b)
            else count x (nodes_of to_merge c)))
unfolding count
count-collect a b c x tm a-lt b-lt ne =
    let at = nodes_of-collect a b c tm a-lt b-lt ne in
    let outer = count-append x (nodes_of tm a ++ b ∷ []) (nodes_of tm b) in
    let inner = count-append x (nodes_of tm a) (b ∷ []) in
    ap (count x) at ∙ ground (arith, outer, inner)

pub find-Tracks :
    (old : List ℕ) (plan : Plan) (ps : List ℕ)
    → Tracks old plan
    → IsForest ps
    → SameRoots plan.parent ps
    → Tracks old (record plan { parent = ps })
find-Tracks old plan ps h forest same =
    let lt : (k : ℕ) → k < length old → k < length plan.parent = λ k k-lt. omega (arith, h.nodes) in
    record {
      start = h.start;
      forest = forest;
      nodes = same.size ∙ h.nodes;
      slots = h.slots;
      coarser = λ k k-lt.
          same.roots (root old k) (omega (arith, root-lt old h.start k k-lt, h.nodes))
          ∙ h.coarser k k-lt
          ∙ sym (same.roots k (lt k k-lt));
      old_roots = λ k k-lt e. h.old_roots k k-lt (sym (same.roots k (lt k k-lt)) ∙ e);
      waiting = λ a x a-lt. ground (arith, h.waiting a x a-lt, same.roots x, h.nodes);
    }

module _ (old : List ℕ) (plan : Plan) (h : Tracks old plan) (a b : ℕ) (a-lt : a < length old)
    (b-lt : b < length old) (a_root : parent_of plan.parent a ≡ a)
    (b_root : parent_of plan.parent b ≡ b) (ne : a ≢ b) where
  abbrev hung : List ℕ
  hung = set plan.parent b a

  pub hung-root :
      (k : ℕ)
      → k < length old
      → root hung k ≡ (if root plan.parent k == b then a else root plan.parent k)
  hung-root k lt =
      root-hang plan.parent h.forest a b (omega (arith, h.nodes)) (omega (arith, h.nodes)) a_root
        b_root ne k (omega (arith, h.nodes))

  hung-waiting :
      (c x : ℕ)
      → c < length old
      → count x (nodes_of (collect a b plan.to_merge) c) ≡ merges old hung c x
  hung-waiting c x c-lt =
      let counts =
        count-collect a b c x plan.to_merge (omega (arith, h.slots)) (omega (arith, h.slots)) ne in
      let b_top : root plan.parent b ≡ b =
        root_of_root plan.parent h.forest b (omega (arith, h.nodes)) b_root in
      let b_old : root old b ≡ b = h.old_roots b b-lt b_top in
      let a_top : root plan.parent a ≡ a =
        root_of_root plan.parent h.forest a (omega (arith, h.nodes)) a_root in
      let top : (y : ℕ) → y ≡ a → root plan.parent y ≡ a = λ y e. ap (root plan.parent) e ∙ a_top in
      let below : (y : ℕ) → y ≡ b → (root plan.parent y ≡ b) × (root old y ≡ b) =
        λ y e. (ap (root plan.parent) e ∙ b_top, ap (root old) e ∙ b_old) in
      ground (
        arith,
        counts,
        h.waiting a x a-lt,
        h.waiting b x b-lt,
        h.waiting c x c-lt,
        hung-root x,
        top x,
        below x,
      )

  -- Hanging one root under another.
  pub hang-Tracks :
      (size : List ℕ) (modified : Bool)
      → Tracks old (record plan {
        parent = hung;
        size = size;
        to_merge = collect a b plan.to_merge;
        modified = modified;
      })
  unfolding collect
  hang-Tracks size modified = record {
    start = h.start;
    forest =
        hang-IsForest plan.parent h.forest a b (omega (arith, h.nodes)) (omega (arith, h.nodes))
          a_root b_root ne;
    nodes = length-set plan.parent b a ∙ h.nodes;
    slots = length-set _ b [] ∙ length-set _ a _ ∙ length-set plan.to_merge a _ ∙ h.slots;
    coarser = λ k lt.
        ground (
          arith,
          hung-root k lt,
          hung-root (root old k) (root-lt old h.start k lt),
          h.coarser k lt,
        );
    old_roots = λ k lt e. ground (
      arith,
      hung-root k lt,
      h.old_roots k lt,
      root_of_root plan.parent h.forest a (omega (arith, h.nodes)) a_root,
    );
    waiting = hung-waiting;
  }
