-- ===== src/Graph/Plan.antt =====
-- `Graph::supernodes_to_merge`: which supernodes a round of samples joins.
pub mod Step
pub mod Edges
pub mod Samples
pub mod Sampled
pub mod Below
pub mod Idle
pub mod Settled
pub mod Partition
use hyper_graph_streaming_cc.Prelude.{
  ℕ, zero, suc, ◌+◌, List, [], ◌∷◌, ◌++◌, Option, none, some, Bool, false, true, if◌then◌else◌, ltb,
  ◌==◌, length, get_elem?, get_or, set, replicate,
}
use hyper_graph_streaming_cc.Util.{u32}
use hyper_graph_streaming_cc.Sketch.Defs.{SampleSketchRet, good, zero_ret, fail}
use hyper_graph_streaming_cc.Supernode.Defs.{Edge}
use hyper_graph_streaming_cc.Forest.{find}

-- The variables of the function, and the fields of the graph that it writes.
pub record Plan : Type 0 where
  pub parent : List ℕ
  pub size : List ℕ
  pub modified : Bool
  pub new_reps : List ℕ
  pub to_merge : List (List ℕ)

abbrev pub nodes_of : List (List ℕ) → ℕ → List ℕ
nodes_of to_merge a = get_or to_merge a []

abbrev pub empty? : List ℕ → Bool
empty? [] = true
empty? (x ∷ xs) = false

-- `get_parent`, with a unit of fuel more than there are nodes.
unfoldable pub get_parent : List ℕ → ℕ → Option (ℕ × List ℕ)
get_parent parent node = find (suc (length parent)) parent node

-- `to_merge[a].push_back(b)`, then all of `to_merge[b]`, which is cleared.
unfoldable pub collect : ℕ → ℕ → List (List ℕ) → List (List ℕ)
collect a b to_merge =
    let pushed = set to_merge a (nodes_of to_merge a ++ b ∷ []) in
    let inserted = set pushed a (nodes_of pushed a ++ nodes_of pushed b) in set inserted b []

-- Two roots are joined, the one of the smaller size under the other.
unfoldable pub join : ℕ → ℕ → Plan → Plan
join x y plan =
    let swapped = ltb (get_or plan.size x 0) (get_or plan.size y 0) in
    let a = if swapped then y else x in
    let b = if swapped then x else y in
    record plan {
      parent = set plan.parent b a;
      size = set plan.size a (u32 (get_or plan.size a 0 + get_or plan.size b 0));
      to_merge = collect a b plan.to_merge;
      modified = true;
    }

-- An edge was sampled. `none` is an endpoint out of range.
unfoldable pub join_edge : Edge → Plan → Option Plan
join_edge edge plan = elim (get_parent plan.parent edge.0) [
  | none ↦ none
  | some (a, parent) ↦ elim (get_parent parent edge.1) [
    | none ↦ none
    | some (b, parent') ↦
        let found = record plan { parent = parent' } in
        if a == b then some found else some (join a b found)
  ]
]

unfoldable pub merge_sample : ℕ → Edge → SampleSketchRet → Plan → Option Plan
merge_sample i edge fail plan =
    some (record plan { modified = true; new_reps = plan.new_reps ++ i ∷ [] })
merge_sample i edge zero_ret plan = some plan
merge_sample i edge good plan = join_edge edge plan

-- The loop over `reps`.
unfoldable pub merge_samples : List (Edge × SampleSketchRet) → List ℕ → Plan → Option Plan
merge_samples query [] plan = some plan
merge_samples query (i ∷ reps) plan = elim (get_elem? query i) [
  | none ↦ none
  | some (edge, ret_code) ↦ elim (merge_sample i edge ret_code plan) [
    | none ↦ none
    | some plan' ↦ merge_samples query reps plan'
  ]
]

-- The representatives in `reps` into which nothing merges.
unfoldable pub unmerged : List (List ℕ) → List ℕ → List ℕ
unmerged to_merge [] = []
unmerged to_merge (a ∷ reps) =
    let rest = unmerged to_merge reps in if empty? (nodes_of to_merge a) then a ∷ rest else rest

-- The nodes from `a` on, `count` of them, into which something merges.
unfoldable pub merged_from : List (List ℕ) → ℕ → ℕ → List ℕ
merged_from to_merge zero a = []
merged_from to_merge (suc count) a =
    let rest = merged_from to_merge count (suc a) in
    if empty? (nodes_of to_merge a) then rest else a ∷ rest

-- The whole function, from the parents, sizes and `modified` of the graph; `new_reps` of the result
-- is the new `reps`.
unfoldable pub supernodes_to_merge :
    ℕ → List (Edge × SampleSketchRet) → List ℕ → List ℕ → List ℕ → Bool → Option Plan
supernodes_to_merge num_nodes query reps parent size modified =
    elim (merge_samples query reps (record {
      parent = parent;
      size = size;
      modified = modified;
      new_reps = [];
      to_merge = replicate num_nodes [];
    })) [
      | none ↦ none
      | some plan ↦ some (record plan {
        new_reps = unmerged plan.to_merge plan.new_reps ++ merged_from plan.to_merge num_nodes 0;
      })
    ]
