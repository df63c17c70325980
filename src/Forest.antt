-- ===== src/Forest.antt =====
-- Parent arrays, as `Graph::get_parent` of src/graph.cpp and `DisjointSetUnion::find_set` of
-- include/dsu.h keep them: the search with path compression, and what it leaves unchanged.
pub mod Root
pub mod Writes
pub mod Find
use hyper_graph_streaming_cc.Prelude.{
  ℕ, zero, suc, List, ◌==◌, Option, none, some, if◌then◌else◌, get_elem?, get_or, set, length,
}

-- `if (parent[i] == i) return i; return parent[i] = find(parent[i]);`, with fuel. `none` is a read
-- out of range, or no fuel left.
unfoldable pub find : ℕ → List ℕ → ℕ → Option (ℕ × List ℕ)
find zero ps i = none
find (suc fuel) ps i = elim (get_elem? ps i) [
  | none ↦ none
  | some q ↦
      let rest = find fuel ps q in
      if q == i
      then some (i, ps)
      else elim rest [ none ↦ none | some (r, ps') ↦ some (r, set ps' i r) ]
]

abbrev pub parent_of : List ℕ → ℕ → ℕ
parent_of ps i = get_or ps i 0

-- The node where the parents of `i` end, within `fuel` steps, and with as much fuel as is needed.
unfoldable pub climb : ℕ → List ℕ → ℕ → ℕ
climb zero ps i = i
climb (suc fuel) ps i =
    let rest = climb fuel ps (parent_of ps i) in if parent_of ps i == i then i else rest

unfoldable pub root : List ℕ → ℕ → ℕ
root ps i = climb (length ps) ps i
