-- ===== src/Dsu.antt =====
-- include/dsu.h: the class `DisjointSetUnion<node_id_t>`, which the verifiers use.
pub mod Laws
use hyper_graph_streaming_cc.Prelude.{
  ℕ, zero, suc, ◌+◌, List, [], ◌∷◌, Option, none, some, ltb, if◌then◌else◌, get_or, set, replicate,
  length,
}
use hyper_graph_streaming_cc.Util.{u32}
use hyper_graph_streaming_cc.Forest.{find}

pub record Dsu : Type 0 where
  pub parent : List ℕ
  pub size : List ℕ

-- `parent[i] = i` for `i` from `k` on, with `count` rounds left.
unfoldable pub own_parents : ℕ → ℕ → List ℕ
own_parents zero k = []
own_parents (suc count) k = k ∷ own_parents count (suc k)

unfoldable pub make_dsu : ℕ → Dsu
unfolding own_parents
make_dsu n = record { parent = own_parents n 0; size = replicate n 1 }

unfoldable pub link : ℕ → ℕ → Dsu → Dsu
link i j d =
    let swapped = ltb (get_or d.size i 0) (get_or d.size j 0) in
    let a = if swapped then j else i in
    let b = if swapped then i else j in
    record {
      parent = set d.parent b a;
      size = set d.size a (u32 (get_or d.size a 0 + get_or d.size b 0));
    }

-- `none` is a node out of range.
unfoldable pub find_set : ℕ → Dsu → Option (ℕ × Dsu)
find_set i d = elim (find (suc (length d.parent)) d.parent i) [
  | none ↦ none
  | some (r, parent) ↦ some (r, record d { parent = parent })
]

-- The searches of the two arguments change disjoint facts: their order, which C++ leaves open, is
-- the one written.
unfoldable pub union_set : ℕ → ℕ → Dsu → Option Dsu
union_set i j d = elim (find_set i d) [
  | none ↦ none
  | some (a, d') ↦ elim (find_set j d') [ none ↦ none | some (b, d'') ↦ some (link a b d'') ]
]
