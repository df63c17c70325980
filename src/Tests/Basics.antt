-- ===== src/Tests/Basics.antt =====
-- The theorems on edge codes and parent arrays at concrete inputs.
use hyper_graph_streaming_cc.Prelude.{
  ℕ, zero, suc, if◌then◌else◌, ◌==◌, ◌<◌, ◌≤◌, ◌≡◌, ◌≢◌, refl, List, [], ◌∷◌, some, arith, ◌↔◌, ◌⊎◌,
}
use hyper_graph_streaming_cc.Util.{
  nondirectional_non_self_edge_pairing_fn, inv_nondir_non_self_edge_pairing_fn,
}
use hyper_graph_streaming_cc.Util.Pairing.{inv_pairing_fn-pairing_fn}
use hyper_graph_streaming_cc.Forest.{find, parent_of, root}
use hyper_graph_streaming_cc.Forest.Root.{IsForest, non_roots_from}
use hyper_graph_streaming_cc.Forest.Find.{Finds, find_total}
use hyper_graph_streaming_cc.Forest.Writes.{SameRoots}
use hyper_graph_streaming_cc.Graph.Components.{collect_components}
use hyper_graph_streaming_cc.Graph.Components.Classes.{classes, collect_components-classes}
use hyper_graph_streaming_cc.Dsu.{Dsu, union_set, find_set, link}
use hyper_graph_streaming_cc.Dsu.Laws.{union_set_classes}
use hyper_graph_streaming_cc.Tests.Data.{small_hashes, small_hashes-IsDocumented}

inv_pairing_fn-pairing_fn_example :
    inv_nondir_non_self_edge_pairing_fn small_hashes
      (nondirectional_non_self_edge_pairing_fn small_hashes 7 3)
    ≡ (3, 7)
inv_pairing_fn-pairing_fn_example =
    inv_pairing_fn-pairing_fn small_hashes small_hashes-IsDocumented 7 3 (omega arith) (omega arith)

-- 2 is under 1, 1 under 0, and 3 alone.
abbrev path_parents : List ℕ
path_parents = 0 ∷ 0 ∷ 1 ∷ 3 ∷ []

abbrev path_rank : ℕ → ℕ
path_rank i = if i == 0 then 2 else (if i == 1 then 1 else 0)

path_parents-IsForest : IsForest path_parents
unfolding non_roots_from
path_parents-IsForest = record {
  rank = path_rank;
  in_range = in_range;
  climbs = climbs;
  bounded = bounded;
}
  where
    in_range : (i : ℕ) → i < 4 → parent_of path_parents i < 4
    in_range zero h = omega arith
    in_range (suc zero) h = omega arith
    in_range (suc (suc zero)) h = omega arith
    in_range (suc (suc (suc zero))) h = omega arith
    in_range (suc (suc (suc (suc i)))) h = omega arith

    climbs :
        (i : ℕ)
        → i < 4
        → parent_of path_parents i ≢ i
        → path_rank i < path_rank (parent_of path_parents i)
    climbs zero h ne = absurd (ne refl)
    climbs (suc zero) h ne = omega arith
    climbs (suc (suc zero)) h ne = omega arith
    climbs (suc (suc (suc zero))) h ne = absurd (ne refl)
    climbs (suc (suc (suc (suc i)))) h ne = absurd (omega arith)

    bounded : (i : ℕ) → i < 4 → path_rank i ≤ 2
    bounded i h = ground arith

find_total_example : Finds path_parents 2 (find 5 path_parents 2)
find_total_example = find_total path_parents 2 path_parents-IsForest (omega arith)

path_compressed : find 5 path_parents 2 ≡ some (0, 0 ∷ 0 ∷ 0 ∷ 3 ∷ [])
unfolding find
path_compressed = refl

abbrev two_sets : Dsu
two_sets = record { parent = path_parents; size = 3 ∷ 1 ∷ 1 ∷ 1 ∷ [] }

abbrev one_set : Dsu
one_set = record { parent = 0 ∷ 0 ∷ 0 ∷ 0 ∷ []; size = 4 ∷ 1 ∷ 1 ∷ 1 ∷ [] }

union_set_run : union_set 3 2 two_sets ≡ some one_set
unfolding union_set find_set find link
union_set_run = refl

union_set_classes_example : (root one_set.parent 1 ≡ root one_set.parent 3) ↔ (
    (root path_parents 1 ≡ root path_parents 3)
    ⊎ ((root path_parents 1 ≡ root path_parents 3) × (root path_parents 3 ≡ root path_parents 2)
        ⊎ (root path_parents 1 ≡ root path_parents 2)
          × (root path_parents 3 ≡ root path_parents 3)))
union_set_classes_example =
    union_set_classes 3 2 two_sets one_set path_parents-IsForest (omega arith) (omega arith)
      union_set_run 1 3 (omega arith) (omega arith)

-- A union within one set doubles the size of its root.
union_set_twice : union_set 0 1 one_set ≡ some (record one_set { size = 8 ∷ 1 ∷ 1 ∷ 1 ∷ [] })
unfolding union_set find_set find link
union_set_twice = refl

collect_components-classes_example :
    (ps : List ℕ) × (collect_components 4 0 path_parents []
      ≡ some (classes (root path_parents) 4 0 4, ps))
    × IsForest ps
    × SameRoots path_parents ps
collect_components-classes_example = collect_components-classes path_parents path_parents-IsForest
