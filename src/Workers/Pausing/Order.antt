-- ===== src/Workers/Pausing/Order.antt =====
-- The order in which the workers apply batches does not matter to the streams of the graph.
use mathlib.Core.List.{map-append}
use hyper_graph_streaming_cc.Prelude.{
  ℕ, ◌≡◌, refl, ap, ◌∙◌, List, [], ◌∷◌, map, arith, ◌==◌, Bool-cases, inl, inr, if◌then◌else◌,
}
use hyper_graph_streaming_cc.Platform.{Platform, Doubles}
use hyper_graph_streaming_cc.Arrays.Cells.{count, count-append}
use hyper_graph_streaming_cc.Sketch.Defs.{Config}
use hyper_graph_streaming_cc.Sketch.Parity.{SameParity}
use hyper_graph_streaming_cc.Graph.Update.{edge_code}
use hyper_graph_streaming_cc.Graph.Update.Ingest.{delivered}
use hyper_graph_streaming_cc.Prelude.Totals.{total}
use hyper_graph_streaming_cc.Workers.Guttering.{Batch, GutteringSystem}
use hyper_graph_streaming_cc.Workers.Invariant.Defs.{after}

-- How often a batch brings the code `k` to the vertex `i`.
brings : Platform → ℕ → ℕ → Batch → ℕ
brings p i k b = if b.0 == i then count k (map (edge_code p i) b.1) else 0

count-delivered :
    (p : Platform) (i k : ℕ) (bs : List Batch)
    → count k (map (edge_code p i) (delivered i bs)) ≡ total (brings p i k) bs
unfolding delivered total brings count
count-delivered p i k [] = refl
count-delivered p i k (b ∷ bs) = elim (Bool-cases (b.0 == i)) [
  | inl e ↦ rw e (
      ap (count k) (map-append (edge_code p i) b.1 (delivered i bs))
      ∙ omega (
        arith,
        count-append k (map (edge_code p i) b.1) (map (edge_code p i) (delivered i bs)),
        count-delivered p i k bs,
      ))
  | inr e ↦ rw e (omega (arith, count-delivered p i k bs))
]

-- The same batches, each as often, leave the same streams.
pub after-SameParity :
    (q : GutteringSystem) (p : Platform) (d : Doubles) (cfg : Config) (streams : ℕ → List ℕ)
    (bs cs : List Batch)
    → ((w : Batch → ℕ) → total w bs ≡ total w cs)
    → (i : ℕ) → SameParity (after q p d cfg streams bs i) (after q p d cfg streams cs i)
after-SameParity q p d cfg streams bs cs same i k = omega (
  arith,
  count-append k (streams i) (map (edge_code p i) (delivered i bs)),
  count-append k (streams i) (map (edge_code p i) (delivered i cs)),
  count-delivered p i k bs,
  count-delivered p i k cs,
  same (brings p i k),
)
