-- ===== src/Workers/Invariant/Streams.antt =====
-- The streams after one more batch.
use mathlib.Core.List.{map-append, append_assoc, append-nil}
use hyper_graph_streaming_cc.Prelude.{
  subst, ℕ, ◌≡◌, refl, sym, ap, ◌∙◌, List, [], ◌∷◌, ◌++◌, map, ◌==◌, ==_iff, Bool-cases, inl, inr,
  if◌then◌else◌,
}
use hyper_graph_streaming_cc.Platform.{Platform, Doubles}
use hyper_graph_streaming_cc.Sketch.Defs.{Config}
use hyper_graph_streaming_cc.Graph.Update.{edge_code}
use hyper_graph_streaming_cc.Graph.Update.Laws.{extend}
use hyper_graph_streaming_cc.Graph.Update.Ingest.{delivered}
use hyper_graph_streaming_cc.Workers.Guttering.{Batch, GutteringSystem}
use hyper_graph_streaming_cc.Workers.Invariant.Defs.{after}

delivered-concat :
    (i : ℕ) (bs : List Batch) (b : Batch)
    → delivered i (bs ++ b ∷ []) ≡ delivered i bs ++ (if b.0 == i then b.1 else [])
unfolding delivered
delivered-concat i [] b = elim (Bool-cases (b.0 == i)) [
  | inl e ↦ rw e (append-nil b.1)
  | inr e ↦ rw e refl
]
delivered-concat i (c ∷ bs) b = elim (Bool-cases (c.0 == i)) [
  | inl e ↦ rw e (
      ap (λ r. c.1 ++ r) (delivered-concat i bs b)
      ∙ sym (append_assoc c.1 (delivered i bs) (if b.0 == i then b.1 else [])))
  | inr e ↦ rw e (delivered-concat i bs b)
]

-- One more batch extends the streams as `batch_update` does.
pub after-concat :
    (q : GutteringSystem) (p : Platform) (d : Doubles) (cfg : Config) (streams : ℕ → List ℕ)
    (bs : List Batch) (b : Batch) (i : ℕ)
    → extend p d cfg (after q p d cfg streams bs) b.0 b.1 i
      ≡ after q p d cfg streams (bs ++ b ∷ []) i
after-concat q p d cfg streams bs b i = elim (Bool-cases (b.0 == i)) [
  | inl same ↦
      subst
        (λ r.
          (if b.0 == i
            then streams i ++ map (edge_code p i) (delivered i bs) ++ map (edge_code p b.0) b.1
            else streams i ++ map (edge_code p i) (delivered i bs))
          ≡ streams i ++ map (edge_code p i) r)
        (sym (delivered-concat i bs b))
        (rw same (
          append_assoc (streams i) (map (edge_code p i) (delivered i bs))
            (map (edge_code p b.0) b.1)
          ∙ ap (λ k. streams i ++ (map (edge_code p i) (delivered i bs) ++ map (edge_code p k) b.1))
              ((==_iff b.0 i).0 same)
          ∙ ap (λ r. streams i ++ r) (sym (map-append (edge_code p i) (delivered i bs) b.1))))
  | inr other ↦
      subst
        (λ r.
          (if b.0 == i
            then streams i ++ map (edge_code p i) (delivered i bs) ++ map (edge_code p b.0) b.1
            else streams i ++ map (edge_code p i) (delivered i bs))
          ≡ streams i ++ map (edge_code p i) r)
        (sym (delivered-concat i bs b))
        (rw other
          (ap (λ r. streams i ++ map (edge_code p i) r) (sym (append-nil (delivered i bs)))))
]
