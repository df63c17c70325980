-- ===== src/Workers/Exclusion.antt =====
-- What each worker's place says, in every reachable state: who may hold the lock, when `thr_paused` is
-- set, and that no exception ends a thread.
use hyper_graph_streaming_cc.Prelude.{
  ℕ, ◌≤◌, ◌≡◌, refl, ◌∙◌, [], List, true, false, ◌==◌, ==_iff, Bool-cases, inl, inr, arith, some,
  get_elem?, set,
}
use hyper_graph_streaming_cc.Prelude.Slots.{get_elem?-set_other}
use hyper_graph_streaming_cc.Platform.{Platform, Doubles}
use hyper_graph_streaming_cc.Exceptions.{Exception}
use hyper_graph_streaming_cc.Sketch.Defs.{Config}
use hyper_graph_streaming_cc.Graph.State.{Graph}
use hyper_graph_streaming_cc.Graph.Update.Laws.{Holds}
use hyper_graph_streaming_cc.Workers.Guttering.{GutteringSystem}
use hyper_graph_streaming_cc.Workers.Threads.{Place, threw, Worker, new_worker, holds_lock}
use hyper_graph_streaming_cc.Workers.Threads.Every.{Every-at, tally, tally-set, tally-ge, holders}
use hyper_graph_streaming_cc.Workers.System.{Phase, running, System, start_workers, Steps}
use hyper_graph_streaming_cc.Workers.Invariant.Defs.{inside, failed, fits, Fits}
use hyper_graph_streaming_cc.Workers.Invariant.Runs.{Steps-Inv, start_workers-Inv}

one_holder :
    (ws : List Worker) (i j : ℕ) (v w : Worker)
    → tally holders ws ≤ 1
    → get_elem? ws i ≡ some v
    → get_elem? ws j ≡ some w
    → holds_lock v.place ≡ true
    → holds_lock w.place ≡ true
    → i ≡ j
one_holder ws i j v w few at_i at_j hold_i hold_j = elim (Bool-cases (i == j)) [
  | inl same ↦ (==_iff i j).0 same
  | inr other ↦ absurd (
      ground (
        arith,
        few,
        tally-set holders ws i v new_worker at_i,
        tally-ge holders (set ws i new_worker) j w
            (get_elem?-set_other ws i j new_worker other ∙ at_j),
        hold_i,
        hold_j,
      ))
]

threw_fits : (ph : Phase) (x : Exception) → fits ph (threw x) ≡ false
threw_fits running x = refl
threw_fits ph x = refl

fits-not_failed : (ph : Phase) (at : Place) → fits ph at ≡ true → failed at ≡ false
fits-not_failed ph (threw x) h = cc (threw_fits ph x)
fits-not_failed ph at h = refl

-- Let workers be started on a graph that takes updates and holds some streams, with a guttering
-- system that is waited on and has no batch queued. In every state that the threads can reach, a
-- worker's flag `thr_paused` is set exactly at the places between its setting and its reset, no
-- exception has ended a worker, and two workers that hold the lock are the same.
pub workers_keep :
    (q : GutteringSystem) (p : Platform) (d : Doubles) (cfg : Config) (groups : ℕ)
    (streams : ℕ → List ℕ) (g : Graph) (gts : q.State)
    → Holds p d cfg g streams
    → q.non_block gts ≡ false
    → q.queued gts ≡ []
    → (s : System q) → Steps q p d cfg (start_workers q groups g gts) s
    → (i : ℕ) (w : Worker) → get_elem? s.workers i ≡ some w
    → (w.thr_paused ≡ inside w.place)
      × (failed w.place ≡ false)
      × ((j : ℕ) (v : Worker)
          → get_elem? s.workers j ≡ some v
          → holds_lock w.place ≡ true
          → holds_lock v.place ≡ true
          → i ≡ j)
workers_keep q p d cfg groups streams g gts holds waits empty s run i w at =
    let inv =
      Steps-Inv q p d cfg groups streams
        (start_workers-Inv q p d cfg groups streams g gts holds waits empty) run in
    let fit = Every-at (Fits s.phase (q.queued s.gts ≡ [])) s.workers i w at inv.every in
    (
      fit.0,
      fits-not_failed s.phase w.place fit.1,
      λ j v at_j h k. one_holder s.workers i j w v inv.locked at at_j h k,
    )
