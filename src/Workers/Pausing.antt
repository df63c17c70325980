-- ===== src/Workers/Pausing.antt =====
-- What the calling thread may rely on: after `pause_workers` and after `stop_workers` every batch is
-- applied.
pub mod Order
use hyper_graph_streaming_cc.Prelude.{
  subst, ℕ, zero, suc, ◌+◌, ◌≤◌, ◌<◌, ◌≡◌, refl, sym, ap, ◌∙◌, List, [], ◌∷◌, Bool, true, false,
  not, ◌||◌, ◌&&◌, length, arith, some, get_elem?, set,
}
use hyper_graph_streaming_cc.Platform.{Platform, Doubles}
use hyper_graph_streaming_cc.Sketch.Defs.{Config}
use hyper_graph_streaming_cc.Graph.State.{Graph}
use hyper_graph_streaming_cc.Graph.Update.Laws.{Holds}
use hyper_graph_streaming_cc.Graph.Update.Order.{Holds-SameParity}
use hyper_graph_streaming_cc.Prelude.Totals.{total}
use hyper_graph_streaming_cc.Workers.Guttering.{Batch, GutteringSystem}
use hyper_graph_streaming_cc.Workers.Threads.{
  Place, exited, refused, Worker, has_exited, holds_lock, all_paused, all_exited,
}
use hyper_graph_streaming_cc.Workers.Threads.Every.{
  Every, Every-at, Every-map, Every-all_paused, Every-all_exited, tally, tally_zero,
}
use hyper_graph_streaming_cc.Workers.System.{
  Phase, paused, stopped, System, start_workers, Move, Steps, take, refuse, update, fail, report,
  exit, stop, retry, pause, doubt, block, spurious, relock, agree, unlock, announce,
}
use hyper_graph_streaming_cc.Workers.Invariant.Defs.{
  settled, inside, idle, failed, fits, Fits, held, after, Inv,
}
use hyper_graph_streaming_cc.Workers.Invariant.Moves.{Move-Inv}
use hyper_graph_streaming_cc.Workers.Invariant.Runs.{Steps-Inv, start_workers-Inv}
use hyper_graph_streaming_cc.Workers.Pausing.Order.{after-SameParity}

settled-held :
    (w : Batch → ℕ) (at : Place)
    → settled at ≡ true
    → (held w at ≡ 0) × (inside at ≡ true) × (idle at ≡ true)
settled-held w refused h = cc
settled-held w at h = ground arith

exited-held :
    (w : Batch → ℕ) (at : Place) → has_exited at ≡ true → (held w at ≡ 0) × (idle at ≡ true)
exited-held w refused h = cc
exited-held w at h = ground arith

-- With one worker or more, what follows for all of them from a fact about each.
Every-some : (Q : Type 0) (ws : List Worker) → 0 < length ws → Every (λ w. Q) ws → Q
Every-some Q [] h every = absurd (omega arith)
Every-some Q (w ∷ ws) h every = every.0

Inv-all_paused :
    (q : GutteringSystem) (p : Platform) (d : Doubles) (cfg : Config) (groups : ℕ)
    (streams : ℕ → List ℕ) (s : System q)
    → Inv q p d cfg groups streams s
    → s.phase ≡ paused
    → all_paused s.workers ≡ true
Inv-all_paused q p d cfg groups streams s inv e = Every-all_paused s.workers (
    Every-map (Fits paused (q.queued s.gts ≡ [])) (λ w. w.thr_paused ≡ true)
      (λ w h. h.0 ∙ (settled-held (λ b. 0) w.place h.1).1) s.workers
      (subst (λ x. Every (Fits x (q.queued s.gts ≡ [])) s.workers) e inv.every))

-- One move of a settled worker of a paused graph.
settled_move :
    (q : GutteringSystem) (p : Platform) (d : Doubles) (cfg : Config) (s : System q) (i : ℕ)
    (w : Worker) {at : Place} {t : System q}
    → settled at ≡ true
    → Move q p d cfg s i w at t
    → (t.graph ≡ s.graph) × (t.gts ≡ s.gts) × (t.phase ≡ s.phase) × (t.applied ≡ s.applied)
settled_move q p d cfg s i w h (doubt stay) = (refl, refl, refl, refl)
settled_move q p d cfg s i w h block = (refl, refl, refl, refl)
settled_move q p d cfg s i w h spurious = (refl, refl, refl, refl)
settled_move q p d cfg s i w h (relock free) = (refl, refl, refl, refl)
settled_move q p d cfg s i w h (agree may) = (refl, refl, refl, refl)
settled_move q p d cfg s i w h mv = cc

-- At the start the queue is waited on and empty.
module _ (q : GutteringSystem) (p : Platform) (d : Doubles) (cfg : Config) (groups : ℕ)
    (streams : ℕ → List ℕ) (g : Graph) (gts : q.State) (holds : Holds p d cfg g streams)
    (waits : q.non_block gts ≡ false) (empty : q.queued gts ≡ []) {s : System q}
    (run : Steps q p d cfg (start_workers q groups g gts) s) where
  inv : Inv q p d cfg groups streams s
  inv =
      Steps-Inv q p d cfg groups streams
        (start_workers-Inv q p d cfg groups streams g gts holds waits empty) run

  Every-in_phase : (ph : Phase) → s.phase ≡ ph → Every (Fits ph (q.queued s.gts ≡ [])) s.workers
  Every-in_phase ph e = subst (λ x. Every (Fits x (q.queued s.gts ≡ [])) s.workers) e inv.every

  -- Where all places hold no batch, and one of them at least has seen an empty queue.
  all_applied :
      0 < groups
      → ((w : Batch → ℕ) → Every (λ v. held w v.place ≡ 0) s.workers)
      → Every (λ v. q.queued s.gts ≡ []) s.workers
      → (q.queued s.gts ≡ [])
        × ((w : Batch → ℕ) → total w s.applied ≡ total w s.given)
        × Holds p d cfg s.graph (after q p d cfg streams s.given)
  unfolding total
  all_applied some_workers none_held quiet =
      let queue = Every-some (q.queued s.gts ≡ []) s.workers (omega (arith, inv.count)) quiet in
      let same : (w : Batch → ℕ) → total w s.applied ≡ total w s.given = λ w.
        omega
          (arith, inv.kept w, ap (total w) queue, tally_zero (held w) s.workers (none_held w)) in
      (
        queue,
        same,
        Holds-SameParity p d cfg s.graph (after q p d cfg streams s.applied)
            (after q p d cfg streams s.given)
            (after-SameParity q p d cfg streams s.applied s.given same) inv.graph,
      )

  -- Let workers be started, one or more, on a graph that takes updates and holds some streams, with a
  -- guttering system that is waited on and has no batch queued. In every state that the threads can
  -- reach in which `pause_workers` has returned, each worker is paused, no batch is queued, the
  -- workers have applied exactly the batches that the guttering system gave, each as often, and the
  -- graph holds its streams extended by all these batches, in the order in which they were given.
  pub pause_workers-Holds :
      0 < groups
      → s.phase ≡ paused
      → (all_paused s.workers ≡ true)
        × (q.queued s.gts ≡ [])
        × ((w : Batch → ℕ) → total w s.applied ≡ total w s.given)
        × Holds p d cfg s.graph (after q p d cfg streams s.given)
  pause_workers-Holds some_workers e =
      let all = Every-in_phase paused e in
      let Fit = Fits paused (q.queued s.gts ≡ []) in
      let (queue, same, after_all) =
        all_applied some_workers
          (λ f.
            Every-map Fit (λ w. held f w.place ≡ 0) (λ w h. (settled-held f w.place h.1).0)
              s.workers all)
          (Every-map Fit (λ w. q.queued s.gts ≡ [])
            (λ w h. h.2 (settled-held (λ b. 0) w.place h.1).2) s.workers all) in
      (Inv-all_paused q p d cfg groups streams s inv e, queue, same, after_all)

  -- Under the same conditions on the start, when `stop_workers` has returned, each thread has ended,
  -- no batch is queued, the workers have applied exactly the batches that the guttering system gave,
  -- each as often, and the graph holds its streams extended by all these batches.
  pub stop_workers-Holds :
      0 < groups
      → s.phase ≡ stopped
      → (all_exited s.workers ≡ true)
        × (q.queued s.gts ≡ [])
        × ((w : Batch → ℕ) → total w s.applied ≡ total w s.given)
        × Holds p d cfg s.graph (after q p d cfg streams s.given)
  stop_workers-Holds some_workers e =
      let all = Every-in_phase stopped e in
      let Fit = Fits stopped (q.queued s.gts ≡ []) in
      let (queue, same, after_all) =
        all_applied some_workers
          (λ f.
            Every-map Fit (λ w. held f w.place ≡ 0) (λ w h. (exited-held f w.place h.1).0) s.workers
              all)
          (Every-map Fit (λ w. q.queued s.gts ≡ [])
            (λ w h. h.2 (exited-held (λ b. 0) w.place h.1).1) s.workers all) in
      (
        Every-all_exited s.workers
            (Every-map Fit (λ w. has_exited w.place ≡ true) (λ w h. h.1) s.workers all),
        queue,
        same,
        after_all,
      )

  -- Under the same conditions on the start, while the calling thread stands between `pause_workers`
  -- and `unpause_workers`, no move of any worker changes the graph, the guttering system or the
  -- batches applied, and all workers stay paused.
  pub paused_unchanged :
      s.phase ≡ paused
      → (i : ℕ) (w : Worker) {t : System q} → get_elem? s.workers i ≡ some w
      → Move q p d cfg s i w w.place t
      → (t.graph ≡ s.graph)
        × (t.gts ≡ s.gts)
        × (t.applied ≡ s.applied)
        × (all_paused t.workers ≡ true)
  paused_unchanged e i w at mv =
      let fit =
        Every-at (Fits paused (q.queued s.gts ≡ [])) s.workers i w at (Every-in_phase paused e) in
      let (graph, gts', phase, applied) = settled_move q p d cfg s i w fit.1 mv in
      (
        graph,
        gts',
        applied,
        Inv-all_paused q p d cfg groups streams _
            (Move-Inv q p d cfg groups streams s inv i w at mv refl) (phase ∙ e),
      )
