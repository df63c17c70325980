-- ===== src/Workers/Progress.antt =====
-- The wait of `pause_workers` can always come to its end: the threads never block one another.
pub mod Rank
use hyper_graph_streaming_cc.Prelude.{
  subst, ℕ, zero, suc, ◌+◌, ◌*◌, ◌≤◌, ◌<◌, ◌≡◌, refl, sym, ap, ◌∙◌, List, [], ◌∷◌, Bool, true,
  false, not, ◌||◌, ◌&&◌, ◌⊎◌, inl, inr, Bool-cases, length, arith, Option, none, some, get_elem?,
  set, length-set, if◌then◌else◌,
}
use hyper_graph_streaming_cc.Platform.{Platform, Doubles}
use hyper_graph_streaming_cc.Sketch.Defs.{Config}
use hyper_graph_streaming_cc.Graph.State.{Graph}
use hyper_graph_streaming_cc.Graph.Update.{batch_update}
use hyper_graph_streaming_cc.Graph.Update.Laws.{Holds, batch_update-Holds}
use hyper_graph_streaming_cc.Prelude.Totals.{total}
use hyper_graph_streaming_cc.Workers.Guttering.{Batch, GutteringSystem}
use hyper_graph_streaming_cc.Workers.Threads.{
  Place, polling, updating, reporting, refused, locking, checking, dozing, asleep, woken, resuming,
  announcing, exited, threw, Worker, wake, notify_all, holds_lock, lock_free, all_paused,
}
use hyper_graph_streaming_cc.Workers.Threads.Every.{
  Every, Every-at, Every-map, Every-both, Every-all_paused, Every-lock_free, tally, tally-set,
  holders,
}
use hyper_graph_streaming_cc.Workers.System.{
  Phase, pausing, waiting_paused, paused, System, start_workers, Move, Call, Step, work, call,
  Steps, here, next, pause_unblock, pause_return, may_go_on, take, refuse, update, fail, report,
  exit, stop, retry, pause, doubt, block, spurious, relock, agree, unlock, announce,
}
use hyper_graph_streaming_cc.Workers.Invariant.Defs.{fits, Fits, Flags, inside, after, Inv}
use hyper_graph_streaming_cc.Workers.Invariant.Moves.{held-lt}
use hyper_graph_streaming_cc.Workers.Invariant.Runs.{Steps-Inv, start_workers-Inv}
use hyper_graph_streaming_cc.Workers.Progress.Rank.{
  find_place, asleep-facts, holds_lock-awake, awake, measure, Nearer, nearer,
}

module _ (q : GutteringSystem) (p : Platform) (d : Doubles) (cfg : Config) (groups : ℕ)
    (streams : ℕ → List ℕ) where
  first : {s t u : System q} → Step q p d cfg s t → Steps q p d cfg t u → Steps q p d cfg s u
  first st here = next here st
  first st (next r last) = next (first st r) last

  abbrev Returns : System q → Type 0
  Returns s = (t : System q) × Steps q p d cfg s t × (t.phase ≡ paused)

  module _ (s : System q) (inv : Inv q p d cfg groups streams s)
      (e : s.phase ≡ waiting_paused) where
    all_fit : Every (Fits waiting_paused (q.queued s.gts ≡ [])) s.workers
    all_fit = subst (λ x. Every (Fits x (q.queued s.gts ≡ [])) s.workers) e inv.every

    fit_of :
        (i : ℕ) (w : Worker) → get_elem? s.workers i ≡ some w → fits waiting_paused w.place ≡ true
    fit_of i w at =
        (Every-at (Fits waiting_paused (q.queued s.gts ≡ [])) s.workers i w at all_fit).1

    -- When all workers sleep, the loop ends.
    asleep-Returns :
        lock_free s.workers ≡ true → Every (λ w. awake w.place ≡ false) s.workers → Returns s
    asleep-Returns free sleep =
        let all : all_paused s.workers ≡ true = Every-all_paused s.workers (
          Every-map (λ w. (awake w.place ≡ false) × Fits waiting_paused (q.queued s.gts ≡ []) w)
            (λ w. w.thr_paused ≡ true) (λ w h. h.1.0 ∙ (asleep-facts w.place h.0).1) s.workers
            (Every-both (λ w. awake w.place ≡ false) (Fits waiting_paused (q.queued s.gts ≡ []))
              s.workers sleep all_fit)) in
        (
          record s { phase = if all_paused s.workers then paused else waiting_paused },
          next here (
              call (
                subst
                  (λ x.
                    Call q p d cfg s x (record s {
                      phase = if all_paused s.workers then paused else waiting_paused;
                    }))
                  (sym e) (pause_return free))),
          ap (λ b. if b then paused else waiting_paused) all,
        )

    turn : Returns s ⊎ Nearer q p d cfg groups streams s
    turn = elim (find_place holds_lock s.workers) [
      | inr (i, w, at, h) ↦ inr (
          nearer q p d cfg groups streams s inv e i w at w.place refl (fit_of i w at)
            (holds_lock-awake w.place h) (inl h))
      | inl free ↦ elim (find_place awake s.workers) [
        | inr (i, w, at, h) ↦ inr (
            nearer q p d cfg groups streams s inv e i w at w.place refl (fit_of i w at) h
              (inr (Every-lock_free s.workers free)))
        | inl sleep ↦ inl (asleep-Returns (Every-lock_free s.workers free) sleep)
      ]
    ]

  waiting-Returns :
      (fuel : ℕ) (s : System q)
      → Inv q p d cfg groups streams s
      → s.phase ≡ waiting_paused
      → measure q p d cfg groups streams s < fuel
      → Returns s
  waiting-Returns zero s inv e lt = absurd (omega arith)
  waiting-Returns (suc fuel) s inv e lt = elim (turn s inv e) [
    | inl r ↦ r
    | inr (t, st, e', less) ↦
        let (u, r, end) =
          waiting-Returns fuel t (Steps-Inv q p d cfg groups streams inv (next here st)) e'
            (omega arith) in
        (u, first st r, end)
  ]

  -- Let workers be started on a graph that takes updates and holds some streams, with a guttering
  -- system that is waited on and has no batch queued. From every state that the threads can reach in
  -- which the calling thread is in `pause_workers`, the threads can go on so that `pause_workers`
  -- returns: no lock, no wait and no exception stands in the way.
  pub pause_workers_returns :
      (g : Graph) (gts : q.State)
      → Holds p d cfg g streams
      → q.non_block gts ≡ false
      → q.queued gts ≡ []
      → (s : System q) → Steps q p d cfg (start_workers q groups g gts) s
      → (s.phase ≡ pausing) ⊎ (s.phase ≡ waiting_paused)
      → (t : System q) × Steps q p d cfg s t × (t.phase ≡ paused)
  pause_workers_returns g gts holds waits empty s run (inr e) =
      let inv =
        Steps-Inv q p d cfg groups streams
          (start_workers-Inv q p d cfg groups streams g gts holds waits empty) run in
      waiting-Returns (suc (measure q p d cfg groups streams s)) s inv e (omega arith)
  pause_workers_returns g gts holds waits empty s run (inl e) =
      let inv =
        Steps-Inv q p d cfg groups streams
          (start_workers-Inv q p d cfg groups streams g gts holds waits empty) run in
      let t : System q = record s { gts = q.set_non_block true s.gts; phase = waiting_paused } in
      let st : Step q p d cfg s t =
        call (subst (λ x. Call q p d cfg s x t) (sym e) pause_unblock) in
      let (u, r, end) =
        waiting-Returns (suc (measure q p d cfg groups streams t)) t
          (Steps-Inv q p d cfg groups streams inv (next here st)) refl (omega arith) in
      (u, first st r, end)
