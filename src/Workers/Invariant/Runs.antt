-- ===== src/Workers/Invariant/Runs.antt =====
-- The invariant holds at the start, and so in every state that a run reaches.
use mathlib.Core.List.{append-nil}
use hyper_graph_streaming_cc.Prelude.{
  subst, fun_ext, ℕ, zero, suc, ◌≡◌, refl, sym, ap, List, [], false, arith, replicate,
  length-replicate,
}
use hyper_graph_streaming_cc.Platform.{Platform, Doubles}
use hyper_graph_streaming_cc.Sketch.Defs.{Config}
use hyper_graph_streaming_cc.Graph.State.{Graph}
use hyper_graph_streaming_cc.Graph.Update.Laws.{Holds}
use hyper_graph_streaming_cc.Graph.Update.Ingest.{delivered}
use hyper_graph_streaming_cc.Prelude.Totals.{total}
use hyper_graph_streaming_cc.Workers.Guttering.{GutteringSystem}
use hyper_graph_streaming_cc.Workers.Threads.{Place, new_worker}
use hyper_graph_streaming_cc.Workers.Threads.Every.{Every, tally, holders}
use hyper_graph_streaming_cc.Workers.System.{
  running, System, start_workers, work, call, Steps, here, next,
}
use hyper_graph_streaming_cc.Workers.Invariant.Defs.{Fits, held, Inv}
use hyper_graph_streaming_cc.Workers.Invariant.Moves.{Move-Inv}
use hyper_graph_streaming_cc.Workers.Invariant.Calls.{Call-Inv}

module _ (q : GutteringSystem) (p : Platform) (d : Doubles) (cfg : Config) (groups : ℕ)
    (streams : ℕ → List ℕ) where
  pub Steps-Inv :
      {s t : System q}
      → Inv q p d cfg groups streams s
      → Steps q p d cfg s t
      → Inv q p d cfg groups streams t
  Steps-Inv inv here = inv
  Steps-Inv inv (next {t} r (work i at mv)) =
      Move-Inv q p d cfg groups streams t (Steps-Inv inv r) i _ at mv refl
  Steps-Inv inv (next {t} r (call c)) = Call-Inv q p d cfg groups streams t (Steps-Inv inv r) c refl

  tally-new_worker :
      (n : ℕ) (f : Place → ℕ) → f new_worker.place ≡ 0 → tally f (replicate n new_worker) ≡ 0
  unfolding tally
  tally-new_worker zero f e = refl
  tally-new_worker (suc n) f e = omega (arith, tally-new_worker n f e)

  Every-new_worker : (n : ℕ) (Quiet : Type 0) → Every (Fits running Quiet) (replicate n new_worker)
  Every-new_worker zero Quiet = tt
  Every-new_worker (suc n) Quiet = ((refl, refl, λ e. cc), Every-new_worker n Quiet)

  -- At the start the queue is waited on and empty.
  pub start_workers-Inv :
      (g : Graph) (gts : q.State)
      → Holds p d cfg g streams
      → q.non_block gts ≡ false
      → q.queued gts ≡ []
      → Inv q p d cfg groups streams (start_workers q groups g gts)
  unfolding total delivered
  start_workers-Inv g gts holds nb empty = record {
    count = length-replicate groups new_worker;
    flags = (refl, refl, nb);
    every = Every-new_worker groups (q.queued gts ≡ []);
    locked = omega (arith, tally-new_worker groups holders refl);
    kept = λ f. omega (arith, ap (total f) empty, tally-new_worker groups (held f) refl);
    in_range = refl;
    graph = subst (Holds p d cfg g) (fun_ext (λ i. sym (append-nil (streams i)))) holds;
  }
