-- ===== src/Tests/Workers.antt =====
-- The theorems on the worker threads at a run of one worker: it applies a batch, and is paused.
use hyper_graph_streaming_cc.Prelude.{
  ℕ, ◌+◌, ◌≡◌, refl, sym, ap, ◌∙◌, List, [], ◌∷◌, Bool, true, false, arith, Option, none, some, inr,
  get_elem?,
}
use hyper_graph_streaming_cc.Exceptions.{ok}
use hyper_graph_streaming_cc.Sketch.Defs.{Config}
use hyper_graph_streaming_cc.Supernode.Defs.{Supernode, configure_supernodes}
use hyper_graph_streaming_cc.Graph.State.{Graph}
use hyper_graph_streaming_cc.Graph.Update.{batch_update}
use hyper_graph_streaming_cc.Graph.Update.Laws.{Holds, batch_update-Holds}
use hyper_graph_streaming_cc.Graph.Update.Ingest.{make_graph-Holds}
use hyper_graph_streaming_cc.Prelude.Totals.{total}
use hyper_graph_streaming_cc.Workers.Guttering.{Batch, GutteringSystem}
use hyper_graph_streaming_cc.Workers.Threads.{
  Place, Worker, asleep, holds_lock, notify_all, lock_free, all_paused, all_exited,
}
use hyper_graph_streaming_cc.Workers.System.{
  Phase, waiting_paused, waiting_unpaused, paused, stopped, System, start_workers, Step, Steps,
  work, call, here, next, take, refuse, update, report, stop, pause, doubt, block, spurious, relock,
  agree, unlock, announce, exit, insert, pause_running, pause_unblock, pause_return, stop_paused,
  stop_unblock, stop_notify, stop_return,
}
use hyper_graph_streaming_cc.Workers.Invariant.Defs.{after, inside, failed}
use hyper_graph_streaming_cc.Workers.Pausing.{
  pause_workers-Holds, stop_workers-Holds, paused_unchanged,
}
use hyper_graph_streaming_cc.Workers.Progress.{pause_workers_returns}
use hyper_graph_streaming_cc.Workers.LostWakeup.{Idles, lost_wakeup}
use hyper_graph_streaming_cc.Workers.Exclusion.{workers_keep}
use hyper_graph_streaming_cc.Tests.Data.{small_hashes, decimals}

-- A plain queue with the flag of `set_non_block`.
abbrev get_data : List Batch × Bool → Option (Option Batch × (List Batch × Bool))
get_data (b ∷ bs, nb) = some (some b, (bs, nb))
get_data ([], true) = some (none, ([], true))
get_data ([], false) = none

get_data-waits : (s : List Batch × Bool) → s.1 ≡ true → get_data s ≡ none → ⊥
get_data-waits (b ∷ bs, nb) h e = cc
get_data-waits ([], true) h e = cc
get_data-waits ([], false) h e = cc

get_data-valid :
    (s t : List Batch × Bool) (b : Batch)
    → get_data s ≡ some (some b, t)
    → ((w : Batch → ℕ) → total w s.0 ≡ w b + total w t.0) × (t.1 ≡ s.1)
unfolding total
get_data-valid (c ∷ bs, nb) t b e =
    let first : c ≡ b = cc in
    let rest : (bs, nb) ≡ t = cc in
    (
      λ w. ap (λ x. w x + total w bs) first ∙ ap (λ r. w b + total w r.0) rest,
      ap (λ r. r.1) (sym rest),
    )
get_data-valid ([], true) t b e = cc
get_data-valid ([], false) t b e = cc

quiet_state : (t : List Batch × Bool) → get_data ([], true) ≡ some (none, t) → ([], true) ≡ t
quiet_state t e = cc

get_data-invalid :
    (s t : List Batch × Bool)
    → get_data s ≡ some (none, t)
    → (s.1 ≡ true) × (s.0 ≡ []) × (t.0 ≡ []) × (t.1 ≡ true)
get_data-invalid (b ∷ bs, nb) t e = cc
get_data-invalid ([], true) t e =
    (refl, refl, ap (λ r. r.0) (sym (quiet_state t e)), ap (λ r. r.1) (sym (quiet_state t e)))
get_data-invalid ([], false) t e = cc

abbrev plain_queue : GutteringSystem
plain_queue = record {
  State = List Batch × Bool;
  queued = λ s. s.0;
  non_block = λ s. s.1;
  get_data = get_data;
  get_data_callback = λ b s. s;
  set_non_block = λ b s. (s.0, b);
  get_data-waits = get_data-waits;
  get_data-valid = get_data-valid;
  get_data-invalid = get_data-invalid;
  get_data_callback-queued = λ b s. refl;
  get_data_callback-non_block = λ b s. refl;
  set_non_block-queued = λ b s. refl;
  set_non_block-non_block = λ b s. refl;
}

abbrev config : Config
config = configure_supernodes decimals 4 4

new_graph : (g : Graph) × (g.num_nodes ≡ 4) × Holds small_hashes decimals config g (λ i. [])
new_graph = let (g, e, n, h) = make_graph-Holds small_hashes decimals 4 4 5 true in (g, n, h)

-- The edges from vertex 1 to 2 and 3.
abbrev batch : Batch
batch = (1, 2 ∷ 3 ∷ [])

updated :
    (delta : Supernode) × ((batch_update small_hashes decimals config 1 (2 ∷ 3 ∷ []) new_graph.0).1
      ≡ ok delta)
updated =
    let (delta, e, _, _) =
      batch_update-Holds small_hashes decimals config 1 (2 ∷ 3 ∷ []) new_graph.0 (λ i. [])
        new_graph.2 (omega (arith, new_graph.1)) in
    (delta, e)

abbrev first_state : System plain_queue
first_state = start_workers plain_queue 1 new_graph.0 ([], false)

-- The worker stands at a place, and the calling thread in a phase.
abbrev at : Bool → Place → Phase → Bool → Bool → System plain_queue
at flag place phase on non_block = record {
  graph = (batch_update small_hashes decimals config 1 (2 ∷ 3 ∷ []) new_graph.0).0;
  gts = ([], non_block);
  shutdown = false;
  paused_flag = on;
  workers = record { thr_paused = flag; place = place } ∷ [];
  phase = phase;
  given = batch ∷ [];
  applied = batch ∷ [];
}

-- The batch is applied, and `pause_workers` waits.
run_waiting :
    Steps plain_queue small_hashes decimals config first_state
      (at false Place.polling waiting_paused true true)
run_waiting =
    let given =
      next here (call (insert batch (batch ∷ [], false) (omega (arith, new_graph.1)) refl refl)) in
    let applied =
      next (next (next given (work 0 refl (take refl))) (work 0 refl (update updated.1)))
        (work 0 refl report) in
    next (next applied (call pause_running)) (call pause_unblock)

-- The worker sleeps, and `pause_workers` has returned.
run_paused :
    Steps plain_queue small_hashes decimals config first_state (at true asleep paused true true)
unfolding notify_all lock_free all_paused
run_paused =
    let locking =
      next (next run_waiting (work 0 refl (refuse refl))) (work 0 refl (stop refl refl)) in
    let sleeping =
      next (next (next locking (work 0 refl (pause refl))) (work 0 refl (doubt refl)))
        (work 0 refl block) in
    next sleeping (call (pause_return refl))

pause_workers-Holds_example :
    (all_paused (at true asleep paused true true).workers ≡ true)
    × ((at true asleep paused true true).gts.0 ≡ [])
    × ((w : Batch → ℕ) → total w (batch ∷ []) ≡ total w (batch ∷ []))
    × Holds small_hashes decimals config
        (batch_update small_hashes decimals config 1 (2 ∷ 3 ∷ []) new_graph.0).0
        (after plain_queue small_hashes decimals config (λ i. []) (batch ∷ []))
pause_workers-Holds_example =
    pause_workers-Holds plain_queue small_hashes decimals config 1 (λ i. []) new_graph.0 ([], false)
      new_graph.2 refl refl run_paused (omega arith) refl

paused_unchanged_example :
    ((at true Place.woken paused true true).graph ≡ (at true asleep paused true true).graph)
    × ((at true Place.woken paused true true).gts ≡ (at true asleep paused true true).gts)
    × ((at true Place.woken paused true true).applied ≡ (at true asleep paused true true).applied)
    × (all_paused (at true Place.woken paused true true).workers ≡ true)
paused_unchanged_example =
    paused_unchanged plain_queue small_hashes decimals config 1 (λ i. []) new_graph.0 ([], false)
      new_graph.2 refl refl run_paused refl 0 (record { thr_paused = true; place = asleep }) refl
      spurious

-- After the destructor of the graph, and after the end of the thread.
abbrev at_end : System plain_queue
at_end = record (at false Place.exited stopped true true) { shutdown = true }

run_stopped : Steps plain_queue small_hashes decimals config first_state at_end
unfolding notify_all lock_free all_exited
run_stopped =
    let notified =
      next (next (next run_paused (call stop_paused)) (call stop_unblock)) (call stop_notify) in
    let resumed =
      next (next (next notified (work 0 refl (relock refl))) (work 0 refl (agree refl)))
        (work 0 refl unlock) in
    let ended =
      next (next (next resumed (work 0 refl announce)) (work 0 refl (refuse refl)))
        (work 0 refl (exit refl)) in
    next ended (call (stop_return refl))

stop_workers-Holds_example :
    (all_exited at_end.workers ≡ true)
    × (at_end.gts.0 ≡ [])
    × ((w : Batch → ℕ) → total w at_end.applied ≡ total w at_end.given)
    × Holds small_hashes decimals config at_end.graph
        (after plain_queue small_hashes decimals config (λ i. []) at_end.given)
stop_workers-Holds_example =
    stop_workers-Holds plain_queue small_hashes decimals config 1 (λ i. []) new_graph.0 ([], false)
      new_graph.2 refl refl run_stopped (omega arith) refl

pause_workers_returns_example :
    (t : System plain_queue) × Steps plain_queue small_hashes decimals config
      (at false Place.polling waiting_paused true true)
      t
    × (t.phase ≡ paused)
pause_workers_returns_example =
    pause_workers_returns plain_queue small_hashes decimals config 1 (λ i. []) new_graph.0
      ([], false) new_graph.2 refl refl (at false Place.polling waiting_paused true true)
      run_waiting (inr refl)

workers_keep_example :
    (true ≡ inside asleep)
    × (failed asleep ≡ false)
    × ((j : ℕ) (v : Worker)
        → get_elem? (at true asleep paused true true).workers j ≡ some v
        → holds_lock asleep ≡ true
        → holds_lock v.place ≡ true
        → 0 ≡ j)
workers_keep_example =
    workers_keep plain_queue small_hashes decimals config 1 (λ i. []) new_graph.0 ([], false)
      new_graph.2 refl refl (at true asleep paused true true) run_paused 0
      (record { thr_paused = true; place = asleep }) refl

lost_wakeup_example :
    (s : System plain_queue) × Steps plain_queue small_hashes decimals config first_state s
    × (s.phase ≡ waiting_unpaused)
    × (s.paused_flag ≡ false)
    × (s.workers ≡ record { thr_paused = true; place = asleep } ∷ [])
    × ((t : System plain_queue)
        → Step plain_queue small_hashes decimals config s t
        → Idles plain_queue small_hashes decimals config s t)
lost_wakeup_example =
    lost_wakeup plain_queue small_hashes decimals config new_graph.0 ([], false) refl
