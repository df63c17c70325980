-- ===== src/Workers/System.antt =====
-- The steps of the worker threads and of the thread that calls `pause_workers`, `unpause_workers` and
-- `stop_workers`, in any order.
use hyper_graph_streaming_cc.Prelude.{
  ℕ, ◌<◌, ◌≡◌, List, [], ◌∷◌, ◌++◌, Bool, true, false, not, ◌||◌, none, some, if◌then◌else◌,
  get_elem?, set, replicate,
}
use hyper_graph_streaming_cc.Platform.{Platform, Doubles}
use hyper_graph_streaming_cc.Exceptions.{Exception, ok, throw}
use hyper_graph_streaming_cc.Sketch.Defs.{Config}
use hyper_graph_streaming_cc.Supernode.Defs.{Supernode}
use hyper_graph_streaming_cc.Graph.State.{Graph}
use hyper_graph_streaming_cc.Graph.Update.{batch_update}
use hyper_graph_streaming_cc.Graph.Update.Laws.{Holds}
use hyper_graph_streaming_cc.Workers.Guttering.{Batch, GutteringSystem}
use hyper_graph_streaming_cc.Workers.Threads.{
  Place, polling, updating, reporting, refused, locking, checking, dozing, asleep, woken, resuming,
  announcing, exited, threw, Worker, new_worker, all_paused, all_unpaused, notify_all, lock_free,
  all_exited,
}

-- Where the thread that owns the graph stands.
pub data Phase : Type 0 where
  running : Phase  -- outside the calls, after start_workers or unpause_workers
  pausing : Phase  -- pause_workers: `paused` is set
  waiting_paused : Phase  -- pause_workers: in its loop
  paused : Phase  -- after pause_workers
  unblocked : Phase  -- unpause_workers: the queue waits again
  unpausing : Phase  -- unpause_workers: `paused` is reset
  waiting_unpaused : Phase  -- unpause_workers: in its loop
  stopping : Phase  -- stop_workers: `shutdown` is set
  stop_unblocked : Phase  -- stop_workers: the queue is not waited on
  joining : Phase  -- stop_workers: the threads were notified
  stopped : Phase  -- after stop_workers

module _ (q : GutteringSystem) where
  -- The static fields, the graph and the guttering system that all workers share, the workers, and
  -- where the calling thread stands. `given` and `applied` record the batches that the guttering
  -- system made ready and the ones that workers applied.
  pub record System : Type 0 where
    pub graph : Graph
    pub gts : q.State
    pub shutdown : Bool
    pub paused_flag : Bool
    pub workers : List Worker
    pub phase : Phase
    pub given : List Batch
    pub applied : List Batch

  -- `num_groups` workers on a graph and its guttering system.
  abbrev pub start_workers : ℕ → Graph → q.State → System
  start_workers num_groups graph gts = record {
    graph = graph;
    gts = gts;
    shutdown = false;
    paused_flag = false;
    workers = replicate num_groups new_worker;
    phase = running;
    given = [];
    applied = [];
  }

  -- Worker `i` goes on to a place.
  abbrev pub go : System → ℕ → Worker → Place → System
  go s i w at = record s { workers = set s.workers i (record w { place = at }) }

  -- The predicate `!paused || shutdown` of the wait.
  abbrev pub may_go_on : System → Bool
  may_go_on s = not s.paused_flag || s.shutdown

  module _ (p : Platform) (d : Doubles) (cfg : Config) where
    -- What worker `i` does next, standing where `w` stands.
    pub data Move (s : System) (i : ℕ) (w : Worker) : Place → System → Type 0 where
      take :
          {b : Batch} {gts : q.State}
          → q.get_data s.gts ≡ some (some b, gts)
          → Move s i w polling (record (go s i w (updating b)) { gts = gts })
      refuse :
          {gts : q.State}
          → q.get_data s.gts ≡ some (none, gts)
          → Move s i w polling (record (go s i w refused) { gts = gts })
      update :
          {b : Batch} {delta : Supernode}
          → (batch_update p d cfg b.0 b.1 s.graph).1 ≡ ok delta
          → Move s i w (updating b) (record (go s i w (reporting b)) {
            graph = (batch_update p d cfg b.0 b.1 s.graph).0;
            applied = s.applied ++ b ∷ [];
          })
      fail :
          {b : Batch} {e : Exception}
          → (batch_update p d cfg b.0 b.1 s.graph).1 ≡ throw e
          → Move s i w (updating b) (go s i w (threw e))
      report :
          {b : Batch}
          → Move s i w
              (reporting b)
              (record (go s i w polling) { gts = q.get_data_callback b s.gts })
      exit : s.shutdown ≡ true → Move s i w refused (go s i w exited)
      stop : s.shutdown ≡ false → s.paused_flag ≡ true → Move s i w refused (go s i w locking)
      retry : s.shutdown ≡ false → s.paused_flag ≡ false → Move s i w refused (go s i w polling)
      pause :
          lock_free s.workers ≡ true
          → Move s i w locking (record s {
            workers = notify_all (set s.workers i (record { thr_paused = true; place = checking }));
          })
      doubt : may_go_on s ≡ false → Move s i w checking (go s i w dozing)
      block : Move s i w dozing (go s i w asleep)
      spurious : Move s i w asleep (go s i w woken)
      relock : lock_free s.workers ≡ true → Move s i w woken (go s i w checking)
      agree : may_go_on s ≡ true → Move s i w checking (go s i w resuming)
      unlock : Move s i w resuming (record s {
        workers = set s.workers i (record { thr_paused = false; place = announcing });
      })
      announce :
          Move s i w announcing
            (record s { workers = notify_all (set s.workers i (record w { place = polling })) })

    -- What the calling thread does next. While it is outside the calls, the guttering system may make
    -- batches ready for vertices of the graph; while the workers are paused, the calling thread may
    -- use the graph, as long as it leaves it holding the streams it held.
    pub data Call (s : System) : Phase → System → Type 0 where
      insert :
          (b : Batch) (gts : q.State)
          → b.0 < s.graph.num_nodes
          → q.queued gts ≡ q.queued s.gts ++ b ∷ []
          → q.non_block gts ≡ q.non_block s.gts
          → Call s running (record s { gts = gts; given = s.given ++ b ∷ [] })
      query :
          (g : Graph)
          → g.num_nodes ≡ s.graph.num_nodes
          → ((streams : ℕ → List ℕ) → Holds p d cfg s.graph streams → Holds p d cfg g streams)
          → Call s paused (record s { graph = g })
      pause_running : Call s running (record s { paused_flag = true; phase = pausing })
      pause_paused : Call s paused (record s { paused_flag = true; phase = pausing })
      pause_unblock :
          Call s pausing (record s { gts = q.set_non_block true s.gts; phase = waiting_paused })
      pause_return :
          lock_free s.workers ≡ true
          → Call s waiting_paused
              (record s { phase = if all_paused s.workers then paused else waiting_paused })
      unpause : Call s paused (record s { gts = q.set_non_block false s.gts; phase = unblocked })
      unpause_flag : Call s unblocked (record s { paused_flag = false; phase = unpausing })
      unpause_notify :
          Call s unpausing (record s { workers = notify_all s.workers; phase = waiting_unpaused })
      unpause_return :
          lock_free s.workers ≡ true
          → Call s waiting_unpaused
              (record s { phase = if all_unpaused s.workers then running else waiting_unpaused })
      stop_running :
          Call s running
            (if s.shutdown then s else (record s { shutdown = true; phase = stopping }))
      stop_paused :
          Call s paused (if s.shutdown then s else (record s { shutdown = true; phase = stopping }))
      stop_again :
          Call s stopped (if s.shutdown then s else record s { shutdown = true; phase = stopping })
      stop_unblock :
          Call s stopping (record s { gts = q.set_non_block true s.gts; phase = stop_unblocked })
      stop_notify :
          Call s stop_unblocked (record s { workers = notify_all s.workers; phase = joining })
      stop_return : all_exited s.workers ≡ true → Call s joining (record s { phase = stopped })

    pub data Step (s : System) : System → Type 0 where
      work :
          (i : ℕ) {w : Worker} {t : System}
          → get_elem? s.workers i ≡ some w
          → Move s i w w.place t
          → Step s t
      call : {t : System} → Call s s.phase t → Step s t

    -- Any number of steps.
    pub data Steps (s : System) : System → Type 0 where
      here : Steps s s
      next : {t u : System} → Steps s t → Step t u → Steps s u
