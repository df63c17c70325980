-- ===== src/Workers/Invariant/Defs.antt =====
-- The invariant of the protocol: which places fit which phase, what the flags are, and where the
-- batches are.
use hyper_graph_streaming_cc.Prelude.{
  ℕ, ◌+◌, ◌≤◌, ◌≡◌, List, [], ◌++◌, map, Bool, true, false, not, ◌||◌, length, ltb, if◌then◌else◌,
}
use hyper_graph_streaming_cc.Platform.{Platform, Doubles}
use hyper_graph_streaming_cc.Sketch.Defs.{Config}
use hyper_graph_streaming_cc.Graph.Update.{edge_code}
use hyper_graph_streaming_cc.Graph.Update.Laws.{Holds}
use hyper_graph_streaming_cc.Graph.Update.Ingest.{delivered}
use hyper_graph_streaming_cc.Prelude.Totals.{total}
use hyper_graph_streaming_cc.Workers.Guttering.{Batch, GutteringSystem}
use hyper_graph_streaming_cc.Workers.Threads.{
  Place, polling, updating, reporting, refused, locking, checking, dozing, asleep, woken, resuming,
  announcing, exited, threw, Worker, has_exited,
}
use hyper_graph_streaming_cc.Workers.Threads.Every.{Every, tally, holders}
use hyper_graph_streaming_cc.Workers.System.{
  Phase, running, pausing, waiting_paused, paused, unblocked, unpausing, waiting_unpaused, stopping,
  stopped, System,
}

-- Asleep, or on the way there without a chance to go on while `paused` is set.
abbrev pub settled : Place → Bool
settled checking = true
settled dozing = true
settled asleep = true
settled woken = true
settled _ = false

-- The places where `thr_paused` is set.
abbrev pub inside : Place → Bool
inside resuming = true
inside at = settled at

-- At work, or on the way to more.
abbrev pub active : Place → Bool
active polling = true
active (updating b) = true
active (reporting b) = true
active announcing = true
active _ = false

-- The places behind a `get_data` that returned false.
abbrev pub idle : Place → Bool
idle refused = true
idle locking = true
idle exited = true
idle at = inside at

abbrev pub failed : Place → Bool
failed (threw e) = true
failed _ = false

abbrev pub fits : Phase → Place → Bool
fits running at = active at
fits paused at = settled at
fits unblocked at = settled at
fits unpausing at = active at || inside at
fits waiting_unpaused at = active at || inside at
fits pausing at = not (failed at || has_exited at)
fits waiting_paused at = not (failed at || has_exited at)
fits stopped at = has_exited at
fits _ at = not (failed at)

-- What a worker's flag and place say, where `Quiet` is that no batch is queued.
abbrev pub Fits : Phase → Type 0 → Worker → Type 0
Fits ph Quiet w =
    (w.thr_paused ≡ inside w.place) × (fits ph w.place ≡ true) × (idle w.place ≡ true → Quiet)

-- `shutdown`, `paused` and whether the queue is not waited on.
abbrev pub Flags : Phase → Bool → Bool → Bool → Type 0
Flags running sh pf nb = (sh ≡ false) × (pf ≡ false) × (nb ≡ false)
Flags pausing sh pf nb = (sh ≡ false) × (pf ≡ true)
Flags waiting_paused sh pf nb = (sh ≡ false) × (pf ≡ true) × (nb ≡ true)
Flags paused sh pf nb = (sh ≡ false) × (pf ≡ true) × (nb ≡ true)
Flags unblocked sh pf nb = (sh ≡ false) × (pf ≡ true) × (nb ≡ false)
Flags unpausing sh pf nb = (sh ≡ false) × (pf ≡ false) × (nb ≡ false)
Flags waiting_unpaused sh pf nb = (sh ≡ false) × (pf ≡ false) × (nb ≡ false)
Flags stopping sh pf nb = sh ≡ true
Flags _ sh pf nb = (sh ≡ true) × (nb ≡ true)

-- The weight of the batch that a worker holds and has not applied.
abbrev pub held : (Batch → ℕ) → Place → ℕ
held w (updating b) = w b
held w _ = 0

-- 1 for a batch that is for no vertex of a graph with `n` vertices.
abbrev pub stray : ℕ → Batch → ℕ
stray n b = if ltb b.0 n then 0 else 1

module _ (q : GutteringSystem) (p : Platform) (d : Doubles) (cfg : Config) where
  -- The streams of the vertices after some batches.
  abbrev pub after : (ℕ → List ℕ) → List Batch → ℕ → List ℕ
  after streams bs i = streams i ++ map (edge_code p i) (delivered i bs)

  pub record Inv (groups : ℕ) (streams : ℕ → List ℕ) (s : System q) : Type 0 where
    pub count : length s.workers ≡ groups
    pub flags : Flags s.phase s.shutdown s.paused_flag (q.non_block s.gts)
    pub every : Every (Fits s.phase (q.queued s.gts ≡ [])) s.workers
    pub locked : tally holders s.workers ≤ 1
    pub kept :
        (w : Batch → ℕ)
        → total w s.given ≡ total w (q.queued s.gts) + tally (held w) s.workers + total w s.applied
    pub in_range : total (stray s.graph.num_nodes) s.given ≡ 0
    pub graph : Holds p d cfg s.graph (after streams s.applied)
