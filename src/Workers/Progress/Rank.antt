-- ===== src/Workers/Progress/Rank.antt =====
-- While `pause_workers` waits, any worker that is not asleep and is not waiting for the lock has a
-- move that brings the end of the wait nearer.
use hyper_graph_streaming_cc.Prelude.{
  subst, ℕ, suc, ◌+◌, ◌*◌, ◌≤◌, ◌<◌, ◌≡◌, refl, sym, ap, List, [], ◌∷◌, Bool, true, false, ◌⊎◌, inl,
  inr, Bool-cases, length, arith, Option, none, some, get_elem?, set, length-set,
}
use hyper_graph_streaming_cc.Platform.{Platform, Doubles}
use hyper_graph_streaming_cc.Sketch.Defs.{Config}
use hyper_graph_streaming_cc.Graph.Update.Laws.{batch_update-Holds}
use hyper_graph_streaming_cc.Prelude.Totals.{total}
use hyper_graph_streaming_cc.Workers.Guttering.{Batch, GutteringSystem}
use hyper_graph_streaming_cc.Workers.Threads.{
  Place, polling, updating, reporting, refused, locking, checking, dozing, asleep, woken, resuming,
  announcing, exited, threw, Worker, wake, notify_all, holds_lock, lock_free,
}
use hyper_graph_streaming_cc.Workers.Threads.Every.{Every, tally, tally-set}
use hyper_graph_streaming_cc.Workers.System.{
  waiting_paused, System, Move, Step, work, take, refuse, update, report, stop, pause, doubt, block,
  relock, unlock, announce,
}
use hyper_graph_streaming_cc.Workers.Invariant.Defs.{fits, Flags, inside, after, Inv}
use hyper_graph_streaming_cc.Workers.Invariant.Moves.{held-lt}

-- How far a worker is from its sleep, where each of `n` workers may be woken up on the way.
rank : ℕ → Place → ℕ
rank n dozing = 1
rank n checking = 2
rank n woken = 3
rank n locking = 3 * n + 3
rank n refused = 3 * n + 4
rank n polling = 3 * n + 5
rank n (reporting b) = 3 * n + 6
rank n (updating b) = 3 * n + 7
rank n announcing = 6 * n + 6
rank n resuming = 6 * n + 7
rank n _ = 0

abbrev pub awake : Place → Bool
awake asleep = false
awake _ = true

rank-wake : (n : ℕ) (at : Place) → rank n (wake at) ≤ rank n at + 3
unfolding rank
rank-wake n asleep = omega arith
rank-wake n at = omega arith

tally-rank-notify_all :
    (n : ℕ) (ws : List Worker) → tally (rank n) (notify_all ws) ≤ tally (rank n) ws + 3 * length ws
unfolding tally notify_all
tally-rank-notify_all n [] = omega arith
tally-rank-notify_all n (w ∷ ws) = omega (arith, rank-wake n w.place, tally-rank-notify_all n ws)

-- A worker that satisfies a test on its place, or all that do not.
pub find_place :
    (test : Place → Bool) (ws : List Worker)
    → Every (λ w. test w.place ≡ false) ws
      ⊎ ((i : ℕ) × (w : Worker) × (get_elem? ws i ≡ some w) × (test w.place ≡ true))
find_place test [] = inl tt
find_place test (w ∷ ws) = elim (Bool-cases (test w.place)) [
  | inl e ↦ inr (0, w, refl, e)
  | inr e ↦ elim (find_place test ws) [
    | inl none_found ↦ inl (e, none_found)
    | inr (i, v, at, h) ↦ inr (suc i, v, at, h)
  ]
]

pub asleep-facts : (at : Place) → awake at ≡ false → (holds_lock at ≡ false) × (inside at ≡ true)
asleep-facts asleep h = (refl, refl)
asleep-facts at h = cc

pub holds_lock-awake : (at : Place) → holds_lock at ≡ true → awake at ≡ true
holds_lock-awake asleep h = cc
holds_lock-awake at h = refl

module _ (q : GutteringSystem) (p : Platform) (d : Doubles) (cfg : Config) (groups : ℕ)
    (streams : ℕ → List ℕ) where
  -- What is left to do before all workers sleep.
  pub measure : System q → ℕ
  measure s = 3 * total (λ b. 1) (q.queued s.gts) + tally (rank groups) s.workers

  -- A step that brings the end of the wait nearer.
  abbrev pub Nearer : System q → Type 0
  Nearer s =
      (t : System q) × Step q p d cfg s t × (t.phase ≡ waiting_paused) × (measure t < measure s)

  module _ (s : System q) (inv : Inv q p d cfg groups streams s) (e : s.phase ≡ waiting_paused)
      (i : ℕ) (w : Worker) (found : get_elem? s.workers i ≡ some w) where
    flags : Flags waiting_paused s.shutdown s.paused_flag (q.non_block s.gts)
    flags = subst (λ x. Flags x s.shutdown s.paused_flag (q.non_block s.gts)) e inv.flags

    by : {at : Place} {t : System q} → Move q p d cfg s i w at t → w.place ≡ at → Step q p d cfg s t
    by {t} mv here_at = work i found (subst (λ a. Move q p d cfg s i w a t) (sym here_at) mv)

    moved :
        (v : Worker)
        → tally (rank groups) (set s.workers i v) + rank groups w.place
          ≡ tally (rank groups) s.workers + rank groups v.place
    moved v = tally-set (rank groups) s.workers i w v found

    -- A move that leaves the guttering system alone.
    go-Nearer :
        (at : Place) (v : Worker)
        → w.place ≡ at
        → rank groups v.place < rank groups at
        → Move q p d cfg s i w at (record s { workers = set s.workers i v })
        → Nearer s
    unfolding measure
    go-Nearer at v here_at less mv =
        (_, by mv here_at, e, omega (arith, moved v, ap (rank groups) here_at))

    poll :
        (r : Option (Option Batch × q.State)) → q.get_data s.gts ≡ r → w.place ≡ polling → Nearer s
    unfolding measure rank total
    poll none got here_at = absurd (q.get_data-waits s.gts flags.2 got)
    poll (some (none, gts)) got here_at =
        let (_, quiet, quiet', _) = q.get_data-invalid s.gts gts got in
        (
          _,
          by (refuse got) here_at,
          e,
          omega (
            arith,
            moved (record w { place = refused }),
            ap (rank groups) here_at,
            ap (total (λ b. 1)) quiet,
            ap (total (λ b. 1)) quiet',
          ),
        )
    poll (some (some b, gts)) got here_at = (
      _,
      by (take got) here_at,
      e,
      omega (
        arith,
        moved (record w { place = updating b }),
        ap (rank groups) here_at,
        (q.get_data-valid s.gts gts b got).0 (λ c. 1),
      ),
    )

    pub nearer :
        (at : Place)
        → w.place ≡ at
        → fits waiting_paused at ≡ true
        → awake at ≡ true
        → (holds_lock at ≡ true) ⊎ (lock_free s.workers ≡ true)
        → Nearer s
    unfolding measure rank
    nearer polling here_at fit up free = poll (q.get_data s.gts) refl here_at
    nearer (updating b) here_at fit up free =
        let (delta, done, _, _) =
          batch_update-Holds p d cfg b.0 b.1 s.graph (after q p d cfg streams s.applied) inv.graph
            (held-lt q p d cfg groups streams s inv i w found b here_at) in
        (
          _,
          by (update done) here_at,
          e,
          omega (arith, moved (record w { place = reporting b }), ap (rank groups) here_at),
        )
    nearer (reporting b) here_at fit up free = (
      _,
      by report here_at,
      e,
      omega (
        arith,
        moved (record w { place = polling }),
        ap (rank groups) here_at,
        ap (total (λ c. 1)) (q.get_data_callback-queued b s.gts),
      ),
    )
    nearer refused here_at fit up free =
        go-Nearer refused (record w { place = locking }) here_at (omega arith)
          (stop flags.0 flags.1)
    nearer locking here_at fit up (inl h) = cc
    nearer locking here_at fit up (inr free) =
        let v : Worker = record { thr_paused = true; place = checking } in
        (
          _,
          by (pause free) here_at,
          e,
          omega (
            arith,
            moved v,
            ap (rank groups) here_at,
            tally-rank-notify_all groups (set s.workers i v),
            length-set s.workers i v,
            inv.count,
          ),
        )
    nearer checking here_at fit up free =
        go-Nearer checking (record w { place = dozing }) here_at (omega arith)
          (doubt (ground (arith, flags)))
    nearer dozing here_at fit up free =
        go-Nearer dozing (record w { place = asleep }) here_at (omega arith) block
    nearer asleep here_at fit up free = cc
    nearer woken here_at fit up (inl h) = cc
    nearer woken here_at fit up (inr free) =
        go-Nearer woken (record w { place = checking }) here_at (omega arith) (relock free)
    nearer resuming here_at fit up free =
        go-Nearer resuming (record { thr_paused = false; place = announcing }) here_at (omega arith)
          unlock
    nearer announcing here_at fit up free =
        let v = record w { place = polling } in
        (
          _,
          by announce here_at,
          e,
          omega (
            arith,
            moved v,
            ap (rank groups) here_at,
            tally-rank-notify_all groups (set s.workers i v),
            length-set s.workers i v,
            inv.count,
          ),
        )
    nearer exited here_at fit up free = cc
    nearer (threw x) here_at fit up free = cc
