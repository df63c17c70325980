-- ===== src/Workers/LostWakeup.antt =====
-- `unpause_workers` resets `paused` without `pause_lock`: its one notification can fall between the
-- test of a worker's wait and the moment the worker blocks.
use mathlib.Core.Option.{some-injective}
use hyper_graph_streaming_cc.Prelude.{
  ℕ, zero, suc, ◌≡◌, refl, sym, ap, ◌∙◌, [], ◌∷◌, true, false, ◌⊎◌, inl, inr, arith, Option, none,
  some, get_elem?,
}
use hyper_graph_streaming_cc.Platform.{Platform, Doubles}
use hyper_graph_streaming_cc.Sketch.Defs.{Config}
use hyper_graph_streaming_cc.Graph.State.{Graph}
use hyper_graph_streaming_cc.Prelude.Totals.{total}
use hyper_graph_streaming_cc.Workers.Guttering.{Batch, GutteringSystem}
use hyper_graph_streaming_cc.Workers.Threads.{
  Place, asleep, woken, Worker, notify_all, lock_free, all_paused, all_unpaused,
}
use hyper_graph_streaming_cc.Workers.System.{
  Phase, waiting_unpaused, System, start_workers, go, Move, Call, Step, work, call, Steps, here,
  next, pause_running, pause_unblock, pause_return, unpause, unpause_flag, unpause_notify,
  unpause_return, refuse, stop, pause, doubt, block, spurious, relock,
}

refuses :
    (q : GutteringSystem) (s : q.State)
    → q.non_block s ≡ true
    → q.queued s ≡ []
    → (r : Option (Option Batch × q.State)) → q.get_data s ≡ r
    → (t : q.State) × (q.get_data s ≡ some (none, t))
unfolding total
refuses q s nb empty none got = absurd (q.get_data-waits s nb got)
refuses q s nb empty (some (none, t)) got = (t, got)
refuses q s nb empty (some (some b, t)) got =
    absurd (omega (arith, (q.get_data-valid s t b got).0 (λ c. 1), ap (total (λ c. 1)) empty))

module _ (q : GutteringSystem) (p : Platform) (d : Doubles) (cfg : Config) where
  -- The step leaves everything as it is, or a worker wakes up without a notification.
  abbrev pub Idles : System q → System q → Type 0
  Idles s t =
      (t ≡ s)
      ⊎ ((i : ℕ) × (w : Worker) × (get_elem? s.workers i ≡ some w)
          × (w.place ≡ asleep)
          × (t ≡ go q s i w woken))

  asleep-Move :
      (s : System q) (i : ℕ) (w : Worker) {at : Place} {t : System q}
      → get_elem? s.workers i ≡ some w
      → w.place ≡ at
      → at ≡ asleep
      → Move q p d cfg s i w at t
      → Idles s t
  asleep-Move s i w found e h spurious = inr (i, w, found, e, refl)
  asleep-Move s i w found e h mv = cc

  -- The state in which `paused` is reset, the only worker is blocked, and the notification is over.
  abbrev stuck : Graph → q.State → System q
  stuck g gts = record {
    graph = g;
    gts = gts;
    shutdown = false;
    paused_flag = false;
    workers = record { thr_paused = true; place = asleep } ∷ [];
    phase = waiting_unpaused;
    given = [];
    applied = [];
  }

  stuck-Call :
      (g : Graph) (gts : q.State) {ph : Phase} {t : System q}
      → ph ≡ waiting_unpaused
      → Call q p d cfg (stuck g gts) ph t
      → t ≡ stuck g gts
  unfolding all_unpaused
  stuck-Call g gts e (unpause_return free) = refl
  stuck-Call g gts e c = cc

  stuck-Step :
      (g : Graph) (gts : q.State) {t : System q}
      → Step q p d cfg (stuck g gts) t
      → Idles (stuck g gts) t
  stuck-Step g gts (work i {w} at mv) =
      asleep-Move (stuck g gts) i w at refl (only_asleep i w at) mv
    where
      only_asleep :
          (i : ℕ) (w : Worker)
          → get_elem? (record { thr_paused = true; place = asleep } ∷ []) i ≡ some w
          → w.place ≡ asleep
      only_asleep zero w e =
          ap Worker.place (some-injective w (record { thr_paused = true; place = asleep }) (sym e))
      only_asleep (suc i) w e = cc
  stuck-Step g gts (call c) = inl (stuck-Call g gts refl c)

  -- For every graph, and every guttering system that has no batch queued, a single worker
  -- can come into this state: the calling thread is in the loop of `unpause_workers` and has sent its
  -- only notification, `paused` is reset, the worker is blocked with `thr_paused` set, and from
  -- there every step leaves the whole state as it is, but for a wake-up of the worker that no
  -- notification causes.
  pub lost_wakeup :
      (g : Graph) (gts : q.State)
      → q.queued gts ≡ []
      → (s : System q) × Steps q p d cfg (start_workers q 1 g gts) s
        × (s.phase ≡ waiting_unpaused)
        × (s.paused_flag ≡ false)
        × (s.workers ≡ record { thr_paused = true; place = asleep } ∷ [])
        × ((t : System q) → Step q p d cfg s t → Idles s t)
  unfolding notify_all lock_free all_paused
  lost_wakeup g gts empty =
      let gts1 = q.set_non_block true gts in
      let (gts2, got) =
        refuses q gts1 (q.set_non_block-non_block true gts)
          (q.set_non_block-queued true gts ∙ empty) (q.get_data gts1) refl in
      let gts3 = q.set_non_block false gts2 in
      let to_refused =
        next (next (next here (call pause_running)) (call pause_unblock))
          (work 0 refl (refuse got)) in
      let to_asleep =
        next
          (next (next (next to_refused (work 0 refl (stop refl refl))) (work 0 refl (pause refl)))
            (work 0 refl (doubt refl)))
          (work 0 refl block) in
      let to_dozing =
        next
          (next (next (next to_asleep (call (pause_return refl))) (work 0 refl spurious))
            (work 0 refl (relock refl)))
          (work 0 refl (doubt refl)) in
      let notified =
        next (next (next to_dozing (call unpause)) (call unpause_flag)) (call unpause_notify) in
      (
        stuck g gts3,
        next notified (work 0 refl block),
        refl,
        refl,
        refl,
        λ t st. stuck-Step g gts3 st,
      )
