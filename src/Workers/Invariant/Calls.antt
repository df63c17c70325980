-- ===== src/Workers/Invariant/Calls.antt =====
-- A step of the calling thread keeps the invariant.
use hyper_graph_streaming_cc.Prelude.{
  subst, ℕ, ◌≡◌, refl, sym, ap, ◌∙◌, List, [], ◌∷◌, Bool, true, false, Bool-cases, inl, inr,
  if◌then◌else◌, arith,
}
use hyper_graph_streaming_cc.Platform.{Platform, Doubles}
use hyper_graph_streaming_cc.Sketch.Defs.{Config}
use hyper_graph_streaming_cc.Prelude.Totals.{total, total-append}
use hyper_graph_streaming_cc.Workers.Guttering.{GutteringSystem}
use hyper_graph_streaming_cc.Workers.Threads.{
  Place, Worker, has_exited, holds_lock, all_paused, all_unpaused,
}
use hyper_graph_streaming_cc.Workers.Threads.Every.{
  Every, Every-map, Every-both, lock_free-Every, all_paused-Every, all_unpaused-Every,
  all_exited-Every,
}
use hyper_graph_streaming_cc.Workers.System.{
  Phase, running, pausing, waiting_paused, paused, unblocked, unpausing, waiting_unpaused, stopping,
  stop_unblocked, joining, stopped, System, Call, insert, query, pause_running, pause_paused,
  pause_unblock, pause_return, unpause, unpause_flag, unpause_notify, unpause_return, stop_running,
  stop_paused, stop_again, stop_unblock, stop_notify, stop_return,
}
use hyper_graph_streaming_cc.Workers.Invariant.Defs.{inside, fits, Fits, Flags, stray, after, Inv}
use hyper_graph_streaming_cc.Workers.Invariant.Moves.{notify_all-Inv}
use hyper_graph_streaming_cc.Workers.Invariant.Places.{
  running_fits, paused_fits, pause_return_fits, unpause_return_fits, running-not_idle,
}

-- The places of the workers in a phase, with what else is known of them.
module _ (q : GutteringSystem) (p : Platform) (d : Doubles) (cfg : Config) (groups : ℕ)
    (streams : ℕ → List ℕ) (s : System q) (inv : Inv q p d cfg groups streams s) where
  -- The calling thread goes on, where the workers' places fit its new phase.
  turn-Inv :
      (Known : Worker → Type 0) (ph : Phase) (sh pf : Bool) (gts : q.State)
      → Every Known s.workers
      → ((w : Worker)
          → Known w
          → w.thr_paused ≡ inside w.place
          → fits s.phase w.place ≡ true
          → fits ph w.place ≡ true)
      → Flags ph sh pf (q.non_block gts)
      → q.queued gts ≡ q.queued s.gts
      → Inv q p d cfg groups streams
          (record s { phase = ph; shutdown = sh; paused_flag = pf; gts = gts })
  turn-Inv Known ph sh pf gts known to flags same = record {
    count = inv.count;
    flags = flags;
    every =
        Every-map (λ w. Known w × Fits s.phase (q.queued s.gts ≡ []) w)
          (Fits ph (q.queued gts ≡ [])) (λ w h. (h.1.0, to w h.0 h.1.0 h.1.1, λ e. same ∙ h.1.2 e))
          s.workers
          (Every-both Known (Fits s.phase (q.queued s.gts ≡ [])) s.workers known inv.every);
    locked = inv.locked;
    kept = λ f. omega (arith, inv.kept f, ap (total f) same);
    in_range = inv.in_range;
    graph = inv.graph;
  }

  -- The same where only the phase and the workers' old places are needed.
  plain-Inv :
      (ph : Phase) (sh pf : Bool) (gts : q.State)
      → ((at : Place) → fits s.phase at ≡ true → fits ph at ≡ true)
      → Flags ph sh pf (q.non_block gts)
      → q.queued gts ≡ q.queued s.gts
      → Inv q p d cfg groups streams
          (record s { phase = ph; shutdown = sh; paused_flag = pf; gts = gts })
  plain-Inv ph sh pf gts to flags same =
      turn-Inv (Fits s.phase (q.queued s.gts ≡ [])) ph sh pf gts inv.every
        (λ w h paused_there fit. to w.place fit) flags same

  Flags-at : (ph : Phase) → s.phase ≡ ph → Flags ph s.shutdown s.paused_flag (q.non_block s.gts)
  Flags-at ph e = subst (λ x. Flags x s.shutdown s.paused_flag (q.non_block s.gts)) e inv.flags

  fits_at : (ph : Phase) → s.phase ≡ ph → (at : Place) → fits s.phase at ≡ true → fits ph at ≡ true
  fits_at ph e at h = ap (λ x. fits x at) (sym e) ∙ h

  pub Call-Inv :
      {ph : Phase} {t : System q}
      → Call q p d cfg s ph t
      → s.phase ≡ ph
      → Inv q p d cfg groups streams t
  unfolding total
  Call-Inv (insert b gts lt more nb) e = record {
    count = inv.count;
    flags = subst (Flags s.phase s.shutdown s.paused_flag) (sym nb) inv.flags;
    every =
        Every-map (Fits s.phase (q.queued s.gts ≡ [])) (Fits s.phase (q.queued gts ≡ []))
          (λ w h. (
            h.0,
            h.1,
            λ i.
                absurd
                  (ground (arith, i, running-not_idle w.place (fits_at running e w.place h.1))),
          ))
          s.workers inv.every;
    locked = inv.locked;
    kept = λ f. omega (
      arith,
      inv.kept f,
      ap (total f) more,
      total-append f (q.queued s.gts) (b ∷ []),
      total-append f s.given (b ∷ []),
    );
    in_range =
        ground (arith, inv.in_range, total-append (stray s.graph.num_nodes) s.given (b ∷ []));
    graph = inv.graph;
  }
  Call-Inv (query g same keep) e = record {
    count = inv.count;
    flags = inv.flags;
    every = inv.every;
    locked = inv.locked;
    kept = inv.kept;
    in_range = subst (λ n. total (stray n) s.given ≡ 0) (sym same) inv.in_range;
    graph = keep (after q p d cfg streams s.applied) inv.graph;
  }
  Call-Inv pause_running e =
      let (up, _, _) = Flags-at running e in
      plain-Inv pausing s.shutdown true s.gts (λ at h. (running_fits at (fits_at running e at h)).0)
        (up, refl) refl
  Call-Inv pause_paused e =
      let (up, _, _) = Flags-at paused e in
      plain-Inv pausing s.shutdown true s.gts (λ at h. (paused_fits at (fits_at paused e at h)).0)
        (up, refl) refl
  Call-Inv pause_unblock e =
      let (up, on) = Flags-at pausing e in
      plain-Inv waiting_paused s.shutdown s.paused_flag (q.set_non_block true s.gts)
        (fits_at pausing e) (up, on, q.set_non_block-non_block true s.gts)
        (q.set_non_block-queued true s.gts)
  Call-Inv (pause_return free) e = elim (Bool-cases (all_paused s.workers)) [
    | inl all ↦
        subst
          (λ b.
            Inv q p d cfg groups streams
              (record s { phase = if b then paused else waiting_paused }))
          (sym all)
          (turn-Inv (λ w. (holds_lock w.place ≡ false) × (w.thr_paused ≡ true)) paused s.shutdown
            s.paused_flag s.gts
            (Every-both (λ w. holds_lock w.place ≡ false) (λ w. w.thr_paused ≡ true) s.workers
              (lock_free-Every s.workers free) (all_paused-Every s.workers all))
            (λ w known there fit. pause_return_fits w.place (sym there ∙ known.1) known.0)
            (Flags-at waiting_paused e) refl)
    | inr some_work ↦
        subst
          (λ b.
            Inv q p d cfg groups streams
              (record s { phase = if b then paused else waiting_paused }))
          (sym some_work)
          (plain-Inv waiting_paused s.shutdown s.paused_flag s.gts (fits_at waiting_paused e)
            (Flags-at waiting_paused e) refl)
  ]
  Call-Inv unpause e =
      let (up, on, _) = Flags-at paused e in
      plain-Inv unblocked s.shutdown s.paused_flag (q.set_non_block false s.gts) (fits_at paused e)
        (up, on, q.set_non_block-non_block false s.gts) (q.set_non_block-queued false s.gts)
  Call-Inv unpause_flag e =
      let (up, _, nb) = Flags-at unblocked e in
      plain-Inv unpausing s.shutdown false s.gts
        (λ at h. (paused_fits at (fits_at unblocked e at h)).1) (up, refl, nb) refl
  Call-Inv unpause_notify e = notify_all-Inv q p d cfg groups streams _ (
      plain-Inv waiting_unpaused s.shutdown s.paused_flag s.gts (fits_at unpausing e)
        (Flags-at unpausing e) refl)
  Call-Inv (unpause_return free) e = elim (Bool-cases (all_unpaused s.workers)) [
    | inl all ↦
        subst
          (λ b.
            Inv q p d cfg groups streams
              (record s { phase = if b then running else waiting_unpaused }))
          (sym all)
          (turn-Inv (λ w. w.thr_paused ≡ false) running s.shutdown s.paused_flag s.gts
            (all_unpaused-Every s.workers all)
            (λ w known there fit.
              unpause_return_fits w.place (sym there ∙ known)
                (fits_at waiting_unpaused e w.place fit))
            (Flags-at waiting_unpaused e) refl)
    | inr some_paused ↦
        subst
          (λ b.
            Inv q p d cfg groups streams
              (record s { phase = if b then running else waiting_unpaused }))
          (sym some_paused)
          (plain-Inv waiting_unpaused s.shutdown s.paused_flag s.gts (fits_at waiting_unpaused e)
            (Flags-at waiting_unpaused e) refl)
  ]
  Call-Inv stop_running e =
      let (up, _, _) = Flags-at running e in
      subst
        (λ b.
          Inv q p d cfg groups streams
            (if b then s else (record s { shutdown = true; phase = stopping })))
        (sym up)
        (plain-Inv stopping true s.paused_flag s.gts
          (λ at h. (running_fits at (fits_at running e at h)).1) refl refl)
  Call-Inv stop_paused e =
      let (up, _, _) = Flags-at paused e in
      subst
        (λ b.
          Inv q p d cfg groups streams
            (if b then s else (record s { shutdown = true; phase = stopping })))
        (sym up)
        (plain-Inv stopping true s.paused_flag s.gts
          (λ at h. (paused_fits at (fits_at paused e at h)).2) refl refl)
  Call-Inv stop_again e =
      let (down, _) = Flags-at stopped e in
      subst
        (λ b.
          Inv q p d cfg groups streams
            (if b then s else (record s { shutdown = true; phase = stopping })))
        (sym down) inv
  Call-Inv stop_unblock e =
      plain-Inv stop_unblocked s.shutdown s.paused_flag (q.set_non_block true s.gts)
        (fits_at stopping e) (Flags-at stopping e, q.set_non_block-non_block true s.gts)
        (q.set_non_block-queued true s.gts)
  Call-Inv stop_notify e = notify_all-Inv q p d cfg groups streams _ (
      plain-Inv joining s.shutdown s.paused_flag s.gts (fits_at stop_unblocked e)
        (Flags-at stop_unblocked e) refl)
  Call-Inv (stop_return all) e =
      turn-Inv (λ w. has_exited w.place ≡ true) stopped s.shutdown s.paused_flag s.gts
        (all_exited-Every s.workers all) (λ w known there fit. known) (Flags-at joining e) refl
