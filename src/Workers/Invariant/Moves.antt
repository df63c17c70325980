-- ===== src/Workers/Invariant/Moves.antt =====
-- A move of a worker keeps the invariant.
use hyper_graph_streaming_cc.Prelude.{
  subst, fun_ext, ℕ, ◌+◌, ◌≤◌, ◌<◌, ◌≡◌, refl, sym, ap, ◌∙◌, List, [], ◌∷◌, ◌++◌, true, false,
  arith, some, get_elem?, set, length-set,
}
use hyper_graph_streaming_cc.Platform.{Platform, Doubles}
use hyper_graph_streaming_cc.Sketch.Defs.{Config}
use hyper_graph_streaming_cc.Graph.State.{Graph}
use hyper_graph_streaming_cc.Graph.Update.{batch_update}
use hyper_graph_streaming_cc.Graph.Update.Laws.{Holds, batch_update-Holds}
use hyper_graph_streaming_cc.Prelude.Totals.{total, total-append}
use hyper_graph_streaming_cc.Workers.Guttering.{Batch, GutteringSystem}
use hyper_graph_streaming_cc.Workers.Threads.{
  Place, polling, updating, reporting, refused, locking, checking, dozing, asleep, woken, resuming,
  announcing, exited, Worker, wake, notify_all,
}
use hyper_graph_streaming_cc.Workers.Threads.Every.{
  Every-at, Every-set, Every-notify_all, Every-map, tally, tally-set, tally-ge, tally-notify_all,
  holders, length-notify_all, lock_free-tally,
}
use hyper_graph_streaming_cc.Workers.System.{
  System, Move, take, refuse, update, fail, report, exit, stop, retry, pause, doubt, block,
  spurious, relock, agree, unlock, announce,
}
use hyper_graph_streaming_cc.Workers.Invariant.Defs.{Fits, Flags, held, stray, after, Inv}
use hyper_graph_streaming_cc.Workers.Invariant.Places.{
  wake-Fits, take_fits, refuse_fits, update_fits, report_fits, exit_fits, refused_fits, pause_fits,
  settled-fits, agree_fits, unlock_fits, announce_fits,
}
use hyper_graph_streaming_cc.Workers.Invariant.Streams.{after-concat}

held-wake : (w : Batch → ℕ) (at : Place) → held w (wake at) ≡ held w at
held-wake w asleep = refl
held-wake w at = refl

holders-wake : (at : Place) → holders (wake at) ≡ holders at
holders-wake asleep = refl
holders-wake at = refl

module _ (q : GutteringSystem) (p : Platform) (d : Doubles) (cfg : Config) (groups : ℕ)
    (streams : ℕ → List ℕ) (s : System q) (inv : Inv q p d cfg groups streams s) where
  pub notify_all-Inv : Inv q p d cfg groups streams (record s { workers = notify_all s.workers })
  notify_all-Inv = record {
    count = length-notify_all s.workers ∙ inv.count;
    flags = inv.flags;
    every =
        Every-notify_all (Fits s.phase (q.queued s.gts ≡ []))
          (λ w h. wake-Fits s.phase (q.queued s.gts ≡ []) w h) s.workers inv.every;
    locked = omega (arith, inv.locked, tally-notify_all holders holders-wake s.workers);
    kept = λ w. omega (arith, inv.kept w, tally-notify_all (held w) (held-wake w) s.workers);
    in_range = inv.in_range;
    graph = inv.graph;
  }

module _ (q : GutteringSystem) (p : Platform) (d : Doubles) (cfg : Config) (groups : ℕ)
    (streams : ℕ → List ℕ) (s : System q) (inv : Inv q p d cfg groups streams s) where
  module _ (i : ℕ) (w : Worker) (at : get_elem? s.workers i ≡ some w) where
    -- What a worker that moves has to show: it goes on as `v`, and leaves the shared state so.
    put-Inv :
        (v : Worker) (gts : q.State) (g : Graph) (applied : List Batch)
        → Fits s.phase (q.queued gts ≡ []) v
        → tally holders s.workers + holders v.place ≤ 1 + holders w.place
        → (q.queued s.gts ≡ [] → q.queued gts ≡ [])
        → q.non_block gts ≡ q.non_block s.gts
        → ((f : Batch → ℕ)
            → total f (q.queued s.gts) + held f w.place + total f s.applied
              ≡ total f (q.queued gts) + held f v.place + total f applied)
        → g.num_nodes ≡ s.graph.num_nodes
        → Holds p d cfg g (after q p d cfg streams applied)
        → Inv q p d cfg groups streams
            (record s { workers = set s.workers i v; gts = gts; graph = g; applied = applied })
    put-Inv v gts g applied fit lock quiet nb moved nodes holds = record {
      count = length-set s.workers i v ∙ inv.count;
      flags = subst (Flags s.phase s.shutdown s.paused_flag) (sym nb) inv.flags;
      every = Every-set (Fits s.phase (q.queued gts ≡ [])) s.workers i v fit (
          Every-map (Fits s.phase (q.queued s.gts ≡ [])) (Fits s.phase (q.queued gts ≡ []))
            (λ u h. (h.0, h.1, λ e. quiet (h.2 e))) s.workers inv.every);
      locked = omega (arith, lock, tally-set holders s.workers i w v at);
      kept = λ f. omega (arith, inv.kept f, moved f, tally-set (held f) s.workers i w v at);
      in_range = subst (λ n. total (stray n) s.given ≡ 0) (sym nodes) inv.in_range;
      graph = holds;
    }

    -- A move that changes nothing that the workers share.
    go-Inv :
        (v : Worker)
        → Fits s.phase (q.queued s.gts ≡ []) v
        → tally holders s.workers + holders v.place ≤ 1 + holders w.place
        → ((f : Batch → ℕ) → held f w.place ≡ held f v.place)
        → Inv q p d cfg groups streams (record s { workers = set s.workers i v })
    go-Inv v fit lock same =
        put-Inv v s.gts s.graph s.applied fit lock (λ e. e) refl (λ f. omega (arith, same f)) refl
          inv.graph

    fit : Fits s.phase (q.queued s.gts ≡ []) w
    fit = Every-at (Fits s.phase (q.queued s.gts ≡ [])) s.workers i w at inv.every

    -- A worker that takes a batch holds it for a vertex of the graph.
    pub held-lt : (b : Batch) → w.place ≡ updating b → b.0 < s.graph.num_nodes
    held-lt b e =
        let n = s.graph.num_nodes in
        ground (
          arith,
          inv.kept (stray n),
          inv.in_range,
          tally-ge (held (stray n)) s.workers i w at,
          ap (held (stray n)) e,
        )

    here :
        (to : Place) → w.place ≡ to → Fits s.phase (q.queued s.gts ≡ []) (record w { place = to })
    here to e = subst (λ a. Fits s.phase (q.queued s.gts ≡ []) (record w { place = a })) e fit

    -- Every move keeps the invariant.
    pub Move-Inv :
        {to : Place} {t : System q}
        → Move q p d cfg s i w to t
        → w.place ≡ to
        → Inv q p d cfg groups streams t
    unfolding total
    Move-Inv (take {b} {gts} got) e =
        let (weights, nb) = q.get_data-valid s.gts gts b got in
        let h = here polling e in
        put-Inv (record w { place = updating b }) gts s.graph s.applied
          (h.0, take_fits s.phase b h.1, λ c. cc) (omega (arith, inv.locked, ap holders e))
          (λ none_left. absurd (omega (arith, weights (λ c. 1), ap (total (λ c. 1)) none_left))) nb
          (λ f. omega (arith, weights f, ap (held f) e)) refl inv.graph
    Move-Inv (refuse {gts} got) e =
        let (nb, quiet, quiet', nb') = q.get_data-invalid s.gts gts got in
        let h = here polling e in
        put-Inv (record w { place = refused }) gts s.graph s.applied
          (
            h.0,
            refuse_fits s.phase s.shutdown s.paused_flag (q.non_block s.gts) inv.flags nb h.1,
            λ c. quiet',
          )
          (omega (arith, inv.locked, ap holders e)) (λ c. quiet') (nb' ∙ sym nb)
          (λ f. omega (arith, ap (held f) e, ap (total f) quiet, ap (total f) quiet')) refl
          inv.graph
    Move-Inv (update {b} {delta} done) e =
        let h = here (updating b) e in
        let (_, _, nodes, holds) =
          batch_update-Holds p d cfg b.0 b.1 s.graph (after q p d cfg streams s.applied) inv.graph
            (held-lt b e) in
        put-Inv (record w { place = reporting b }) s.gts (batch_update p d cfg b.0 b.1 s.graph).0
          (s.applied ++ b ∷ []) (h.0, update_fits s.phase b h.1, λ c. cc)
          (omega (arith, inv.locked, ap holders e)) (λ c. c) refl
          (λ f. omega (arith, ap (held f) e, total-append f s.applied (b ∷ []))) nodes
          (subst (Holds p d cfg (batch_update p d cfg b.0 b.1 s.graph).0)
            (fun_ext (after-concat q p d cfg streams s.applied b)) holds)
    Move-Inv (fail {b} thrown) e =
        let (delta, applied, _, _) =
          batch_update-Holds p d cfg b.0 b.1 s.graph (after q p d cfg streams s.applied) inv.graph
            (held-lt b e) in
        absurd (ground (arith, applied, thrown))
    Move-Inv (report {b}) e =
        let h = here (reporting b) e in
        let same = q.get_data_callback-queued b s.gts in
        put-Inv (record w { place = polling }) (q.get_data_callback b s.gts) s.graph s.applied
          (h.0, report_fits s.phase b h.1, λ c. cc) (omega (arith, inv.locked, ap holders e))
          (λ quiet. same ∙ quiet) (q.get_data_callback-non_block b s.gts)
          (λ f. omega (arith, ap (held f) e, ap (total f) same)) refl inv.graph
    Move-Inv (exit down) e =
        let h = here refused e in
        go-Inv (record w { place = exited })
          (
            h.0,
            exit_fits s.phase s.shutdown s.paused_flag (q.non_block s.gts) inv.flags down h.1,
            λ c. h.2 refl,
          )
          (omega (arith, inv.locked, ap holders e)) (λ f. ap (held f) e)
    Move-Inv (stop up on) e =
        let h = here refused e in
        go-Inv (record w { place = locking }) (h.0, (refused_fits s.phase h.1).0, λ c. h.2 refl)
          (omega (arith, inv.locked, ap holders e)) (λ f. ap (held f) e)
    Move-Inv (retry up off) e =
        let h = here refused e in
        go-Inv (record w { place = polling }) (h.0, (refused_fits s.phase h.1).1, λ c. cc)
          (omega (arith, inv.locked, ap holders e)) (λ f. ap (held f) e)
    Move-Inv (pause free) e =
        let h = here locking e in
        notify_all-Inv q p d cfg groups streams _ (
          go-Inv (record { thr_paused = true; place = checking })
            (refl, pause_fits s.phase h.1, λ c. h.2 refl)
            (omega (arith, lock_free-tally s.workers free)) (λ f. ap (held f) e))
    Move-Inv (doubt stay) e =
        let h = here checking e in
        go-Inv (record w { place = dozing })
          (h.0, settled-fits s.phase checking dozing refl refl h.1, λ c. h.2 refl)
          (omega (arith, inv.locked, ap holders e)) (λ f. ap (held f) e)
    Move-Inv block e =
        let h = here dozing e in
        go-Inv (record w { place = asleep })
          (h.0, settled-fits s.phase dozing asleep refl refl h.1, λ c. h.2 refl)
          (omega (arith, inv.locked, ap holders e)) (λ f. ap (held f) e)
    Move-Inv spurious e =
        let h = here asleep e in
        go-Inv (record w { place = woken })
          (h.0, settled-fits s.phase asleep woken refl refl h.1, λ c. h.2 refl)
          (omega (arith, inv.locked, ap holders e)) (λ f. ap (held f) e)
    Move-Inv (relock free) e =
        let h = here woken e in
        go-Inv (record w { place = checking })
          (h.0, settled-fits s.phase woken checking refl refl h.1, λ c. h.2 refl)
          (omega (arith, lock_free-tally s.workers free)) (λ f. ap (held f) e)
    Move-Inv (agree may) e =
        let h = here checking e in
        go-Inv (record w { place = resuming })
          (
            h.0,
            agree_fits s.phase s.shutdown s.paused_flag (q.non_block s.gts) inv.flags may h.1,
            λ c. h.2 refl,
          )
          (omega (arith, inv.locked, ap holders e)) (λ f. ap (held f) e)
    Move-Inv unlock e =
        let h = here resuming e in
        go-Inv (record { thr_paused = false; place = announcing })
          (refl, unlock_fits s.phase h.1, λ c. cc) (omega (arith, inv.locked, ap holders e))
          (λ f. ap (held f) e)
    Move-Inv announce e =
        let h = here announcing e in
        notify_all-Inv q p d cfg groups streams _ (
          go-Inv (record w { place = polling }) (h.0, announce_fits s.phase h.1, λ c. cc)
            (omega (arith, inv.locked, ap holders e)) (λ f. ap (held f) e))
