-- ===== src/Streams/Shared/Pool/Runs.antt =====
-- A call of a task in each of its cases, and any schedule of calls.
use hyper_graph_streaming_cc.Prelude.{
  ℕ, suc, ◌+◌, ◌*◌, ◌^◌, ◌<◌, ◌≤◌, ◌≡◌, ◌⊎◌, inl, inr, refl, ap, ◌∙◌, sym, subst, List, [], ◌∷◌,
  true, false, arith, some, length, take, drop, get_elem?, set, length-set, Bool-cases,
  Option-cases,
}
use hyper_graph_streaming_cc.Prelude.Blocks.{take-drop, drop-drop, drop_all, length-drop}
use hyper_graph_streaming_cc.Prelude.Totals.{total, total-append}
use hyper_graph_streaming_cc.Supernode.Defs.{Edge}
use hyper_graph_streaming_cc.Streams.{edge_size}
use hyper_graph_streaming_cc.Streams.Shared.{MtStreamReader, end_of_stream}
use hyper_graph_streaming_cc.Streams.Shared.Reads.{
  length-block, ReadsFully, moved, next_edge-Ahead, moved-Describes,
}
use hyper_graph_streaming_cc.Streams.Shared.Pool.{Task, Pool, receive, turn, run}
use hyper_graph_streaming_cc.Streams.Shared.Pool.Tasks.{
  Updates, Updates-take, Updates-drop, Busy, Pairs, Pairs-at, Pairs-set, Pairs-map, totals-set,
}
use hyper_graph_streaming_cc.Streams.Shared.Pool.Turns.{
  Reading, get_edge-buffered, get_edge-end, get_edge-refill, receive-update, turn-going, turn-idle,
}

next_place : (k q : ℕ) → suc k * q ≡ k * q + q
next_place k q = grind arith

module _ (pread : List ℕ → ℕ → ℕ → List ℕ) (full : ReadsFully pread) (fuel : ℕ)
    (es : List (Edge × ℕ)) (updates : Updates es) (q : ℕ) where
  -- A call that succeeds and keeps the edges.
  abbrev pub Kept : ℕ → ℕ → Pool → Type 0
  Kept k i pool =
      (k' : ℕ) × (pool' : Pool) × (turn pread (suc (suc fuel)) i pool ≡ some pool')
      × (k' ≤ suc k)
      × Reading es q k' pool'

  module _ (k i : ℕ) (pool : Pool) (h : Reading es q k pool)
      (small : 12 + suc k * q * edge_size < 2 ^ 64) (t : Task)
      (at : get_elem? pool.tasks i ≡ some t) (going : t.ended ≡ false) where
    later_tasks : Pairs (Busy (length es ≤ suc k * q) q) pool.tasks h.left
    later_tasks =
        Pairs-map (Busy (length es ≤ k * q) q) (Busy (length es ≤ suc k * q) q)
          (λ u l b. record {
            ended_empty =
                λ e. ((b.ended_empty e).0, omega (arith, (b.ended_empty e).1, next_place k q));
            going = b.going;
            updates = b.updates;
          })
          pool.tasks h.left h.tasks

    buffered :
        (e : Edge × ℕ) (l : List (Edge × ℕ))
        → get_elem? h.left i ≡ some (e ∷ l)
        → Busy (length es ≤ k * q) q t (e ∷ l)
        → Kept k i pool
    unfolding total
    buffered e l place busy =
        let (next, ahead) =
          next_edge-Ahead pread full q pool.stream t.reader e l busy.updates.0.0
            (busy.going going) in
        let r : MtStreamReader = record t.reader { pos = t.reader.pos + edge_size } in
        let new_task : Task = record { reader = r; ended = false } in
        (
          k,
          _,
          turn-going pread full fuel es q k i pool t e r pool.stream at going (
                get_edge-buffered pread full fuel es q k pool.stream t.reader e l (busy.going going)
                ∙ next)
              ∙ ap some
                  (receive-update pread full fuel es q k i e r pool.stream pool busy.updates.0.1),
          omega arith,
          record {
            stream = h.stream;
            left = set h.left i l;
            tasks =
                Pairs-set (Busy (length es ≤ k * q) q) pool.tasks h.left i new_task l h.tasks
                  (record { ended_empty = λ x. cc; going = λ x. ahead; updates = busy.updates.1 });
            some_task = omega (arith, h.some_task, length-set pool.tasks i new_task);
            sums = λ w. omega (
              arith,
              h.sums w,
              total-append w pool.got (e ∷ []),
              totals-set w h.left i (e ∷ l) l place,
            );
          },
        )

    at_end :
        get_elem? h.left i ≡ some []
        → Busy (length es ≤ k * q) q t []
        → length es ≤ k * q
        → Kept k i pool
    unfolding receive total
    at_end place busy past =
        let r : MtStreamReader = record t.reader { data_in_buf = 0 } in
        let new_task : Task = record { reader = r; ended = true } in
        (
          suc k,
          _,
          turn-going pread full fuel es q k i pool t end_of_stream r (moved pool.stream) at going (
              get_edge-end pread full fuel es q k pool.stream t.reader h.stream (busy.going going)
                past),
          omega arith,
          record {
            stream = moved-Describes pread full es q k pool.stream h.stream small;
            left = set h.left i [];
            tasks =
                Pairs-set (Busy (length es ≤ suc k * q) q) pool.tasks h.left i new_task []
                  later_tasks
                  (record {
                    ended_empty = λ x. (refl, omega (arith, past, next_place k q));
                    going = λ x. cc;
                    updates = tt;
                  });
            some_task = omega (arith, h.some_task, length-set pool.tasks i new_task);
            sums = λ w. omega (
              arith,
              h.sums w,
              totals-set w h.left i [] [] place,
              ap (total w) (drop_all (k * q) es past),
              ap (total w) (drop_all (suc k * q) es (omega (arith, past, next_place k q))),
            );
          },
        )

    refilled :
        (e : Edge × ℕ) (l : List (Edge × ℕ))
        → get_elem? h.left i ≡ some []
        → Busy (length es ≤ k * q) q t []
        → k * q < length es
        → take q (drop (k * q) es) ≡ e ∷ l
        → Kept k i pool
    unfolding total
    refilled e l place busy before block =
        let (r', refill, ahead') =
          get_edge-refill pread full fuel es q k pool.stream t.reader e l h.stream
            (busy.going going) before block in
        let fine : Updates (e ∷ l) =
          subst Updates block
            (Updates-take q (drop (k * q) es) (Updates-drop (k * q) es updates)) in
        let (next, ahead) =
          next_edge-Ahead pread full q (moved pool.stream) r' e l fine.0.0 ahead' in
        let r : MtStreamReader = record r' { pos = r'.pos + edge_size } in
        let new_task : Task = record { reader = r; ended = false } in
        (
          suc k,
          _,
          turn-going pread full fuel es q k i pool t e r (moved pool.stream) at going
                (refill ∙ next)
              ∙ ap some
                  (receive-update pread full fuel es q k i e r (moved pool.stream) pool fine.0.1),
          omega arith,
          record {
            stream = moved-Describes pread full es q k pool.stream h.stream small;
            left = set h.left i l;
            tasks =
                Pairs-set (Busy (length es ≤ suc k * q) q) pool.tasks h.left i new_task l
                  later_tasks
                  (record { ended_empty = λ x. cc; going = λ x. ahead; updates = fine.1 });
            some_task = omega (arith, h.some_task, length-set pool.tasks i new_task);
            sums = λ w. omega (
              arith,
              h.sums w,
              total-append w pool.got (e ∷ []),
              totals-set w h.left i [] l place,
              ap (total w) (sym (take-drop q (drop (k * q) es))),
              total-append w (take q (drop (k * q) es)) (drop q (drop (k * q) es)),
              ap (total w) block,
              ap (total w) (ap (λ n. drop n es) (next_place k q) ∙ drop-drop (k * q) q es),
            );
          },
        )

  cons_of :
      (xs : List (Edge × ℕ)) → 0 < length xs → (e : Edge × ℕ) × (l : List (Edge × ℕ)) × (xs ≡ e ∷ l)
  cons_of [] h = absurd (omega arith)
  cons_of (e ∷ l) h = (e, l, refl)

  lt_cases : (m n : ℕ) → (m ≤ n) ⊎ (n < m)
  lt_cases m n = ground arith

  call :
      (k i : ℕ) (pool : Pool) (h : Reading es q k pool)
      → 12 + suc k * q * edge_size < 2 ^ 64
      → (t : Task) → get_elem? pool.tasks i ≡ some t
      → t.ended ≡ false
      → (l : List (Edge × ℕ)) → get_elem? h.left i ≡ some l
      → Busy (length es ≤ k * q) q t l
      → Kept k i pool
  call k i pool h small t at going (e ∷ l) place busy =
      buffered k i pool h small t at going e l place busy
  call k i pool h small t at going [] place busy = elim (lt_cases (length es) (k * q)) [
    | inl past ↦ at_end k i pool h small t at going place busy past
    | inr before ↦
        let rest = drop (k * q) es in
        let (e, l, block) =
          cons_of (take q rest)
            (ground (arith, length-block q rest, length-drop (k * q) es, h.stream.some_room)) in
        refilled k i pool h small t at going e l place busy before block
  ]

  turn-Reading :
      (k i : ℕ) (pool : Pool)
      → Reading es q k pool
      → 12 + suc k * q * edge_size < 2 ^ 64
      → Kept k i pool
  turn-Reading k i pool h small = elim (Option-cases (get_elem? pool.tasks i)) [
    | inl no_task ↦ (k, pool, turn-idle pread full fuel es q k i pool (inl no_task), omega arith, h)
    | inr (t, at) ↦ elim (Bool-cases t.ended) [
      | inl ended ↦
          (k, pool, turn-idle pread full fuel es q k i pool (inr (t, at, ended)), omega arith, h)
      | inr going ↦
          let (l, place, busy) =
            Pairs-at (Busy (length es ≤ k * q) q) pool.tasks h.left i t h.tasks at in
          call k i pool h small t at going l place busy
    ]
  ]

  place_mono : (k m : ℕ) → k ≤ m → k * q * edge_size ≤ m * q * edge_size
  place_mono k m h = grind arith

  pub run-Reading :
      (schedule : List ℕ) (k : ℕ) (pool : Pool)
      → Reading es q k pool
      → 12 + (k + length schedule) * q * edge_size < 2 ^ 64
      → (k' : ℕ) × (pool' : Pool) × (run pread (suc (suc fuel)) schedule pool ≡ some pool')
        × Reading es q k' pool'
  unfolding run
  run-Reading [] k pool h small = (k, pool, refl, h)
  run-Reading (i ∷ schedule) k pool h small =
      let n = length schedule in
      let (k', pool', e, le, h') =
        turn-Reading k i pool h
          (omega (arith, small, place_mono (suc k) (k + suc n) (omega arith))) in
      let (k'', pool'', e', h'') =
        run-Reading schedule k' pool' h'
          (omega (arith, small, place_mono (k' + n) (k + suc n) (omega arith))) in
      (k'', pool'', rw (e, run) e', h'')
