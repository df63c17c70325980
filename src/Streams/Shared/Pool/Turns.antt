-- ===== src/Streams/Shared/Pool/Turns.antt =====
-- One call of one task keeps all edges: returned, in a buffer, or still in the file.
use hyper_graph_streaming_cc.Prelude.{
  ℕ, suc, ◌+◌, ◌*◌, ◌<◌, ◌≤◌, ◌≡◌, ◌⊎◌, inl, inr, refl, ap, subst, List, [], ◌∷◌, ◌++◌, true, false,
  arith, none, some, length, length-append, take, drop, get_elem?, set, ◌==◌,
}
use hyper_graph_streaming_cc.Prelude.Blocks.{length-drop}
use hyper_graph_streaming_cc.Prelude.Slots.{if_false}
use hyper_graph_streaming_cc.Prelude.Totals.{total}
use hyper_graph_streaming_cc.Supernode.Defs.{Edge}
use hyper_graph_streaming_cc.Streams.{edge_size}
use hyper_graph_streaming_cc.Streams.Reader.{encode_edges}
use hyper_graph_streaming_cc.Streams.Shared.Blocks.{length-encode_edges}
use hyper_graph_streaming_cc.Streams.Shared.{
  read_data_mt, BinaryGraphStreamMt, MtStreamReader, get_edge_mt, next_edge, end_of_stream,
}
use hyper_graph_streaming_cc.Streams.Shared.Reads.{
  ReadsFully, Describes, Ahead, moved, block-le, read_data_mt-end, read_data_mt-found,
}
use hyper_graph_streaming_cc.Streams.Shared.Pool.{Task, Pool, receive, turn}
use hyper_graph_streaming_cc.Streams.Shared.Pool.Tasks.{Busy, Pairs, totals}

-- The pool has given out `k` blocks of the edges `es`.
pub record Reading (es : List (Edge × ℕ)) (q k : ℕ) (pool : Pool) : Type 0 where
  pub stream : Describes es q k pool.stream
  pub left : List (List (Edge × ℕ))
  pub tasks : Pairs (Busy (length es ≤ k * q) q) pool.tasks left
  pub some_task : 0 < length pool.tasks
  pub sums :
      (w : Edge × ℕ → ℕ) → total w es ≡ total w pool.got + totals w left + total w (drop (k * q) es)

module _ (pread : List ℕ → ℕ → ℕ → List ℕ) (full : ReadsFully pread) (fuel : ℕ)
    (es : List (Edge × ℕ)) (q k : ℕ) where
  -- What a call of a reader returns, with the edges before it in its buffer then.
  pub get_edge-buffered :
      (st : BinaryGraphStreamMt) (r : MtStreamReader) (e : Edge × ℕ) (l : List (Edge × ℕ))
      → Ahead q r (e ∷ l)
      → get_edge_mt pread (suc (suc fuel)) st r ≡ next_edge pread st r
  unfolding get_edge_mt
  get_edge-buffered st r e l h = if_false _ _ (r.pos == r.data_in_buf) (ground (arith, h.fill))

  pub get_edge-end :
      (st : BinaryGraphStreamMt) (r : MtStreamReader)
      → Describes es q k st
      → Ahead q r []
      → length es ≤ k * q
      → get_edge_mt pread (suc (suc fuel)) st r
        ≡ some (end_of_stream, record r { data_in_buf = 0 }, moved st)
  unfolding get_edge_mt
  get_edge-end st r h empty past =
      let used_up : (r.pos == r.data_in_buf) ≡ true = ground (arith, empty.fill) in
      rw used_up
        (rw (read_data_mt-end pread full (suc (suc fuel)) es q k st r.buf h past, get_edge_mt) refl)

  pub get_edge-refill :
      (st : BinaryGraphStreamMt) (r : MtStreamReader) (e : Edge × ℕ) (l : List (Edge × ℕ))
      → Describes es q k st
      → Ahead q r []
      → k * q < length es
      → take q (drop (k * q) es) ≡ e ∷ l
      → (r' : MtStreamReader) × (get_edge_mt pread (suc (suc fuel)) st r
          ≡ next_edge pread (moved st) r')
        × Ahead q r' (e ∷ l)
  unfolding get_edge_mt
  get_edge-refill st r e l h empty before block =
      let count = length (e ∷ l) * edge_size in
      let bytes = encode_edges (e ∷ l) ++ drop count r.buf in
      let used_up : (r.pos == r.data_in_buf) ≡ true = ground (arith, empty.fill) in
      let some_data : (count == 0) ≡ false = ground arith in
      let found =
        subst
          (λ b.
            read_data_mt pread (suc (suc fuel)) r.buf st
            ≡ some (
              length b * edge_size,
              encode_edges b ++ drop (length b * edge_size) r.buf,
              moved st,
            ))
          block (read_data_mt-found pread full fuel es q k st r.buf h before) in
      (
        record { buf = bytes; pos = 0; data_in_buf = count },
        rw used_up (rw (found, get_edge_mt) (rw some_data refl)),
        record {
          room = omega (
            arith,
            length-append (encode_edges (e ∷ l)) (drop count r.buf),
            length-encode_edges (e ∷ l),
            length-drop count r.buf,
            empty.room,
            block-le q (drop (k * q) es),
            ap length block,
          );
          fill = omega arith;
          tail = drop count r.buf;
          bytes = refl;
        },
      )

  pub receive-update :
      (i : ℕ) (e : Edge × ℕ) (r : MtStreamReader) (st : BinaryGraphStreamMt) (pool : Pool)
      → e.1 < 2
      → receive i e r st pool ≡ record pool {
        stream = st;
        tasks = set pool.tasks i (record { reader = r; ended = false });
        got = pool.got ++ e ∷ [];
      }
  unfolding receive
  receive-update i e r st pool lt = if_false _ _ (e.1 == 2) (ground arith)

  pub turn-going :
      (i : ℕ) (pool : Pool) (t : Task) (e : Edge × ℕ) (r : MtStreamReader)
      (st : BinaryGraphStreamMt)
      → get_elem? pool.tasks i ≡ some t
      → t.ended ≡ false
      → get_edge_mt pread (suc (suc fuel)) pool.stream t.reader ≡ some (e, r, st)
      → turn pread (suc (suc fuel)) i pool ≡ some (receive i e r st pool)
  unfolding turn
  turn-going i pool t e r st at going got = rw (at, turn) (rw going (rw got refl))

  pub turn-idle :
      (i : ℕ) (pool : Pool)
      → (get_elem? pool.tasks i ≡ none)
        ⊎ ((t : Task) × (get_elem? pool.tasks i ≡ some t) × (t.ended ≡ true))
      → turn pread (suc (suc fuel)) i pool ≡ some pool
  unfolding turn
  turn-idle i pool (inl no_task) = rw (no_task, turn) refl
  turn-idle i pool (inr (t, at, ended)) = rw (at, turn) (rw ended refl)
