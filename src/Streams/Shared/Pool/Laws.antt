-- ===== src/Streams/Shared/Pool/Laws.antt =====
-- The threads together read the whole stream: no edge is lost, and none is returned twice.
use mathlib.Core.List.{append_assoc}
use mathlib.Core.Option.{some-injective}
use hyper_graph_streaming_cc.Prelude.{
  ℕ, suc, ◌+◌, ◌*◌, ◌-◌, ◌/◌, ◌%◌, ◌^◌, ◌<◌, ◌≤◌, ◌≡◌, refl, ap, ◌∙◌, sym, subst, List, [], ◌∷◌,
  ◌++◌, true, arith, some, length, length-append, map, drop,
}
use hyper_graph_streaming_cc.Prelude.Blocks.{drop_all}
use hyper_graph_streaming_cc.Prelude.Totals.{total}
use hyper_graph_streaming_cc.Bytes.{to_bytes}
use hyper_graph_streaming_cc.Bytes.Laws.{from_bytes-to_bytes}
use hyper_graph_streaming_cc.Exceptions.{ok}
use hyper_graph_streaming_cc.Supernode.Defs.{Edge}
use hyper_graph_streaming_cc.Streams.{edge_size}
use hyper_graph_streaming_cc.Streams.Reader.{encode_edges, length-to_bytes}
use hyper_graph_streaming_cc.Streams.Laws.{encode_stream}
use hyper_graph_streaming_cc.Streams.Shared.{BinaryGraphStreamMt, open_stream_mt}
use hyper_graph_streaming_cc.Streams.Shared.Reads.{ReadsFully, Describes}
use hyper_graph_streaming_cc.Streams.Shared.Pool.{Task, start_task, Pool, run, all_ended}
use hyper_graph_streaming_cc.Streams.Shared.Pool.Tasks.{Updates, Busy, Pairs, totals, totals_ended}
use hyper_graph_streaming_cc.Streams.Shared.Pool.Turns.{Reading}
use hyper_graph_streaming_cc.Streams.Shared.Pool.Runs.{run-Reading}

-- Memory of the given size for each reader.
abbrev pub AllSized : ℕ → List (List ℕ) → Type 0
AllSized size [] = Unit {0}
AllSized size (memory ∷ ms) = (length memory ≡ size) × AllSized size ms

abbrev empties : List (List ℕ) → List (List (Edge × ℕ))
empties [] = []
empties (memory ∷ ms) = [] ∷ empties ms

start-Pairs :
    (given_out : Type 0) (q : ℕ) (ms : List (List ℕ))
    → AllSized (q * edge_size) ms
    → Pairs (Busy given_out q) (map start_task ms) (empties ms)
unfolding encode_edges
start-Pairs given_out q [] h = tt
start-Pairs given_out q (memory ∷ ms) h = (
  record {
    ended_empty = λ e. cc;
    going = λ e. record { room = h.0; fill = refl; tail = memory; bytes = refl };
    updates = tt;
  },
  start-Pairs given_out q ms h.1,
)

totals-empties : (w : Edge × ℕ → ℕ) (ms : List (List ℕ)) → totals w (empties ms) ≡ 0
unfolding totals total
totals-empties w [] = refl
totals-empties w (memory ∷ ms) = omega (arith, totals-empties w ms)

length-start_tasks : (ms : List (List ℕ)) → length (map start_task ms) ≡ length ms
length-start_tasks [] = refl
length-start_tasks (memory ∷ ms) = ap suc (length-start_tasks ms)

-- The stream that the constructor opens.
abbrev pub opened : ℕ → ℕ → List (Edge × ℕ) → BinaryGraphStreamMt
opened n b es = record {
  stream_fd = encode_stream n (length es) es;
  stream_off = 12;
  num_nodes = n;
  num_edges = length es;
  buf_size = b - b % edge_size;
  end_of_file = length es * edge_size + 12;
}

-- Some task among those that have all ended says that the file was given out.
given_out_of :
    (given_out : Type 0) (q : ℕ) (ts : List Task) (ls : List (List (Edge × ℕ)))
    → Pairs (Busy given_out q) ts ls
    → 0 < length ts
    → all_ended ts ≡ true
    → given_out
unfolding all_ended
given_out_of given_out q [] ls h some_task all = absurd (omega arith)
given_out_of given_out q (t ∷ ts) [] h some_task all = absurd h
given_out_of given_out q (t ∷ ts) (l ∷ ls) h some_task all = (h.0.ended_empty (ground arith)).1

module _ (n b : ℕ) (es : List (Edge × ℕ)) (n-lt : n < 256 ^ 4)
    (small : length es * edge_size + 12 < 2 ^ 64) where
  open_stream_mt-opened : open_stream_mt (encode_stream n (length es) es) b ≡ ok (opened n b es)
  unfolding open_stream_mt
  open_stream_mt-opened =
      let m = length es in
      let end : (m * edge_size + 12) % 2 ^ 64 ≡ m * edge_size + 12 = omega arith in
      rw (from_bytes-to_bytes 4 n (to_bytes 8 m ++ encode_edges es) n-lt, open_stream_mt)
        (rw (from_bytes-to_bytes 8 m (encode_edges es) (omega arith))
          (ap (λ x. ok (record (opened n b es) { end_of_file = x })) end))

  opened-Describes : edge_size ≤ b → b < 2 ^ 32 → Describes es (b / edge_size) 0 (opened n b es)
  opened-Describes room fits =
      let m = length es in
      record {
        header = to_bytes 4 n ++ to_bytes 8 m;
        header_size = omega (
          arith,
          length-append (to_bytes 4 n) (to_bytes 8 m),
          length-to_bytes 4 n,
          length-to_bytes 8 m,
        );
        file = sym (append_assoc (to_bytes 4 n) (to_bytes 8 m) (encode_edges es));
        size = omega arith;
        some_room = omega arith;
        small = omega arith;
        end = refl;
        offset = grind arith;
      }

-- The tasks on an opened stream, each with memory for its reader.
abbrev pub start_pool : ℕ → ℕ → List (Edge × ℕ) → List (List ℕ) → Pool
start_pool n b es ms = record { stream = opened n b es; tasks = map start_task ms; got = [] }

module _ (pread : List ℕ → ℕ → ℕ → List ℕ) (full : ReadsFully pread) (fuel n b : ℕ)
    (es : List (Edge × ℕ)) (ms : List (List ℕ)) (schedule : List ℕ) (n-lt : n < 256 ^ 4)
    (small : length es * edge_size + 12 < 2 ^ 64) (updates : Updates es) (room : edge_size ≤ b)
    (fits : b < 2 ^ 32) (some_task : 0 < length ms) (sized : AllSized (b - b % edge_size) ms)
    (calls : 12 + length schedule * (b / edge_size) * edge_size < 2 ^ 64) where
  start-Reading : Reading es (b / edge_size) 0 (start_pool n b es ms)
  unfolding total
  start-Reading =
      let size : b - b % edge_size ≡ b / edge_size * edge_size = omega arith in
      record {
        stream = opened-Describes n b es n-lt small room fits;
        left = empties ms;
        tasks =
            start-Pairs (length es ≤ 0 * (b / edge_size)) (b / edge_size) ms
              (subst (λ x. AllSized x ms) size sized);
        some_task = omega (arith, length-start_tasks ms);
        sums = λ w.
            let nothing : 0 * (b / edge_size) ≡ 0 = omega arith in
            omega (arith, totals-empties w ms, ap (λ k. total w (drop k es)) nothing);
      }

  reached :
      (k' : ℕ) × (pool : Pool) × (run pread (suc (suc fuel)) schedule (start_pool n b es ms)
        ≡ some pool)
      × Reading es (b / edge_size) k' pool
  reached =
      let same : 0 + length schedule ≡ length schedule = omega arith in
      run-Reading pread full fuel es updates (b / edge_size) schedule 0 (start_pool n b es ms)
        start-Reading (subst (λ x. 12 + x * (b / edge_size) * edge_size < 2 ^ 64) (sym same) calls)

  -- Let the file of a stream hold the edges `es`, insertions and deletions whose numbers fit their
  -- types, and let threads, one or more, read it, each with a buffer in memory of the size that the
  -- constructor asks for, with room for an edge. Where no read is cut short, and the offset does not
  -- pass 2^64, opening the file succeeds, every call of every schedule returns, and the calls together
  -- have returned no edge more often than the file holds it.
  pub shared_stream_total :
      (open_stream_mt (encode_stream n (length es) es) b ≡ ok (opened n b es))
      × (pool : Pool) × (run pread (suc (suc fuel)) schedule (start_pool n b es ms) ≡ some pool)
      × ((w : Edge × ℕ → ℕ) → total w pool.got ≤ total w es)
  shared_stream_total =
      let (k, pool, e, h) = reached in
      (open_stream_mt-opened n b es n-lt small, pool, e, λ w. omega (arith, h.sums w))

  -- Let the file of a stream hold the edges `es`, insertions and deletions whose numbers fit their
  -- types, and let threads, one or more, read it, each with a buffer in memory of the size that the
  -- constructor asks for, with room for an edge. Where no read is cut short, and the offset does not
  -- pass 2^64: when every thread has been told that the file ended, the calls
  -- together have returned exactly the edges of the file, each as often as the file holds it.
  pub shared_stream_complete :
      (pool : Pool)
      → run pread (suc (suc fuel)) schedule (start_pool n b es ms) ≡ some pool
      → all_ended pool.tasks ≡ true
      → (w : Edge × ℕ → ℕ) → total w pool.got ≡ total w es
  unfolding total
  shared_stream_complete pool e all w =
      let (k, pool', e', h) = reached in
      let same : pool' ≡ pool = some-injective pool' pool (sym e' ∙ e) in
      let all' : all_ended pool'.tasks ≡ true = ap (λ x. all_ended x.tasks) same ∙ all in
      let out =
        given_out_of (length es ≤ k * (b / edge_size)) (b / edge_size) pool'.tasks h.left h.tasks
          h.some_task all' in
      ap (λ x. total w x.got) (sym same)
      ∙ omega (
        arith,
        h.sums w,
        totals_ended (length es ≤ k * (b / edge_size)) (b / edge_size) w pool'.tasks h.left h.tasks
            all',
        ap (total w) (drop_all (k * (b / edge_size)) es out),
      )
