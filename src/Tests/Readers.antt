-- ===== src/Tests/Readers.antt =====
-- The reader of stream files at a concrete file.
use hyper_graph_streaming_cc.Prelude.{
  ℕ, ◌≡◌, refl, List, [], ◌∷◌, some, none, arith, replicate, take, drop, ◌≤◌, true,
}
use hyper_graph_streaming_cc.Supernode.Defs.{Edge}
use hyper_graph_streaming_cc.Streams.{BinaryGraphStream, open_stream}
use hyper_graph_streaming_cc.Streams.Laws.{encode_stream, get_edges, open_stream-get_edges}
use hyper_graph_streaming_cc.Prelude.Totals.{total}
use hyper_graph_streaming_cc.Exceptions.{ok}
use hyper_graph_streaming_cc.Bytes.{from_bytes, to_bytes}
use hyper_graph_streaming_cc.Streams.Reader.{encode_edges}
use hyper_graph_streaming_cc.Streams.Shared.{open_stream_mt, get_edge_mt}
use hyper_graph_streaming_cc.Streams.Shared.Reads.{ReadsFully}
use hyper_graph_streaming_cc.Streams.Shared.Pool.{Pool, receive, turn, run, all_ended}
use hyper_graph_streaming_cc.Streams.Shared.Pool.Tasks.{Updates}
use hyper_graph_streaming_cc.Streams.Shared.Pool.Laws.{
  opened, start_pool, shared_stream_total, shared_stream_complete,
}

-- Two insertions and a deletion.
abbrev few_edges : List (Edge × ℕ)
few_edges = ((0, 1), 0) ∷ ((1, 2), 0) ∷ ((0, 1), 1) ∷ []

open_stream-get_edges_example :
    (st : BinaryGraphStream) × (open_stream (encode_stream 3 3 few_edges) (replicate 18 255) 20
      ≡ some st)
    × (end : BinaryGraphStream) × (get_edges 3 st ≡ some (few_edges, end))
open_stream-get_edges_example =
    open_stream-get_edges 3 3 20 (((0, 1), 0) ∷ ((1, 2), 0) ∷ ((0, 1), 1) ∷ []) (replicate 18 255)
      (omega arith) (omega arith)
      (
        (omega arith, omega arith, omega arith),
        ((omega arith, omega arith, omega arith), ((omega arith, omega arith, omega arith), tt)),
      )
      (omega arith) refl

-- Two threads on the file of these edges, with buffers of one edge.
abbrev plain_read : List ℕ → ℕ → ℕ → List ℕ
plain_read file count off = take count (drop off file)

plain_read-ReadsFully : ReadsFully plain_read
plain_read-ReadsFully file count off = refl

abbrev memories : List (List ℕ)
memories = replicate 9 255 ∷ replicate 9 255 ∷ []

abbrev calls : List ℕ
calls = 0 ∷ 1 ∷ 0 ∷ 0 ∷ 1 ∷ []

abbrev few_edges_pool : Pool
few_edges_pool = start_pool 3 10 few_edges memories

abbrev last_pool : Pool
last_pool = elim (run plain_read 2 calls few_edges_pool) [
  | none ↦ few_edges_pool
  | some pool ↦ pool
]

last_pool-run : run plain_read 2 calls few_edges_pool ≡ some last_pool
unfolding run turn receive get_edge_mt from_bytes to_bytes encode_edges
last_pool-run = refl

last_pool_edges : (all_ended last_pool.tasks ≡ true) × (last_pool.got ≡ few_edges)
unfolding run turn receive get_edge_mt from_bytes to_bytes encode_edges all_ended
last_pool_edges = (refl, refl)

few_edges-Updates : Updates few_edges
few_edges-Updates = (
  ((omega arith, omega arith, omega arith), omega arith),
  (
    ((omega arith, omega arith, omega arith), omega arith),
    (((omega arith, omega arith, omega arith), omega arith), tt),
  ),
)

shared_stream_total_example :
    (open_stream_mt (encode_stream 3 3 few_edges) 10 ≡ ok (opened 3 10 few_edges))
    × (pool : Pool) × (run plain_read 2 calls few_edges_pool ≡ some pool)
    × ((w : Edge × ℕ → ℕ) → total w pool.got ≤ total w few_edges)
shared_stream_total_example =
    shared_stream_total plain_read plain_read-ReadsFully 0 3 10
      (((0, 1), 0) ∷ ((1, 2), 0) ∷ ((0, 1), 1) ∷ []) memories calls (omega arith) (omega arith)
      few_edges-Updates (omega arith) (omega arith) (omega arith) (refl, (refl, tt)) (omega arith)

shared_stream_complete_example : total (λ e. 1) last_pool.got ≡ total (λ e. 1) few_edges
shared_stream_complete_example =
    shared_stream_complete plain_read plain_read-ReadsFully 0 3 10
      (((0, 1), 0) ∷ ((1, 2), 0) ∷ ((0, 1), 1) ∷ []) memories calls (omega arith) (omega arith)
      few_edges-Updates (omega arith) (omega arith) (omega arith) (refl, (refl, tt)) (omega arith)
      last_pool last_pool-run last_pool_edges.0 (λ e. 1)
