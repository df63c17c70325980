-- ===== src/Streams/Laws.antt =====
-- The reader returns the edges of the file in their order, whatever the size of the buffer.
use mathlib.Core.List.{append-nil}
use hyper_graph_streaming_cc.Prelude.{
  ℕ, zero, suc, ◌+◌, ◌-◌, ◌/◌, ◌%◌, ◌^◌, ◌<◌, ◌≤◌, ◌≡◌, refl, sym, List, [], ◌∷◌, ◌++◌, arith,
  Option, none, some, length, drop,
}
use hyper_graph_streaming_cc.Bytes.{to_bytes}
use hyper_graph_streaming_cc.Bytes.Laws.{from_bytes-to_bytes}
use hyper_graph_streaming_cc.Supernode.Defs.{Edge}
use hyper_graph_streaming_cc.Streams.Reader.{
  encode_edges, EdgesFit, StandsBefore, advance, get_edge-encode_edge, advance-StandsBefore,
  read_data-StandsBefore,
}
use hyper_graph_streaming_cc.Streams.{
  BinaryGraphStream, edge_size, read_data, open_stream, get_edge,
}

-- `count` calls of `get_edge`, one after the other.
unfoldable pub get_edges : ℕ → BinaryGraphStream → Option (List (Edge × ℕ) × BinaryGraphStream)
get_edges zero st = some ([], st)
get_edges (suc count) st = elim (get_edge st) [
  | none ↦ none
  | some (e, st') ↦ elim (get_edges count st') [ none ↦ none | some (es, end) ↦ some (e ∷ es, end) ]
]

get_edges-suc :
    (count : ℕ) (st st' end : BinaryGraphStream) (e : Edge × ℕ) (es : List (Edge × ℕ))
    → get_edge st ≡ some (e, st')
    → get_edges count st' ≡ some (es, end)
    → get_edges (suc count) st ≡ some (e ∷ es, end)
unfolding get_edges
get_edges-suc count st st' end e es h k = rw (h, get_edges) (rw k refl)

get_edges_lem :
    (es : List (Edge × ℕ)) (st : BinaryGraphStream)
    → EdgesFit es
    → StandsBefore st es
    → (end : BinaryGraphStream) × (get_edges (length es) st ≡ some (es, end))
unfolding get_edges
get_edges_lem [] st fit h = (st, refl)
get_edges_lem (e ∷ es) st fit h =
    let (here, next) = advance-StandsBefore st e es h in
    let (end, later) = get_edges_lem es (advance st) fit.1 next in
    (
      end,
      get_edges-suc (length es) st (advance st) end e es
          (get_edge-encode_edge st e (drop (st.pos + edge_size) st.buf) fit.0 here) later,
    )

-- The file of a stream.
abbrev pub encode_stream : ℕ → ℕ → List (Edge × ℕ) → List ℕ
encode_stream num_nodes num_edges es =
    to_bytes 4 num_nodes ++ (to_bytes 8 num_edges ++ encode_edges es)

open_stream-found :
    (n m b : ℕ) (body memory : List ℕ)
    → n < 256 ^ 4
    → m < 256 ^ 8
    → open_stream (to_bytes 4 n ++ (to_bytes 8 m ++ body)) memory b
      ≡ some (
          read_data (record {
            bin_file = body;
            buf = memory;
            pos = 0;
            buf_size = b - b % edge_size;
            num_nodes = n;
            num_edges = m;
          }))
unfolding open_stream
open_stream-found n m b body memory n-lt m-lt =
    rw (from_bytes-to_bytes 4 n (to_bytes 8 m ++ body) n-lt, open_stream)
      (rw (from_bytes-to_bytes 8 m body m-lt) refl)

-- If the numbers of a stream fit their types, the types of its edges are values of the type of
-- updates, the buffer has room for an edge, and its memory has the
-- size that the constructor asks for, then opening the file of the stream succeeds, and as many calls
-- of `get_edge` as the file has edges return these edges with their types, in their order.
pub open_stream-get_edges :
    (n m b : ℕ) (es : List (Edge × ℕ)) (memory : List ℕ)
    → n < 256 ^ 4
    → m < 256 ^ 8
    → EdgesFit es
    → edge_size ≤ b
    → length memory ≡ b - b % edge_size
    → (st : BinaryGraphStream) × (open_stream (encode_stream n m es) memory b ≡ some st)
      × (end : BinaryGraphStream) × (get_edges (length es) st ≡ some (es, end))
open_stream-get_edges n m b es memory n-lt m-lt fit room size =
    let st : BinaryGraphStream = record {
      bin_file = encode_edges es;
      buf = memory;
      pos = 0;
      buf_size = b - b % edge_size;
      num_nodes = n;
      num_edges = m;
    } in
    let ready =
      read_data-StandsBefore st es (b / edge_size) [] size (omega arith) (omega arith)
        (sym (append-nil (encode_edges es))) in
    let (end, e) = get_edges_lem es (read_data st) fit ready in
    (read_data st, open_stream-found n m b (encode_edges es) memory n-lt m-lt, end, e)
