-- ===== src/Streams/Shared.antt =====
-- include/binary_graph_stream.h: the class `BinaryGraphStream_MT`, whose offset all threads advance,
-- and `MT_StreamReader`, the buffer of one thread.
pub mod Blocks
pub mod Reads
pub mod Pool
use hyper_graph_streaming_cc.Prelude.{
  ℕ, zero, suc, ◌+◌, ◌-◌, ◌*◌, ◌%◌, ◌^◌, List, [], ◌∷◌, ◌++◌, Bool, true, false, ◌&&◌, Option, none,
  some, if◌then◌else◌, ◌==◌, ltb, leb, length, drop, get_elem?, set, map,
}
use hyper_graph_streaming_cc.Util.{u32, u64}
use hyper_graph_streaming_cc.Bytes.{from_bytes}
use hyper_graph_streaming_cc.Exceptions.{Result, ok, throw, bad_stream}
use hyper_graph_streaming_cc.Supernode.Defs.{Edge}
use hyper_graph_streaming_cc.Streams.{edge_size, update_type}

-- `stream_fd` stands for the bytes of the file.
pub record BinaryGraphStreamMt : Type 0 where
  pub stream_fd : List ℕ
  pub stream_off : ℕ
  pub num_nodes : ℕ
  pub num_edges : ℕ
  pub buf_size : ℕ
  pub end_of_file : ℕ

-- The constructor, on a file that could be opened.
unfoldable pub open_stream_mt : List ℕ → ℕ → Result BinaryGraphStreamMt
open_stream_mt file b = elim (from_bytes 4 file) [
  | none ↦ throw bad_stream
  | some (num_nodes, more) ↦ elim (from_bytes 8 more) [
    | none ↦ throw bad_stream
    | some (num_edges, _) ↦ ok (record {
      stream_fd = file;
      stream_off = 12;
      num_nodes = num_nodes;
      num_edges = num_edges;
      buf_size = b - b % edge_size;
      end_of_file = u64 (num_edges * edge_size + 12);
    })
  ]
]

-- The buffer of one thread: the memory from `start_buf` on, `buf - start_buf`, and `data_in_buf`.
pub record MtStreamReader : Type 0 where
  pub buf : List ℕ
  pub pos : ℕ
  pub data_in_buf : ℕ

abbrev pub make_reader : List ℕ → MtStreamReader
make_reader memory = record { buf = memory; pos = 0; data_in_buf = 0 }

-- `{{-1, -1}, END_OF_FILE}`
abbrev pub end_of_stream : Edge × ℕ
end_of_stream = ((2 ^ 32 - 1, 2 ^ 32 - 1), 2)

-- The edge at `buf`, with its type.
unfoldable pub decode_edge : List ℕ → Option (Edge × ℕ)
unfolding update_type
decode_edge bytes = elim (from_bytes 1 bytes) [
  | none ↦ none
  | some (byte, more) ↦ elim (update_type byte) [
    | none ↦ none
    | some u ↦ elim (from_bytes 4 more) [
      | none ↦ none
      | some (a, more') ↦ elim (from_bytes 4 more') [ none ↦ none | some (b, _) ↦ some ((a, b), u) ]
    ]
  ]
]

-- `pread file count off` gives the bytes that the system call reads into the buffer.
module _ (pread : List ℕ → ℕ → ℕ → List ℕ) where
  -- The loop of `read_data`. Each read goes to the start of the buffer, as in the source.
  unfoldable pub read_loop : ℕ → BinaryGraphStreamMt → ℕ → ℕ → List ℕ → Option (ℕ × List ℕ)
  read_loop zero st read_off data_read buf = none
  read_loop (suc fuel) st read_off data_read buf =
      let block = pread st.stream_fd st.buf_size (read_off + data_read) in
      let rest =
        read_loop fuel st read_off (data_read + length block) (block ++ drop (length block) buf) in
      if ltb data_read st.buf_size && ltb (read_off + data_read) st.end_of_file
      then rest
      else some (data_read, buf)

  -- `fetch_add` moves the offset before the thread reads, so no two threads read the same block.
  unfoldable pub read_data_mt :
      ℕ → List ℕ → BinaryGraphStreamMt → Option (ℕ × List ℕ × BinaryGraphStreamMt)
  unfolding read_loop
  read_data_mt fuel buf st =
      let read_off = st.stream_off in
      let st' = record st { stream_off = u64 (read_off + st.buf_size) } in
      if leb st.end_of_file read_off
      then some (0, buf, st')
      else (elim (read_loop fuel st read_off 0 buf) [
        | none ↦ none
        | some (data_read, buf') ↦ some (u32 data_read, buf', st')
      ])

  -- The end of `get_edge`, on a buffer that is not used up. `none` is a read behind the buffer.
  unfoldable pub next_edge :
      BinaryGraphStreamMt
      → MtStreamReader
      → Option ((Edge × ℕ) × MtStreamReader × BinaryGraphStreamMt)
  unfolding decode_edge
  next_edge st r = elim (decode_edge (drop r.pos r.buf)) [
    | none ↦ none
    | some e ↦ some (e, record r { pos = r.pos + edge_size }, st)
  ]

  unfoldable pub get_edge_mt :
      ℕ
      → BinaryGraphStreamMt
      → MtStreamReader
      → Option ((Edge × ℕ) × MtStreamReader × BinaryGraphStreamMt)
  unfolding read_data_mt next_edge
  get_edge_mt fuel st r =
      if r.pos == r.data_in_buf
      then (elim (read_data_mt fuel r.buf st) [
        | none ↦ none
        | some (data_read, buf, st') ↦
            if data_read == 0
            then some (end_of_stream, record r { buf = buf; data_in_buf = 0 }, st')
            else next_edge st' (record { buf = buf; pos = 0; data_in_buf = data_read })
      ])
      else next_edge st r
