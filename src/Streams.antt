-- ===== src/Streams.antt =====
-- include/binary_graph_stream.h: the class `BinaryGraphStream`, which reads the edges of a stream
-- file through a buffer. Shared has the class that several threads read from.
pub mod Reader
pub mod Laws
pub mod Shared
use hyper_graph_streaming_cc.Prelude.{
  ℕ, zero, suc, ◌+◌, ◌-◌, ◌%◌, List, [], ◌∷◌, ◌++◌, Option, none, some, if◌then◌else◌, ◌==◌, ltb,
  length, take, drop,
}
use hyper_graph_streaming_cc.Bytes.{to_bytes, from_bytes}
use hyper_graph_streaming_cc.Supernode.Defs.{Edge}

-- `sizeof(uint8_t) + 2 * sizeof(uint32_t)`
abbrev pub edge_size : ℕ
edge_size = 9

-- `bin_file` is what is left of the file, and `buf` the whole buffer from `start_buf` on; `pos` is
-- `buf - start_buf`.
pub record BinaryGraphStream : Type 0 where
  pub bin_file : List ℕ
  pub buf : List ℕ
  pub pos : ℕ
  pub buf_size : ℕ
  pub num_nodes : ℕ
  pub num_edges : ℕ

-- A read that the file cannot fill leaves the end of the buffer as it was.
unfoldable pub read_data : BinaryGraphStream → BinaryGraphStream
read_data st =
    let block = take st.buf_size st.bin_file in
    record st {
      pos = 0;
      buf = block ++ drop (length block) st.buf;
      bin_file = drop st.buf_size st.bin_file;
    }

-- The constructor, from the bytes of the file and the memory that the buffer was given. `none` is a
-- header that is cut off.
unfoldable pub open_stream : List ℕ → List ℕ → ℕ → Option BinaryGraphStream
unfolding read_data
open_stream file memory b = elim (from_bytes 4 file) [
  | none ↦ none
  | some (num_nodes, more) ↦ elim (from_bytes 8 more) [
    | none ↦ none
    | some (num_edges, rest) ↦ some (
        read_data (record {
          bin_file = rest;
          buf = memory;
          pos = 0;
          buf_size = b - b % edge_size;
          num_nodes = num_nodes;
          num_edges = num_edges;
        }))
  ]
]

-- `(UpdateType) *buf`. The enumeration has no fixed underlying type and so the values 0 to 3; another
-- byte, a negative `char` among them, has no defined value.
unfoldable pub update_type : ℕ → Option ℕ
update_type u = if ltb u 4 then some u else none

-- The edge with its type. `none` is a read behind the buffer or a byte that is no update type.
unfoldable pub get_edge : BinaryGraphStream → Option ((Edge × ℕ) × BinaryGraphStream)
unfolding read_data update_type
get_edge st = elim (from_bytes 1 (drop st.pos st.buf)) [
  | none ↦ none
  | some (byte, more) ↦ elim (update_type byte) [
    | none ↦ none
    | some u ↦ elim (from_bytes 4 more) [
      | none ↦ none
      | some (a, more') ↦ elim (from_bytes 4 more') [
        | none ↦ none
        | some (b, _) ↦
            let moved = record st { pos = st.pos + edge_size } in
            some (((a, b), u), (if moved.pos == st.buf_size then read_data moved else moved))
      ]
    ]
  ]
]
