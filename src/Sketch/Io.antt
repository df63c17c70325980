-- ===== src/Sketch/Io.antt =====
-- Reading and writing a sketch in binary.
use hyper_graph_streaming_cc.Prelude.{ℕ, false, List, ◌++◌, Option, none, some}
use hyper_graph_streaming_cc.Platform.{Platform}
use hyper_graph_streaming_cc.Bytes.{read_array, write_array}
use hyper_graph_streaming_cc.Sketch.Defs.{Config, Sketch}

module _ (p : Platform) (cfg : Config) where
  -- `Sketch(uint64_t seed, std::istream &)`, with the rest of the stream. `none` is a stream that is
  -- too short, which would leave entries uninitialised.
  unfoldable pub read_sketch : ℕ → List ℕ → Option (Sketch × List ℕ)
  read_sketch seed binary_in = elim (read_array p.sizeof_vec cfg.num_elems binary_in) [
    | none ↦ none
    | some (a, more) ↦ elim (read_array p.sizeof_vec_hash cfg.num_elems more) [
      | none ↦ none
      | some (c, rest) ↦
          some (record { seed = seed; bucket_a = a; bucket_c = c; already_queried = false }, rest)
    ]
  ]

  unfoldable pub write_binary : Sketch → List ℕ
  write_binary s = write_array p.sizeof_vec s.bucket_a ++ write_array p.sizeof_vec_hash s.bucket_c
