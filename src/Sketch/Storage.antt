-- ===== src/Sketch/Storage.antt =====
-- A sketch that was written is read back.
use mathlib.Core.List.{append_assoc}
use hyper_graph_streaming_cc.Prelude.{ℕ, ◌^◌, false, ◌≡◌, refl, ap, ◌∙◌, subst, List, ◌++◌, some}
use hyper_graph_streaming_cc.Platform.{Platform}
use hyper_graph_streaming_cc.Bytes.{read_array, write_array}
use hyper_graph_streaming_cc.Bytes.Laws.{AllBelow, read_array-write_array}
use hyper_graph_streaming_cc.Sketch.Defs.{Config, Sketch, copy_sketch}
use hyper_graph_streaming_cc.Sketch.Io.{read_sketch, write_binary}
use hyper_graph_streaming_cc.Sketch.Sizes.{IsSized}

-- Entries that fit their types.
pub record IsStorable (p : Platform) (cfg : Config) (s : Sketch) : Type 0 where
  pub sized : IsSized cfg s
  pub values : AllBelow (256 ^ p.sizeof_vec) s.bucket_a
  pub checksums : AllBelow (256 ^ p.sizeof_vec_hash) s.bucket_c

module _ (p : Platform) (cfg : Config) where
  read_sketch-found :
      (seed : ℕ) (file more rest a c : List ℕ)
      → read_array p.sizeof_vec cfg.num_elems file ≡ some (a, more)
      → read_array p.sizeof_vec_hash cfg.num_elems more ≡ some (c, rest)
      → read_sketch p cfg seed file
        ≡ some (record { seed = seed; bucket_a = a; bucket_c = c; already_queried = false }, rest)
  unfolding read_sketch
  read_sketch-found seed file more rest a c e e' = rw (e, read_sketch) (rw e' refl)

  -- If the arrays of a sketch have the configured size and their entries fit their types, reading
  -- what was written, with the same seed, gives the sketch, not queried yet, and the rest of the stream.
  pub read_sketch-write_binary :
      (s : Sketch) (rest : List ℕ)
      → IsStorable p cfg s
      → read_sketch p cfg s.seed (write_binary p cfg s ++ rest) ≡ some (copy_sketch cfg s, rest)
  unfolding write_binary copy_sketch
  read_sketch-write_binary s rest h =
      let tail = write_array p.sizeof_vec_hash s.bucket_c ++ rest in
      let split =
        append_assoc (write_array p.sizeof_vec s.bucket_a)
          (write_array p.sizeof_vec_hash s.bucket_c) rest in
      let first =
        subst
          (λ n.
            read_array p.sizeof_vec n (write_array p.sizeof_vec s.bucket_a ++ tail)
            ≡ some (s.bucket_a, tail))
          h.sized.size_a (read_array-write_array p.sizeof_vec s.bucket_a tail h.values) in
      let second =
        subst (λ n. read_array p.sizeof_vec_hash n tail ≡ some (s.bucket_c, rest)) h.sized.size_c
          (read_array-write_array p.sizeof_vec_hash s.bucket_c rest h.checksums) in
      ap (read_sketch p cfg s.seed) split
      ∙ read_sketch-found s.seed (write_array p.sizeof_vec s.bucket_a ++ tail) tail rest s.bucket_a
          s.bucket_c first second
