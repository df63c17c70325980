-- ===== src/Bucket.antt =====
-- include/bucket.h: the operations on one bucket, a pair of an `a` and a `c` value.
-- A seed is a 64-bit pattern: the source passes it as `long`.
use hyper_graph_streaming_cc.Prelude.{ℕ, ◌+◌, bit_and, bit_xor, Bool, ◌&&◌, ◌==◌}
use hyper_graph_streaming_cc.Platform.{Platform}
use hyper_graph_streaming_cc.Bytes.{to_bytes}
use hyper_graph_streaming_cc.Util.{u32, u64}

module _ (p : Platform) where
  unfoldable pub col_index_hash : ℕ → ℕ → ℕ
  col_index_hash update_idx seed_and_col =
      p.xxh64 (to_bytes p.sizeof_vec update_idx) (u64 seed_and_col)

  -- The seed of XXH32 has 32 bits.
  unfoldable pub index_hash : ℕ → ℕ → ℕ
  index_hash index sketch_seed = p.xxh32 (to_bytes p.sizeof_vec index) (u32 sketch_seed)

unfoldable pub contains : ℕ → ℕ → Bool
contains col_hash guess_nonzero = bit_and col_hash guess_nonzero == 0

module _ (p : Platform) where
  -- The overload with three arguments, for the bucket that holds every element.
  unfoldable pub is_good : ℕ → ℕ → ℕ → Bool
  is_good a c sketch_seed = c == index_hash p a sketch_seed

  -- The overload with a column and a guess.
  unfoldable pub is_good_in : ℕ → ℕ → ℕ → ℕ → ℕ → Bool
  is_good_in a c bucket_col guess_nonzero sketch_seed =
      c == index_hash p a sketch_seed
      && contains (col_index_hash p a (sketch_seed + bucket_col)) guess_nonzero

unfoldable pub update : ℕ → ℕ → ℕ → ℕ → ℕ × ℕ
update a c update_idx update_hash = (bit_xor a update_idx, bit_xor c update_hash)
