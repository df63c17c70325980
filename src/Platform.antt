-- ===== src/Platform.antt =====
-- What the source takes from code outside the repository: the widths that
-- `graph_zeppelin_common.h` gives its types and the two hashes of `xxhash.h` (include/types.h), and
-- the floating-point operations of the C library (include/l0_sampling/sketch.h,
-- include/supernode.h).
use hyper_graph_streaming_cc.Prelude.{ℕ, ◌^◌, ◌<◌, ◌≡◌, List}

-- `sizeof` of `node_id_t`, `vec_t` and `vec_hash_t`; XXH32 and XXH64 of a block of bytes and a seed.
pub record Platform : Type 0 where
  pub sizeof_node_id : ℕ
  pub sizeof_vec : ℕ
  pub sizeof_vec_hash : ℕ
  pub xxh32 : List ℕ → ℕ → ℕ
  pub xxh64 : List ℕ → ℕ → ℕ

-- The documented widths: `uint32_t` node ids, and hashes that fit their types.
pub record IsDocumented (p : Platform) : Type 0 where
  pub node_id_width : p.sizeof_node_id ≡ 4
  pub xxh32-lt : (bytes : List ℕ) (seed : ℕ) → p.xxh32 bytes seed < 2 ^ 32
  pub xxh64-lt : (bytes : List ℕ) (seed : ℕ) → p.xxh64 bytes seed < 2 ^ 64

-- The type `double` with the operations that the source applies to it.
pub record Doubles : Type 1 where
  pub Double : Type 0
  pub of_nat : ℕ → Double
  pub epsilon : Double
  pub log2 : Double → Double
  pub add : Double → Double → Double
  pub sub : Double → Double → Double
  pub div : Double → Double → Double
  pub truncate : Double → ℕ
