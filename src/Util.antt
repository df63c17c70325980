-- ===== src/Util.antt =====
-- src/util.cpp: the code of an undirected edge and its inverse, and the conversion of a double.
-- `configure_system` is in Configuration.
pub mod Pairing
use hyper_graph_streaming_cc.Prelude.{
  ℕ, ◌+◌, ◌*◌, ◌-◌, ◌/◌, ◌%◌, ◌^◌, bit_and, bit_or, Bool, ltb, if◌then◌else◌,
}
use hyper_graph_streaming_cc.Platform.{Platform, Doubles}

-- The casts to `uint32_t` and `uint64_t`.
abbrev pub u32 : ℕ → ℕ
u32 x = x % 2 ^ 32

abbrev pub u64 : ℕ → ℕ
u64 x = x % 2 ^ 64

module _ (d : Doubles) where
  unfoldable pub double_to_ull : d.Double → d.Double → ℕ
  double_to_ull x epsilon = d.truncate (d.add x epsilon)

module _ (p : Platform) where
  unfoldable pub num_bits : ℕ
  num_bits = p.sizeof_node_id * 8

  -- `((ull)i << num_bits) | j` after the swap that makes `i <= j`
  unfoldable pub nondirectional_non_self_edge_pairing_fn : ℕ → ℕ → ℕ
  unfolding num_bits
  nondirectional_non_self_edge_pairing_fn i j =
      let small = if ltb j i then j else i in
      let large = if ltb j i then i else j in bit_or (u64 (small * 2 ^ num_bits)) large

  unfoldable pub inv_nondir_non_self_edge_pairing_fn : ℕ → ℕ × ℕ
  unfolding num_bits
  inv_nondir_non_self_edge_pairing_fn idx = (u32 (idx / 2 ^ num_bits), u32 (bit_and idx 0xFFFFFFFF))
