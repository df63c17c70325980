-- ===== src/Util/Pairing.antt =====
-- The pairing function of src/util.cpp is an injection on undirected edges.
use hyper_graph_streaming_cc.Prelude.{ℕ, ◌+◌, ◌*◌, ◌^◌, ◌<◌, min, max, ◌≡◌, arith}
use hyper_graph_streaming_cc.Bits.{bit_or_fields, bit_and-low_mask}
use hyper_graph_streaming_cc.Platform.{Platform, IsDocumented}
use hyper_graph_streaming_cc.Util.{
  nondirectional_non_self_edge_pairing_fn, inv_nondir_non_self_edge_pairing_fn,
}

-- What the inverse returns, `<` component first.
abbrev pub ordered : ℕ → ℕ → ℕ × ℕ
ordered i j = (min i j, max i j)

module _ (p : Platform) (doc : IsDocumented p) where
  -- With 32-bit node ids, for two ids below 2 ^ 32, the code is the smaller one times 2 ^ 32 plus
  -- the larger one.
  pub pairing_fn_sum :
      (i j : ℕ)
      → i < 2 ^ 32
      → j < 2 ^ 32
      → nondirectional_non_self_edge_pairing_fn p i j ≡ min i j * 2 ^ 32 + max i j
  unfolding nondirectional_non_self_edge_pairing_fn
  pairing_fn_sum i j hi hj =
      rw (doc.node_id_width) (ground (arith, bit_or_fields 32 i j, bit_or_fields 32 j i))

  -- With 32-bit node ids, for two ids below 2 ^ 32, decoding the code of the edge gives its two
  -- ends, the smaller first.
  pub inv_pairing_fn-pairing_fn :
      (i j : ℕ)
      → i < 2 ^ 32
      → j < 2 ^ 32
      → inv_nondir_non_self_edge_pairing_fn p (nondirectional_non_self_edge_pairing_fn p i j)
        ≡ ordered i j
  unfolding inv_nondir_non_self_edge_pairing_fn
  inv_pairing_fn-pairing_fn i j hi hj =
      rw (pairing_fn_sum i j hi hj, doc.node_id_width)
        (rw (bit_and-low_mask 32 (min i j * 2 ^ 32 + max i j)) (ground arith))

  pub pairing_fn_symm :
      (i j : ℕ)
      → i < 2 ^ 32
      → j < 2 ^ 32
      → nondirectional_non_self_edge_pairing_fn p i j
        ≡ nondirectional_non_self_edge_pairing_fn p j i
  pairing_fn_symm i j hi hj = omega (arith, pairing_fn_sum i j hi hj, pairing_fn_sum j i hj hi)
