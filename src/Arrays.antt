-- ===== src/Arrays.antt =====
-- `bucket[i] ^= v` on an array, and the array of exclusive ors: the writes of
-- src/l0_sampling/sketch.cpp on either of its two arrays.
pub mod Cells
pub mod Sum
use hyper_graph_streaming_cc.Prelude.{ℕ, zero, suc, ◌+◌, bit_xor, List, [], ◌∷◌, get_or, set}

-- `xs[i] ^= v`
abbrev pub xor_at : List ℕ → ℕ → ℕ → List ℕ
xor_at xs i v = set xs i (bit_xor (get_or xs i 0) v)

-- The writes of one value at a list of places, in order.
unfoldable pub xor_cells : List ℕ → ℕ → List ℕ → List ℕ
xor_cells [] v xs = xs
xor_cells (i ∷ is) v xs = xor_cells is v (xor_at xs i v)

-- `for (; i < end; i++) xs[i] ^= ys[i]`, with `end - i` rounds left
unfoldable pub xor_range : ℕ → ℕ → List ℕ → List ℕ → List ℕ
xor_range zero i xs ys = xs
xor_range (suc left) i xs ys = xor_range left (i + 1) (xor_at xs i (get_or ys i 0)) ys
