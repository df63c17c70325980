-- ===== src/Bytes.antt =====
-- The bytes of numbers in memory and in the binary files (`ostream::write` and `istream::read` of
-- src/l0_sampling/sketch.cpp and src/graph.cpp), on a little-endian machine.
pub mod Laws
use hyper_graph_streaming_cc.Prelude.{
  ℕ, zero, suc, ◌+◌, ◌*◌, ◌/◌, ◌%◌, List, [], ◌∷◌, ◌++◌, Option, none, some,
}

-- The `w` bytes of a number, the lowest first.
unfoldable pub to_bytes : ℕ → ℕ → List ℕ
to_bytes zero x = []
to_bytes (suc w) x = (x % 256) ∷ to_bytes w (x / 256)

-- The number in the first `w` bytes of a stream, and the rest; `none` on a stream that is too short.
unfoldable pub from_bytes : ℕ → List ℕ → Option (ℕ × List ℕ)
from_bytes zero bs = some (0, bs)
from_bytes (suc w) [] = none
from_bytes (suc w) (b ∷ bs) = elim (from_bytes w bs) [
  | none ↦ none
  | some (x, rest) ↦ some (b + 256 * x, rest)
]

unfoldable pub write_array : ℕ → List ℕ → List ℕ
write_array w [] = []
write_array w (x ∷ xs) = to_bytes w x ++ write_array w xs

unfoldable pub read_array : ℕ → ℕ → List ℕ → Option (List ℕ × List ℕ)
read_array w zero bs = some ([], bs)
read_array w (suc n) bs = elim (from_bytes w bs) [
  | none ↦ none
  | some (x, rest) ↦ elim (read_array w n rest) [
    | none ↦ none
    | some (xs, end) ↦ some (x ∷ xs, end)
  ]
]
