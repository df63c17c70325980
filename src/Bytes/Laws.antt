-- ===== src/Bytes/Laws.antt =====
-- What was written is read back, whatever follows it.
use mathlib.Core.List.{append_assoc}
use native.Mathlib.Nat.{pow-suc}
use hyper_graph_streaming_cc.Prelude.{
  ℕ, zero, suc, ◌/◌, ◌^◌, ◌<◌, ◌≡◌, refl, List, [], ◌∷◌, ◌++◌, some, length, arith,
}
use hyper_graph_streaming_cc.Bytes.{to_bytes, from_bytes, write_array, read_array}

abbrev pub AllBelow : ℕ → List ℕ → Type 0
AllBelow m [] = Unit {0}
AllBelow m (x ∷ xs) = (x < m) × AllBelow m xs

pub from_bytes-to_bytes :
    (w x : ℕ) (rest : List ℕ) → x < 256 ^ w → from_bytes w (to_bytes w x ++ rest) ≡ some (x, rest)
unfolding from_bytes to_bytes
from_bytes-to_bytes zero x rest h = ground arith
from_bytes-to_bytes (suc w) x rest h =
    rw (from_bytes-to_bytes w (x / 256) rest (omega (arith, pow-suc 256 w))) (ground arith)

pub read_array-write_array :
    (w : ℕ) (xs rest : List ℕ)
    → AllBelow (256 ^ w) xs
    → read_array w (length xs) (write_array w xs ++ rest) ≡ some (xs, rest)
unfolding read_array write_array
read_array-write_array w [] rest h = refl
read_array-write_array w (x ∷ xs) rest h =
    rw (append_assoc (to_bytes w x) (write_array w xs) rest) (
      ground (
        arith,
        from_bytes-to_bytes w x (write_array w xs ++ rest),
        read_array-write_array w xs rest,
      ))
