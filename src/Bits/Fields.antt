-- ===== src/Bits/Fields.antt =====
-- A shifted field joined by `|`, and a mask of low bits, as arithmetic.
use native.Mathlib.Nat.{pow-suc, one-le-pow}
use hyper_graph_streaming_cc.Prelude.{
  ℕ, zero, suc, ◌+◌, ◌-◌, ◌*◌, ◌/◌, ◌%◌, ◌^◌, ◌<◌, bit_and, bit_or, ◌≡◌, refl, ap, arith,
}
use hyper_graph_streaming_cc.Bits.Step.{by_halves, bit_or_step, bit_and_step}

bit_or-zero : (x : ℕ) → bit_or x 0 ≡ x
bit_or-zero =
    by_halves (λ n. bit_or n 0 ≡ n) refl (λ n half. omega (arith, bit_or_step (suc n) 0, half))

pub bit_and-zero : (x : ℕ) → bit_and x 0 ≡ 0
bit_and-zero =
    by_halves (λ n. bit_and n 0 ≡ 0) refl (λ n half. omega (arith, bit_and_step (suc n) 0, half))

double_shift : (q k : ℕ) → q * 2 ^ suc k ≡ 2 * (q * 2 ^ k)
double_shift q k = omega (arith, ap (λ (t : ℕ). q * t) (pow-suc 2 k))

-- `(q << k) | r` is a sum when `r` fits in `k` bits.
pub bit_or_fields : (k q r : ℕ) → r < 2 ^ k → bit_or (q * 2 ^ k) r ≡ q * 2 ^ k + r
bit_or_fields zero q r h = ground (arith, bit_or-zero q)
bit_or_fields (suc k) q r h = ground (
  arith,
  bit_or_step (q * 2 ^ suc k) r,
  double_shift q k,
  bit_or_fields k q (r / 2) (omega (arith, pow-suc 2 k)),
)

low_bits : (k q r : ℕ) → r < 2 ^ k → bit_and (q * 2 ^ k + r) (2 ^ k - 1) ≡ r
low_bits zero q r h = rw bit_and-zero (omega arith)
low_bits (suc k) q r h = ground (
  arith,
  bit_and_step (q * 2 ^ suc k + r) (2 ^ suc k - 1),
  double_shift q k,
  pow-suc 2 k,
  low_bits k q (r / 2) (omega (arith, pow-suc 2 k)),
)

-- A mask of `k` low bits is the remainder by `2 ^ k`.
pub bit_and-low_mask : (k a : ℕ) → bit_and a (2 ^ k - 1) ≡ a % 2 ^ k
bit_and-low_mask k a = ground (arith, one-le-pow k 2, low_bits k (a / 2 ^ k) (a % 2 ^ k))
