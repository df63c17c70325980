-- ===== src/Bits/Xor.antt =====
-- Exclusive or is a commutative group operation of exponent two, and stays within a width.
use native.Mathlib.Nat.{pow-suc}
use hyper_graph_streaming_cc.Prelude.{
  ℕ, zero, suc, ◌+◌, ◌/◌, ◌%◌, ◌^◌, ◌≤◌, ◌<◌, bit_xor, ◌≡◌, refl, sym, ap, ◌∙◌, arith,
}
use hyper_graph_streaming_cc.Bits.Step.{by_halves, bit_xor_step}

pub zero-bit_xor : (b : ℕ) → bit_xor 0 b ≡ b
zero-bit_xor =
    by_halves (λ n. bit_xor 0 n ≡ n) refl (λ n half. omega (arith, bit_xor_step 0 (suc n), half))

xor_comm_below : (k a b : ℕ) → a + b ≤ k → bit_xor a b ≡ bit_xor b a
xor_comm_below k zero zero h = refl
xor_comm_below zero (suc a) b h = absurd (omega arith)
xor_comm_below zero zero (suc b) h = absurd (omega arith)
xor_comm_below (suc k) zero (suc b) h = omega (
  arith,
  bit_xor_step 0 (suc b),
  bit_xor_step (suc b) 0,
  xor_comm_below k 0 (suc b / 2) (omega arith),
)
xor_comm_below (suc k) (suc a) b h = omega (
  arith,
  bit_xor_step (suc a) b,
  bit_xor_step b (suc a),
  xor_comm_below k (suc a / 2) (b / 2) (omega arith),
)

pub xor_comm : (a b : ℕ) → bit_xor a b ≡ bit_xor b a
xor_comm a b = xor_comm_below (a + b) a b (omega arith)

pub bit_xor-zero : (a : ℕ) → bit_xor a 0 ≡ a
bit_xor-zero a = xor_comm a 0 ∙ zero-bit_xor a

-- Halving and the lowest digit of an exclusive or.
xor_half : (a b : ℕ) → bit_xor a b / 2 ≡ bit_xor (a / 2) (b / 2)
xor_half a b = omega (arith, bit_xor_step a b)

xor_digit : (a b : ℕ) → bit_xor a b % 2 ≡ (a % 2 + b % 2) % 2
xor_digit a b = omega (arith, bit_xor_step a b)

xor_assoc_below : (k a b c : ℕ) → a ≤ k → bit_xor (bit_xor a b) c ≡ bit_xor a (bit_xor b c)
xor_assoc_below k zero b c h = ap (λ x. bit_xor x c) (zero-bit_xor b) ∙ sym (zero-bit_xor _)
xor_assoc_below zero (suc a) b c h = absurd (omega arith)
xor_assoc_below (suc k) (suc a) b c h =
    rw (bit_xor_step (bit_xor (suc a) b) c, bit_xor_step (suc a) (bit_xor b c))
      (rw (xor_half (suc a) b, xor_half b c, xor_digit (suc a) b, xor_digit b c)
        (rw (xor_assoc_below k (suc a / 2) (b / 2) (c / 2) (omega arith)) (omega arith)))

pub xor_assoc : (a b c : ℕ) → bit_xor (bit_xor a b) c ≡ bit_xor a (bit_xor b c)
xor_assoc a b c = xor_assoc_below a a b c (omega arith)

xor_self_below : (k a : ℕ) → a ≤ k → bit_xor a a ≡ 0
xor_self_below k zero h = refl
xor_self_below zero (suc a) h = absurd (omega arith)
xor_self_below (suc k) (suc a) h =
    omega (arith, bit_xor_step (suc a) (suc a), xor_self_below k (suc a / 2) (omega arith))

pub xor_self : (a : ℕ) → bit_xor a a ≡ 0
xor_self a = xor_self_below a a (omega arith)

-- The second of two equal terms cancels the first.
pub xor_cancel : (a b : ℕ) → bit_xor (bit_xor a b) b ≡ a
xor_cancel a b = xor_assoc a b b ∙ ap (bit_xor a) (xor_self b) ∙ bit_xor-zero a

pub xor_right_comm : (a b c : ℕ) → bit_xor (bit_xor a b) c ≡ bit_xor (bit_xor a c) b
xor_right_comm a b c = xor_assoc a b c ∙ ap (bit_xor a) (xor_comm b c) ∙ sym (xor_assoc a c b)

-- A word of `k` bits stays one.
pub xor-lt : (k a b : ℕ) → a < 2 ^ k → b < 2 ^ k → bit_xor a b < 2 ^ k
xor-lt zero a b p q = ground (arith, xor_self 0)
xor-lt (suc k) a b p q = omega (
  arith,
  pow-suc 2 k,
  bit_xor_step a b,
  xor-lt k (a / 2) (b / 2) (omega (arith, pow-suc 2 k)) (omega (arith, pow-suc 2 k)),
)

pub ruleset xor_laws = (zero-bit_xor, bit_xor-zero, xor_self, xor_cancel, xor_assoc)
