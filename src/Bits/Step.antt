-- ===== src/Bits/Step.antt =====
-- One equation for the lowest binary digit of each bit operation, and induction on digits.
use mathlib.Core.WellFounded
use Prim.Native.Nat.{digits, bitwise, differ, bit_and-bitwise, bit_or-bitwise, bit_xor-bitwise}
use hyper_graph_streaming_cc.Prelude.{
  ℕ, zero, suc, ◌+◌, ◌-◌, ◌*◌, ◌/◌, ◌%◌, ◌≤◌, ◌<◌, max, min, bit_and, bit_or, bit_xor, ◌≡◌, refl,
  ◌∙◌, subst, arith,
}
use hyper_graph_streaming_cc.Prelude.Order.{lt_wf}

-- From half of a number to the number.
pub by_halves {ℓ} : (C : ℕ → Type ℓ) → C 0 → ((n : ℕ) → C (suc n / 2) → C (suc n)) → (n : ℕ) → C n
by_halves C base half n = WellFounded.induction lt_wf {C = C} n go
  where
    go : (n : ℕ) → ((m : ℕ) → m < n → C m) → C n
    go zero ih = base
    go (suc n) ih = half n (ih (suc n / 2) (omega arith))

module _ (side : ℕ → ℕ) (digit : ℕ → ℕ → ℕ) where
  -- One more unit of fuel than the first number needs changes nothing.
  idle_unit :
      (fuel x y : ℕ) → x ≤ fuel → digits side digit (suc fuel) x y ≡ digits side digit fuel x y
  idle_unit zero zero y fits = refl
  idle_unit zero (suc x) y fits = absurd (omega arith)
  idle_unit (suc fuel) zero y fits = refl
  idle_unit (suc fuel) (suc x) y fits = rw (idle_unit fuel (suc x / 2) (y / 2) (omega arith))

  idle_fuel :
      (extra fuel x y : ℕ)
      → x ≤ fuel
      → digits side digit (extra + fuel) x y ≡ digits side digit fuel x y
  idle_fuel zero fuel x y fits =
      let same : fuel ≡ 0 + fuel = omega arith in
      subst (λ k. digits side digit k x y ≡ digits side digit fuel x y) same refl
  idle_fuel (suc extra) fuel x y fits =
      let same : suc (extra + fuel) ≡ suc extra + fuel = omega arith in
      subst (λ k. digits side digit k x y ≡ digits side digit fuel x y) same
        (idle_unit (extra + fuel) x y (omega arith) ∙ idle_fuel extra fuel x y fits)

  lowest_digit :
      (x y : ℕ)
      → bitwise side digit (suc x) y
        ≡ bitwise side digit (suc x / 2) (y / 2) * 2 + digit (suc x % 2) (y % 2)
  lowest_digit x y =
      let half = suc x / 2 in
      let same : x - half + half ≡ x = omega arith in
      let idle = idle_fuel (x - half) half half (y / 2) (omega arith) in
      omega (
        arith,
        subst (λ k. digits side digit k half (y / 2) ≡ digits side digit half half (y / 2)) same
            idle,
      )

-- On single digits the exclusive or is the sum modulo 2.
differ-eq-mod : (x y : ℕ) → x < 2 → y < 2 → differ x y ≡ (x + y) % 2
differ-eq-mod zero zero p q = refl
differ-eq-mod zero (suc zero) p q = refl
differ-eq-mod (suc zero) zero p q = refl
differ-eq-mod (suc zero) (suc zero) p q = refl
differ-eq-mod (suc (suc x)) y p q = absurd (omega arith)
differ-eq-mod zero (suc (suc y)) p q = absurd (omega arith)
differ-eq-mod (suc zero) (suc (suc y)) p q = absurd (omega arith)

pub bit_and_step : (x y : ℕ) → bit_and x y ≡ bit_and (x / 2) (y / 2) * 2 + min (x % 2) (y % 2)
bit_and_step zero y = simp bit_and-bitwise (omega arith)
bit_and_step (suc x) y = simp bit_and-bitwise (lowest_digit (λ t. 0) min x y)

pub bit_xor_step : (x y : ℕ) → bit_xor x y ≡ bit_xor (x / 2) (y / 2) * 2 + (x % 2 + y % 2) % 2
bit_xor_step zero y = simp bit_xor-bitwise (omega arith)
bit_xor_step (suc x) y =
    rw (← differ-eq-mod (suc x % 2) (y % 2) (omega arith) (omega arith))
      (simp bit_xor-bitwise (lowest_digit (λ t. t) differ x y))

pub bit_or_step : (x y : ℕ) → bit_or x y ≡ bit_or (x / 2) (y / 2) * 2 + max (x % 2) (y % 2)
bit_or_step zero y = simp bit_or-bitwise (omega arith)
bit_or_step (suc x) y = simp bit_or-bitwise (lowest_digit (λ t. t) max x y)
