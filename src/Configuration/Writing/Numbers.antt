-- ===== src/Configuration/Writing/Numbers.antt =====
-- `stoi` reads the number that was printed.
use hyper_graph_streaming_cc.Prelude.{
  ℕ, zero, suc, ◌+◌, ◌*◌, ◌-◌, ◌/◌, ◌%◌, ◌^◌, ◌<◌, ◌≡◌, refl, ap, ◌∙◌, List, [], ◌∷◌, ◌++◌, true,
  false, arith, ltb, ◌==◌, Bool-cases, inl, inr,
}
use native.Mathlib.Nat.{pow-suc}
use hyper_graph_streaming_cc.Exceptions.{ok}
use hyper_graph_streaming_cc.Configuration.Text.{
  pos, is_digit, is_space, digits_value, starts_with_digit, to_int, stoi, decimal,
}

abbrev pub AllDigits : List ℕ → Type 0
AllDigits [] = Unit {0}
AllDigits (c ∷ cs) = (is_digit c ≡ true) × AllDigits cs

AllDigits-append : (xs ys : List ℕ) → AllDigits xs → AllDigits ys → AllDigits (xs ++ ys)
AllDigits-append [] ys h k = k
AllDigits-append (x ∷ xs) ys h k = (h.0, AllDigits-append xs ys h.1 k)

digit-IsDigit : (n : ℕ) → n < 10 → is_digit (48 + n) ≡ true
digit-IsDigit n h = ground arith

pub decimal-AllDigits : (fuel n : ℕ) → AllDigits (decimal fuel n)
unfolding decimal
decimal-AllDigits zero n = (ground arith, tt)
decimal-AllDigits (suc fuel) n = elim (Bool-cases (ltb n 10)) [
  | inl small ↦ rw small (ground arith, tt)
  | inr large ↦ rw large (
      AllDigits-append (decimal fuel (n / 10)) ((48 + n % 10) ∷ [])
        (decimal-AllDigits fuel (n / 10)) (ground arith, tt))
]

starts-append : (xs ys : List ℕ) → starts_with_digit xs ≡ true → starts_with_digit (xs ++ ys) ≡ true
unfolding starts_with_digit
starts-append [] ys h = cc
starts-append (x ∷ xs) ys h = h

starts-decimal : (fuel n : ℕ) → starts_with_digit (decimal fuel n) ≡ true
unfolding decimal starts_with_digit
starts-decimal zero n = ground arith
starts-decimal (suc fuel) n = elim (Bool-cases (ltb n 10)) [
  | inl small ↦ rw small (ground arith)
  | inr large ↦
      rw large
        (starts-append (decimal fuel (n / 10)) ((48 + n % 10) ∷ []) (starts-decimal fuel (n / 10)))
]

digits_value-concat :
    (acc : ℕ) (xs : List ℕ) (c : ℕ)
    → AllDigits xs
    → is_digit c ≡ true
    → digits_value acc (xs ++ c ∷ []) ≡ digits_value acc xs * 10 + (c - 48)
unfolding digits_value
digits_value-concat acc [] c h k = rw k refl
digits_value-concat acc (x ∷ xs) c h k =
    rw h.0 (digits_value-concat (acc * 10 + (x - 48)) xs c h.1 k)

digits_value-decimal : (fuel n : ℕ) → n < 10 ^ suc fuel → digits_value 0 (decimal fuel n) ≡ n
unfolding decimal digits_value
digits_value-decimal zero n h = ground arith
digits_value-decimal (suc fuel) n h = elim (Bool-cases (ltb n 10)) [
  | inl small ↦ rw small (ground arith)
  | inr large ↦ rw large (
      digits_value-concat 0 (decimal fuel (n / 10)) (48 + n % 10) (decimal-AllDigits fuel (n / 10))
        (ground arith)
      ∙ omega (arith, digits_value-decimal fuel (n / 10) (omega (arith, pow-suc 10 (suc fuel)))))
]

stoi-digits : (cs : List ℕ) → starts_with_digit cs ≡ true → stoi cs ≡ to_int false cs
unfolding stoi starts_with_digit
stoi-digits [] h = cc
stoi-digits (c ∷ cs) h =
    let no_space : is_space c ≡ false = ground arith in
    let no_minus : (c == b'-') ≡ false = ground arith in
    let no_plus : (c == b'+') ≡ false = ground arith in rw no_space (rw no_minus (rw no_plus refl))

-- An `int` that is not negative.
pub stoi-decimal : (n : ℕ) → n < 2 ^ 31 → stoi (decimal 10 n) ≡ ok (pos n)
unfolding to_int
stoi-decimal n h =
    let value = digits_value-decimal 10 n (omega arith) in
    let fits : ltb (digits_value 0 (decimal 10 n)) (2 ^ 31) ≡ true = ground (arith, value) in
    stoi-digits (decimal 10 n) (starts-decimal 10 n)
    ∙ rw (starts-decimal 10 n) (rw fits (ap (λ m. ok (pos m)) value))
