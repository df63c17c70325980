-- ===== src/Prelude/Blocks.antt =====
-- Blocks of lists: what `take` and `drop` leave.
use Prim.Native.Nat.{ℕ, zero, suc, ◌+◌, ◌-◌, ◌≤◌}
use mathlib.Core.Path.{◌≡◌, refl, sym, ap, ◌∙◌}
use mathlib.Core.List.{List, [], ◌∷◌, ◌++◌}
use native.Mathlib.Omega.{arith}
use hyper_graph_streaming_cc.Prelude.Lists.{length, take, drop}

module _ {A : Type 0} where
  pub take-drop : (n : ℕ) (xs : List A) → take n xs ++ drop n xs ≡ xs
  take-drop zero xs = refl
  take-drop (suc n) [] = refl
  take-drop (suc n) (x ∷ xs) = ap (λ t. x ∷ t) (take-drop n xs)

  pub drop_all : (n : ℕ) (xs : List A) → length xs ≤ n → drop n xs ≡ []
  drop_all zero [] h = refl
  drop_all zero (x ∷ xs) h = absurd (omega arith)
  drop_all (suc n) [] h = refl
  drop_all (suc n) (x ∷ xs) h = drop_all n xs (omega arith)

  pub length-drop : (n : ℕ) (xs : List A) → length (drop n xs) ≡ length xs - n
  length-drop zero xs = omega arith
  length-drop (suc n) [] = omega arith
  length-drop (suc n) (x ∷ xs) = omega (arith, length-drop n xs)

  pub drop-drop : (m n : ℕ) (xs : List A) → drop (m + n) xs ≡ drop n (drop m xs)
  drop-drop zero n xs = let same : 0 + n ≡ n = omega arith in ap (λ k. drop k xs) same
  drop-drop (suc m) n [] =
      let same : suc m + n ≡ suc (m + n) = omega arith in
      ap (λ k. drop k []) same ∙ sym (drop_all n [] (omega arith))
  drop-drop (suc m) n (x ∷ xs) =
      let same : suc m + n ≡ suc (m + n) = omega arith in
      ap (λ k. drop k (x ∷ xs)) same ∙ drop-drop m n xs

  pub drop-append : (xs ys : List A) → drop (length xs) (xs ++ ys) ≡ ys
  drop-append [] ys = refl
  drop-append (x ∷ xs) ys = drop-append xs ys

  pub drop_left : (n : ℕ) (xs ys : List A) → n ≤ length xs → drop n (xs ++ ys) ≡ drop n xs ++ ys
  drop_left zero xs ys h = refl
  drop_left (suc n) [] ys h = absurd (omega arith)
  drop_left (suc n) (x ∷ xs) ys h = drop_left n xs ys (omega arith)

  pub take_left : (n : ℕ) (xs ys : List A) → n ≤ length xs → take n (xs ++ ys) ≡ take n xs
  take_left zero xs ys h = refl
  take_left (suc n) [] ys h = absurd (omega arith)
  take_left (suc n) (x ∷ xs) ys h = ap (λ t. x ∷ t) (take_left n xs ys (omega arith))

  pub take-append : (xs ys : List A) → take (length xs) (xs ++ ys) ≡ xs
  take-append [] ys = refl
  take-append (x ∷ xs) ys = ap (λ t. x ∷ t) (take-append xs ys)

  pub take_all : (n : ℕ) (xs : List A) → length xs ≤ n → take n xs ≡ xs
  take_all zero [] h = refl
  take_all zero (x ∷ xs) h = absurd (omega arith)
  take_all (suc n) [] h = refl
  take_all (suc n) (x ∷ xs) h = ap (λ t. x ∷ t) (take_all n xs (omega arith))

  pub length-take : (n : ℕ) (xs : List A) → n ≤ length xs → length (take n xs) ≡ n
  length-take zero xs h = refl
  length-take (suc n) [] h = absurd (omega arith)
  length-take (suc n) (x ∷ xs) h = ap suc (length-take n xs (omega arith))

  pub take_over : (n : ℕ) (xs ys : List A) → take (length xs + n) (xs ++ ys) ≡ xs ++ take n ys
  take_over n [] ys = let same : 0 + n ≡ n = omega arith in ap (λ k. take k ys) same
  take_over n (x ∷ xs) ys =
      let same : suc (length xs) + n ≡ suc (length xs + n) = omega arith in
      ap (λ k. take k (x ∷ (xs ++ ys))) same ∙ ap (λ t. x ∷ t) (take_over n xs ys)
