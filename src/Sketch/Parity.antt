-- ===== src/Sketch/Parity.antt =====
-- What a sketch keeps of a stream: how often each index was updated, modulo 2.
use hyper_graph_streaming_cc.Prelude.{
  ℕ, zero, suc, ◌+◌, ◌%◌, ◌<◌, ◌≤◌, ◌≡◌, refl, ap, ◌∙◌, sym, List, [], ◌∷◌, ◌++◌, length, arith,
  ◌==◌, ==_iff, Bool-cases, inl, inr, if◌then◌else◌,
}
use hyper_graph_streaming_cc.Arrays.Cells.{count, count-append}
use hyper_graph_streaming_cc.Platform.{Platform}
use hyper_graph_streaming_cc.Sketch.Defs.{Config, Sketch, update, batch_update}
use hyper_graph_streaming_cc.Sketch.Batch.{update_cancel, batch_update-append, update_comm}

-- The list without the first occurrence of `z`.
remove : ℕ → List ℕ → List ℕ
remove z [] = []
remove z (x ∷ xs) = let rest = x ∷ remove z xs in if x == z then xs else rest

count-remove :
    (z k : ℕ) (xs : List ℕ)
    → 0 < count z xs
    → count k (remove z xs) + (if z == k then 1 else 0) ≡ count k xs
unfolding remove count
count-remove z k [] h = absurd (omega arith)
count-remove z k (x ∷ xs) h = elim (Bool-cases (x == z)) [
  | inl e ↦ let e' = (==_iff x z).0 e in rw e (rw (← e') (ground arith))
  | inr e ↦ rw e (ground (arith, count-remove z k xs))
]

length-remove : (z : ℕ) (xs : List ℕ) → 0 < count z xs → suc (length (remove z xs)) ≡ length xs
unfolding remove count
length-remove z [] h = absurd (omega arith)
length-remove z (x ∷ xs) h = ground (arith, length-remove z xs)

-- Every index occurs an even number of times.
abbrev IsEven : List ℕ → Type 0
IsEven xs = (k : ℕ) → count k xs % 2 ≡ 0

-- Each index occurs equally often in both, modulo 2: the two streams leave the same vector.
abbrev pub SameParity : List ℕ → List ℕ → Type 0
SameParity xs ys = (k : ℕ) → count k xs % 2 ≡ count k ys % 2

module _ (p : Platform) (cfg : Config) where
  batch_update-remove :
      (z : ℕ) (xs : List ℕ) (s : Sketch)
      → 0 < count z xs
      → batch_update p cfg xs s ≡ batch_update p cfg (remove z xs) (update p cfg z s)
  unfolding remove count batch_update
  batch_update-remove z [] s h = absurd (omega arith)
  batch_update-remove z (x ∷ xs) s h = elim (Bool-cases (x == z)) [
    | inl e ↦ rw e (ap (λ t. batch_update p cfg xs (update p cfg t s)) ((==_iff x z).0 e))
    | inr e ↦ rw e (
        batch_update-remove z xs (update p cfg x s) (rw e at h)
        ∙ ap (batch_update p cfg (remove z xs)) (update_comm p cfg z x s))
  ]

  batch_update_even :
      (fuel : ℕ) (xs : List ℕ) (s : Sketch)
      → length xs ≤ fuel
      → IsEven xs
      → batch_update p cfg xs s ≡ s
  unfolding batch_update count
  batch_update_even fuel [] s h even = refl
  batch_update_even zero (x ∷ xs) s h even = absurd (omega arith)
  batch_update_even (suc fuel) (x ∷ xs) s h even =
      let again : 0 < count x xs = ground (arith, even x) in
      batch_update-remove x xs (update p cfg x s) again
      ∙ ap (batch_update p cfg (remove x xs)) (update_cancel p cfg x s)
      ∙ batch_update_even fuel (remove x xs) s (omega (arith, length-remove x xs again))
          (λ k. ground (arith, even k, count-remove x k xs again))

  -- Two streams that have each index equally often modulo 2 take a sketch to the same state.
  pub batch_update_parity :
      (xs ys : List ℕ) (s : Sketch)
      → SameParity xs ys
      → batch_update p cfg xs s ≡ batch_update p cfg ys s
  batch_update_parity xs ys s same =
      let both = λ (zs : List ℕ) (t : Sketch) (even : IsEven (zs ++ ys)).
        sym (batch_update-append p cfg zs ys t)
        ∙ batch_update_even (length (zs ++ ys)) (zs ++ ys) t (omega arith) even in
      sym (both ys (batch_update p cfg xs s) (λ k. omega (arith, count-append k ys ys)))
      ∙ ap (batch_update p cfg ys) (both xs s (λ k. omega (arith, count-append k xs ys, same k)))
