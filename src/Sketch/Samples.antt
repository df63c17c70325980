-- ===== src/Sketch/Samples.antt =====
-- Querying the sketch of a stream: what the answers say of the indices that the stream leaves in
-- the vector.
use mathlib.Core.Bool.{true≢false}
use hyper_graph_streaming_cc.Prelude.{
  ℕ, zero, suc, ◌+◌, ◌^◌, ◌<◌, ◌≤◌, ◌≡◌, ◌≢◌, ap, ◌∙◌, sym, List, [], ◌∷◌, arith, Bool, true, false,
  ==_iff, Bool-cases, ◌⊎◌, inl, inr,
}
use hyper_graph_streaming_cc.Bits.{bit_xor-zero}
use hyper_graph_streaming_cc.Platform.{Platform}
use hyper_graph_streaming_cc.Bucket.{col_index_hash, index_hash, contains, is_good, is_good_in}
use hyper_graph_streaming_cc.Exceptions.{Result, ok}
use hyper_graph_streaming_cc.Sketch.Defs.{SampleSketchRet, good, zero_ret, Config, make_sketch}
use hyper_graph_streaming_cc.Sketch.Query.{query}
use hyper_graph_streaming_cc.Sketch.Parity.{SameParity, batch_update_parity}
use hyper_graph_streaming_cc.Sketch.Sizes.{already_queried-batch_update, seed-batch_update}
use hyper_graph_streaming_cc.Sketch.Places.{IsConfig, belongs, zero_bits}
use hyper_graph_streaming_cc.Sketch.Contents.{
  sketch_of, sketch_of-Holds, sketch_of-Holds_last, select, xor_all,
}
use hyper_graph_streaming_cc.Sketch.Answers.{
  is_zero, is_last, is_found, is_fail, query_lem, query_zero, query_last, good_at,
}

zero_bits-last : (n j h : ℕ) → zero_bits (suc n) j h ≡ true → contains h (2 ^ (j + n)) ≡ true
unfolding zero_bits
zero_bits-last zero j h e = let same : j + 0 ≡ j = omega arith in rw same (ground arith)
zero_bits-last (suc n) j h e =
    let same : j + suc n ≡ j + 1 + n = omega arith in
    rw same (zero_bits-last n (j + 1) h (ground arith))

select-single : (keep : ℕ → Bool) (x : ℕ) (ys : List ℕ) → select keep ys ≡ x ∷ [] → keep x ≡ true
unfolding select
select-single keep x [] e = cc
select-single keep x (y ∷ ys) e = elim (Bool-cases (keep y)) [
  | inl k ↦ ground arith
  | inr k ↦ select-single keep x ys (ground arith)
]

module _ (p : Platform) (cfg : Config) (wf : IsConfig cfg) (seed : ℕ) where
  abbrev answer : List ℕ → Result (ℕ × SampleSketchRet)
  answer xs = (query p cfg (sketch_of p cfg seed xs)).1

  answer_parity : (xs ys : List ℕ) → SameParity xs ys → answer xs ≡ answer ys
  answer_parity xs ys same =
      ap (λ s. (query p cfg s).1) (batch_update_parity p cfg xs ys (make_sketch cfg seed) same)

  fresh : (xs : List ℕ) → (sketch_of p cfg seed xs).already_queried ≡ false
  unfolding make_sketch
  fresh xs = already_queried-batch_update p cfg xs (make_sketch cfg seed)

  sketch_seed : (xs : List ℕ) → (sketch_of p cfg seed xs).seed ≡ seed
  unfolding make_sketch
  sketch_seed xs = seed-batch_update p cfg xs (make_sketch cfg seed)

  -- In a configuration as `configure` makes it: if the stream leaves nothing modulo 2, then a
  -- query of its sketch returns ZERO.
  pub query_empty :
      (xs : List ℕ)
      → SameParity xs []
      → (query p cfg (sketch_of p cfg seed xs)).1 ≡ ok (0, zero_ret)
  unfolding xor_all
  query_empty xs same =
      let h = sketch_of-Holds_last p cfg wf seed [] in
      answer_parity xs [] same
      ∙ query_zero p cfg (sketch_of p cfg seed []) (fresh []) h.value h.checksum

  -- In a configuration as `configure` makes it: if the stream leaves, modulo 2, the single index
  -- `x`, not 0, then a query of its sketch returns `x` and GOOD.
  pub query_single :
      (xs : List ℕ) (x : ℕ)
      → SameParity xs (x ∷ [])
      → x ≢ 0
      → (query p cfg (sketch_of p cfg seed xs)).1 ≡ ok (x, good)
  unfolding is_good xor_all
  query_single xs x same nonzero =
      let s = sketch_of p cfg seed (x ∷ []) in
      let h = sketch_of-Holds_last p cfg wf seed (x ∷ []) in
      let value = h.value ∙ bit_xor-zero x in
      let checks =
        h.checksum
        ∙ bit_xor-zero (index_hash p x s.seed)
        ∙ ap (λ t. index_hash p t s.seed) (sym value) in
      answer_parity xs (x ∷ []) same
      ∙ query_last p cfg s (fresh (x ∷ [])) (λ z. nonzero (sym value ∙ z)) ((==_iff _ _).1 checks)
      ∙ ap (λ t. ok (t, good)) value

  single_good_at :
      (ys : List ℕ) (x i j : ℕ)
      → i < cfg.num_buckets
      → j < cfg.num_guesses
      → select (belongs p seed i j) ys ≡ x ∷ []
      → good_at p cfg (sketch_of p cfg seed ys) i j ≡ true
  unfolding good_at is_good_in xor_all belongs
  single_good_at ys x i j hi hj one =
      let s = sketch_of p cfg seed ys in
      let h = sketch_of-Holds p cfg wf seed ys i j hi hj in
      let value = h.value ∙ ap (xor_all (λ y. y)) one ∙ bit_xor-zero x in
      let checks =
        h.checksum
        ∙ ap (xor_all (λ y. index_hash p y s.seed)) one
        ∙ bit_xor-zero (index_hash p x s.seed) in
      let kept = select-single (belongs p seed i j) x ys one in
      let e : j + 1 ≡ suc j = omega arith in
      let e' : 0 + j ≡ j = omega arith in
      let bit = zero_bits-last j 0 (col_index_hash p x (seed + i)) (rw e at kept) in
      rw (value, sketch_seed ys) (ground (arith, checks, sketch_seed ys, rw e' at bit))

  -- In a configuration as `configure` makes it, with at most 31 guesses: if some bucket keeps
  -- exactly one of the indices that the stream leaves modulo 2, then a query of the sketch of the
  -- stream returns ZERO or GOOD, and not FAIL.
  pub query_answers :
      (xs ys : List ℕ) (x i j : ℕ)
      → SameParity xs ys
      → cfg.num_guesses ≤ 31
      → i < cfg.num_buckets
      → j < cfg.num_guesses
      → select (belongs p seed i j) ys ≡ x ∷ []
      → ((query p cfg (sketch_of p cfg seed xs)).1 ≡ ok (0, zero_ret))
        ⊎ ((v : ℕ) × ((query p cfg (sketch_of p cfg seed xs)).1 ≡ ok (v, good)))
  query_answers xs ys x i j same few hi hj one =
      elim (query_lem p cfg (sketch_of p cfg seed ys) few (fresh ys)) [
        | is_zero e a c ↦ inl (answer_parity xs ys same ∙ e)
        | is_last e g ↦ inr (_, answer_parity xs ys same ∙ e)
        | is_found v e f ↦ inr (v, answer_parity xs ys same ∙ e)
        | is_fail e none_good ↦
            absurd (true≢false (sym (single_good_at ys x i j hi hj one) ∙ none_good i j hi hj))
      ]
