-- ===== src/Sketch/Answers.antt =====
-- What `query` answers: its three return codes, the bucket behind a GOOD answer, and the bound on
-- the number of guesses within which its shift is defined.
use hyper_graph_streaming_cc.Prelude.{
  ℕ, zero, suc, ◌+◌, ◌-◌, ◌^◌, ◌<◌, ◌≤◌, ◌≡◌, ◌≢◌, refl, ap, ◌∙◌, arith, Bool, true, false, ◌&&◌,
  ◌==◌, ==_iff, Bool-cases, lt→ltb, ◌⊎◌, inl, inr, if◌then◌else◌, get_or, Option, none, some,
}
use hyper_graph_streaming_cc.Platform.{Platform}
use hyper_graph_streaming_cc.Bucket.{is_good, is_good_in}
use hyper_graph_streaming_cc.Exceptions.{Result, ok, throw, multiple_query}
use hyper_graph_streaming_cc.Sketch.Defs.{
  SampleSketchRet, good, zero_ret, fail, Config, Sketch, bucket_id,
}
use hyper_graph_streaming_cc.Sketch.Query.{query_guesses, query_buckets, query_result, query}

-- Bucket `j` of column `i` passes the tests of `query`.
unfoldable pub good_at : Platform → Config → Sketch → ℕ → ℕ → Bool
good_at p cfg s i j =
    is_good_in p (get_or s.bucket_a (bucket_id cfg i j) 0) (get_or s.bucket_c (bucket_id cfg i j) 0)
      i (2 ^ j) s.seed

-- A bucket in the columns from `i` on, among the guesses from `j` on, that `query` may return.
pub record Found (p : Platform) (cfg : Config) (s : Sketch) (i j : ℕ) (v : ℕ) : Type 0 where
  pub column : ℕ
  pub guess : ℕ
  pub column-lt : column < i
  pub guess-lt : guess < j
  pub passes : good_at p cfg s column guess ≡ true
  pub holds : v ≡ get_or s.bucket_a (bucket_id cfg column guess) 0

Found-mono :
    (p : Platform) (cfg : Config) (s : Sketch) (i j i' j' v : ℕ)
    → i ≤ i'
    → j ≤ j'
    → Found p cfg s i j v
    → Found p cfg s i' j' v
Found-mono p cfg s i j i' j' v hi hj f = record {
  column = f.column;
  guess = f.guess;
  column-lt = omega (arith, f.column-lt);
  guess-lt = omega (arith, f.guess-lt);
  passes = f.passes;
  holds = f.holds;
}

module _ (p : Platform) (cfg : Config) (s : Sketch) where
  -- The end of a loop: a bucket was found, or all buckets of the ranges fail the tests.
  abbrev Scanned : (ℕ → ℕ → Type 0) → ℕ → ℕ → Result (Option ℕ) → Type 0
  Scanned Range i j r =
      ((v : ℕ) × (r ≡ ok (some v)) × Found p cfg s i j v)
      ⊎ ((r ≡ ok none) × ((i' j' : ℕ) → Range i' j' → good_at p cfg s i' j' ≡ false))

  query_guesses-suc :
      (left j i : ℕ)
      → j < 31
      → query_guesses p cfg (suc left) j i s ≡ (
          if good_at p cfg s i j
          then ok (some (get_or s.bucket_a (bucket_id cfg i j) 0))
          else query_guesses p cfg left (j + 1) i s)
  unfolding query_guesses good_at
  query_guesses-suc left j i h = rw (lt→ltb j 31 h, query_guesses)

  query_guesses_lem :
      (left j i : ℕ)
      → j + left ≤ 31
      → Scanned
          (λ i' j'. (i' ≡ i) × (j ≤ j') × (j' < j + left))
          (i + 1)
          (j + left)
          (query_guesses p cfg left j i s)
  unfolding query_guesses good_at
  query_guesses_lem zero j i h = inr (refl, λ i' j' r. absurd (omega arith))
  query_guesses_lem (suc left) j i h =
      let step = query_guesses-suc left j i (omega arith) in
      elim (Bool-cases (good_at p cfg s i j)) [
        | inl e ↦ inl (
          get_or s.bucket_a (bucket_id cfg i j) 0,
          rw e at step,
          record {
            column = i;
            guess = j;
            column-lt = omega arith;
            guess-lt = omega arith;
            passes = e;
            holds = refl;
          },
        )
        | inr e ↦
            let next : query_guesses p cfg (suc left) j i s ≡ query_guesses p cfg left (j + 1) i s =
              rw e at step in
            elim (query_guesses_lem left (j + 1) i (omega arith)) [
              | inl (v, r, f) ↦ inl (
                v,
                next ∙ r,
                Found-mono p cfg s (i + 1) (j + 1 + left) (i + 1) (j + suc left) v (omega arith)
                    (omega arith) f,
              )
              | inr (r, none_good) ↦ inr (
                next ∙ r,
                λ i' j' range. elim (Bool-cases (j == j')) [
                  | inl same ↦ rw (range.0, ← (==_iff j j').0 same) e
                  | inr other ↦ none_good i' j' (ground arith)
                ],
              )
            ]
      ]

  query_buckets_lem :
      (left i : ℕ)
      → cfg.num_guesses ≤ 31
      → Scanned
          (λ i' j'. (i ≤ i') × (i' < i + left) × (j' < cfg.num_guesses))
          (i + left)
          cfg.num_guesses
          (query_buckets p cfg left i s)
  unfolding query_buckets
  query_buckets_lem zero i h = inr (refl, λ i' j' r. absurd (omega arith))
  query_buckets_lem (suc left) i h = elim (query_guesses_lem cfg.num_guesses 0 i (omega arith)) [
    | inl (v, r, f) ↦ inl (
      v,
      rw (r, query_buckets),
      Found-mono p cfg s (i + 1) (0 + cfg.num_guesses) (i + suc left) cfg.num_guesses v
          (omega arith) (omega arith) f,
    )
    | inr (r, none_good) ↦
        let next : query_buckets p cfg (suc left) i s ≡ query_buckets p cfg left (i + 1) s =
          rw (r, query_buckets) in
        elim (query_buckets_lem left (i + 1) h) [
          | inl (v, r', f) ↦ inl (
            v,
            next ∙ r',
            Found-mono p cfg s (i + 1 + left) cfg.num_guesses (i + suc left) cfg.num_guesses v
                (omega arith) (omega arith) f,
          )
          | inr (r', later) ↦ inr (
            next ∙ r',
            λ i' j' range. elim (Bool-cases (i == i')) [
              | inl same ↦ none_good i' j' (ground arith)
              | inr other ↦ later i' j' (ground arith)
            ],
          )
        ]
  ]

module _ (p : Platform) (cfg : Config) (s : Sketch) where
  -- A query leaves the buckets alone and sets the flag.
  pub query-state : (query p cfg s).0 ≡ record s { already_queried = true }
  unfolding query
  query-state = ground arith

  abbrev pub last_a : ℕ
  last_a = get_or s.bucket_a (cfg.num_elems - 1) 0

  abbrev pub last_c : ℕ
  last_c = get_or s.bucket_c (cfg.num_elems - 1) 0

  pub query_zero :
      s.already_queried ≡ false → last_a ≡ 0 → last_c ≡ 0 → (query p cfg s).1 ≡ ok (0, zero_ret)
  unfolding query
  query_zero e a c = ground arith

  pub query_last :
      s.already_queried ≡ false
      → last_a ≢ 0
      → is_good p last_a last_c s.seed ≡ true
      → (query p cfg s).1 ≡ ok (last_a, good)
  unfolding query
  query_last e a g = ground arith

  -- A sketch that was queried before throws.
  pub query_again : s.already_queried ≡ true → (query p cfg s).1 ≡ throw multiple_query
  unfolding query
  query_again e = rw e

  abbrev marked : Sketch
  marked = record s { already_queried = true }

  Found-marked : (i j v : ℕ) → Found p cfg marked i j v → Found p cfg s i j v
  unfolding good_at
  Found-marked i j v f = record {
    column = f.column;
    guess = f.guess;
    column-lt = f.column-lt;
    guess-lt = f.guess-lt;
    passes = f.passes;
    holds = f.holds;
  }

  -- Each answer with what it says of the buckets.
  pub data Answer : Result (ℕ × SampleSketchRet) → Type 0 where
    is_zero :
        {r : Result (ℕ × SampleSketchRet)}
        → r ≡ ok (0, zero_ret)
        → last_a ≡ 0
        → last_c ≡ 0
        → Answer r
    is_last :
        {r : Result (ℕ × SampleSketchRet)}
        → r ≡ ok (last_a, good)
        → is_good p last_a last_c s.seed ≡ true
        → Answer r
    is_found :
        {r : Result (ℕ × SampleSketchRet)} (v : ℕ)
        → r ≡ ok (v, good)
        → Found p cfg s cfg.num_buckets cfg.num_guesses v
        → Answer r
    is_fail :
        {r : Result (ℕ × SampleSketchRet)}
        → r ≡ ok (0, fail)
        → ((i j : ℕ) → i < cfg.num_buckets → j < cfg.num_guesses → good_at p cfg s i j ≡ false)
        → Answer r

  Scanned-Answer :
      (r : Result (Option ℕ))
      → (query p cfg s).1 ≡ query_result r
      → Scanned p cfg marked
          (λ i' j'. (0 ≤ i') × (i' < 0 + cfg.num_buckets) × (j' < cfg.num_guesses))
          (0 + cfg.num_buckets)
          cfg.num_guesses
          r
      → Answer (query p cfg s).1
  unfolding good_at
  Scanned-Answer r e (inl (v, e', f)) =
      is_found v (e ∙ ap query_result e')
        (Found-mono p cfg s _ _ _ _ v (omega arith) (omega arith) (Found-marked _ _ v f))
  Scanned-Answer r e (inr (e', none_good)) =
      is_fail (e ∙ ap query_result e') (λ i j hi hj. none_good i j (omega arith))

  -- With at most 31 guesses, a query of a sketch that was not queried before throws nothing: it
  -- returns ZERO and the last entry is 0, or the last entry and its checksum holds, or the value
  -- of a bucket that passes its test, or FAIL and no bucket passes its test.
  pub query_lem : cfg.num_guesses ≤ 31 → s.already_queried ≡ false → Answer (query p cfg s).1
  unfolding query
  query_lem h e = elim (Bool-cases (last_a == 0 && last_c == 0)) [
    | inl z ↦ is_zero (rw (e, z)) (ground arith) (ground arith)
    | inr nz ↦ elim (Bool-cases (is_good p last_a last_c s.seed)) [
      | inl g ↦ is_last (ground arith) g
      | inr b ↦
          Scanned-Answer (query_buckets p cfg cfg.num_buckets 0 marked) (ground arith)
            (query_buckets_lem p cfg marked cfg.num_buckets 0 h)
    ]
  ]
