-- ===== src/Supernode/Reset.antt =====
-- `reset_query_state` takes back any number of samples.
use hyper_graph_streaming_cc.Prelude.{
  ℕ, zero, suc, ◌+◌, ◌≤◌, ◌<◌, ◌≡◌, refl, ap, ◌∙◌, sym, List, [], ◌∷◌, map, some, arith, false,
  true, Bool-cases, inl, inr, get_elem?, set, ◌==◌, ==_iff,
}
use hyper_graph_streaming_cc.Platform.{Platform}
use hyper_graph_streaming_cc.Exceptions.{ok, throw, out_of_queries}
use hyper_graph_streaming_cc.Sketch.Defs.{SampleSketchRet, Config, Sketch, copy_sketch}
use hyper_graph_streaming_cc.Sketch.Answers.{query-state}
use hyper_graph_streaming_cc.Supernode.Defs.{
  Supernode, Edge, sample, reset_query_state, reset_queried, copy_supernode,
}
use hyper_graph_streaming_cc.Supernode.Sampling.{
  IsQueryable, UnqueriedFrom, sample_in, sample_out, sample-IsQueryable, sample_returns,
}

reset_queried-set :
    (i : ℕ) (ss : List Sketch) (s : Sketch)
    → get_elem? ss i ≡ some s
    → s.already_queried ≡ false
    → reset_queried (suc i) (set ss i (record s { already_queried = true })) ≡ reset_queried i ss
unfolding reset_queried
reset_queried-set i [] s e f = cc
reset_queried-set zero (s' ∷ ss) s e f =
    let same : s ≡ s' = cc in
    λ i.
      record {
        seed = (same i).seed;
        bucket_a = (same i).bucket_a;
        bucket_c = (same i).bucket_c;
        already_queried = (sym f ∙ ap (λ t. t.already_queried) same) i;
      }
      ∷ ss
reset_queried-set (suc i) (s' ∷ ss) s e f =
    ap (λ t. record s' { already_queried = false } ∷ t) (reset_queried-set i ss s e f)

reset_queried-copy_sketch :
    (cfg : Config) (i : ℕ) (ss : List Sketch)
    → UnqueriedFrom i ss
    → reset_queried i (map (copy_sketch cfg) ss) ≡ reset_queried i ss
unfolding reset_queried copy_sketch
reset_queried-copy_sketch cfg zero [] u = refl
reset_queried-copy_sketch cfg zero (s ∷ ss) u =
    let rest = reset_queried-copy_sketch cfg zero ss u.1 in
    λ i. record s { already_queried = sym u.0 i } ∷ rest i
reset_queried-copy_sketch cfg (suc i) [] u = refl
reset_queried-copy_sketch cfg (suc i) (s ∷ ss) u =
    ap (λ t. record s { already_queried = false } ∷ t) (reset_queried-copy_sketch cfg i ss u)

-- A copy of a supernode with a sound query state is reset to the same.
pub reset-copy_supernode :
    (cfg : Config) (s : Supernode)
    → IsQueryable s
    → reset_query_state (copy_supernode cfg s) ≡ reset_query_state s
unfolding reset_query_state copy_supernode
reset-copy_supernode cfg s h =
    ap (λ ss. record s { idx = 0; sketches = ss })
      (reset_queried-copy_sketch cfg s.idx s.sketches h.unqueried)

-- `k` calls of `sample`, one after the other.
abbrev pub after_samples : Platform → Config → ℕ → Supernode → Supernode
after_samples p cfg zero s = s
after_samples p cfg (suc k) s = after_samples p cfg k (sample p cfg s).0

module _ (p : Platform) (cfg : Config) where
  pub reset-sample :
      (s : Supernode) → IsQueryable s → reset_query_state (sample p cfg s).0 ≡ reset_query_state s
  unfolding reset_query_state
  reset-sample s h = elim (Bool-cases (s.idx == s.num_sketches)) [
    | inl e ↦ rw (sample_out p cfg s h ((==_iff _ _).0 e)) refl
    | inr e ↦
        let lt : s.idx < s.num_sketches = ground (arith, h.index) in
        let (sketch, found, fresh, step) = sample_in p cfg s h lt in
        let one : s.idx + 1 ≡ suc s.idx = omega arith in
        rw (step, query-state p cfg sketch, one)
          (λ i. record s {
            idx = 0;
            sketches = reset_queried-set s.idx s.sketches sketch found fresh i;
          })
  ]

  -- If the query state of a supernode is sound, then resetting after any number of samples gives
  -- the state that resetting gave before them.
  pub reset_query_state-after_samples :
      (k : ℕ) (s : Supernode)
      → IsQueryable s
      → reset_query_state (after_samples p cfg k s) ≡ reset_query_state s
  reset_query_state-after_samples zero s h = refl
  reset_query_state-after_samples (suc k) s h =
      reset_query_state-after_samples k (sample p cfg s).0 (sample-IsQueryable p cfg s h)
      ∙ reset-sample s h

  idx-sample :
      (s : Supernode)
      → IsQueryable s
      → s.idx < s.num_sketches
      → ((sample p cfg s).0.idx ≡ suc s.idx) × ((sample p cfg s).0.num_sketches ≡ s.num_sketches)
  idx-sample s h lt =
      let (sketch, found, fresh, step) = sample_in p cfg s h lt in
      (omega (arith, ap (λ t. t.0.idx) step), ap (λ t. t.0.num_sketches) step)

  sample_count :
      (k : ℕ) (s : Supernode)
      → cfg.num_guesses ≤ 31
      → IsQueryable s
      → (s.idx + k < s.num_sketches
          → (e : Edge) × (r : SampleSketchRet) × ((sample p cfg (after_samples p cfg k s)).1
              ≡ ok (e, r)))
        × (s.idx + k ≡ s.num_sketches
            → (sample p cfg (after_samples p cfg k s)).1 ≡ throw out_of_queries)
  sample_count zero s few h = (
    λ lt. sample_returns p cfg s h few (omega arith),
    λ e. ap (λ t. t.1) (sample_out p cfg s h (omega arith)),
  )
  sample_count (suc k) s few h =
      let next = sample_count k (sample p cfg s).0 few (sample-IsQueryable p cfg s h) in
      (
        λ lt. next.0 (omega (arith, idx-sample s h (omega arith))),
        λ e. next.1 (omega (arith, idx-sample s h (omega arith))),
      )

  -- With at most 31 guesses and a sound query state, the sample after `k` others returns a value as
  -- long as the index and `k` are together below `num_sketches`.
  pub sample_available :
      (k : ℕ) (s : Supernode)
      → cfg.num_guesses ≤ 31
      → IsQueryable s
      → s.idx + k < s.num_sketches
      → (e : Edge) × (r : SampleSketchRet) × ((sample p cfg (after_samples p cfg k s)).1
          ≡ ok (e, r))
  sample_available k s few h lt = (sample_count k s few h).0 lt

  -- With at most 31 guesses and a sound query state, the sample after `k` others throws when the
  -- index and `k` make `num_sketches`.
  pub sample_exhausted :
      (k : ℕ) (s : Supernode)
      → cfg.num_guesses ≤ 31
      → IsQueryable s
      → s.idx + k ≡ s.num_sketches
      → (sample p cfg (after_samples p cfg k s)).1 ≡ throw out_of_queries
  sample_exhausted k s few h e = (sample_count k s few h).1 e
