-- ===== src/Supernode/Sampling.antt =====
-- Queries of a supernode: each sketch is queried once, the exception comes after the last one, and
-- resetting the query state takes the samples back.
use hyper_graph_streaming_cc.Prelude.{
  ℕ, zero, suc, ◌+◌, ◌<◌, ◌≤◌, ◌≡◌, refl, ap, ◌∙◌, List, [], ◌∷◌, some, length, arith, false,
  Bool-cases, inl, inr, get_elem?, set, ◌==◌, ==_iff, length-set,
}
use hyper_graph_streaming_cc.Platform.{Platform}
use hyper_graph_streaming_cc.Exceptions.{ok, throw, out_of_queries}
use hyper_graph_streaming_cc.Sketch.Defs.{SampleSketchRet, Config, Sketch}
use hyper_graph_streaming_cc.Sketch.Query.{query}
use hyper_graph_streaming_cc.Sketch.Answers.{is_zero, is_last, is_found, is_fail, query_lem}
use hyper_graph_streaming_cc.Supernode.Defs.{Supernode, Edge, sample, sample_result}

-- From index `i` on no sketch was queried.
abbrev pub UnqueriedFrom : ℕ → List Sketch → Type 0
UnqueriedFrom i [] = Unit {0}
UnqueriedFrom zero (s ∷ ss) = (s.already_queried ≡ false) × UnqueriedFrom zero ss
UnqueriedFrom (suc i) (s ∷ ss) = UnqueriedFrom i ss

-- The query state of a supernode is sound: the index counts the sketches used.
pub record IsQueryable (s : Supernode) : Type 0 where
  pub count : length s.sketches ≡ s.num_sketches
  pub index : s.idx ≤ s.num_sketches
  pub unqueried : UnqueriedFrom s.idx s.sketches

pub get-UnqueriedFrom :
    (i : ℕ) (ss : List Sketch)
    → i < length ss
    → UnqueriedFrom i ss
    → (s : Sketch) × (get_elem? ss i ≡ some s) × (s.already_queried ≡ false)
get-UnqueriedFrom i [] h u = absurd (omega arith)
get-UnqueriedFrom zero (s ∷ ss) h u = (s, refl, u.0)
get-UnqueriedFrom (suc i) (s ∷ ss) h u = get-UnqueriedFrom i ss (omega arith) u

UnqueriedFrom-set :
    (i : ℕ) (ss : List Sketch) (t : Sketch)
    → UnqueriedFrom i ss
    → UnqueriedFrom (suc i) (set ss i t)
UnqueriedFrom-set i [] t u = tt
UnqueriedFrom-set zero (s ∷ []) t u = tt
UnqueriedFrom-set zero (s ∷ s' ∷ ss) t u = u.1
UnqueriedFrom-set (suc i) (s ∷ ss) t u = UnqueriedFrom-set i ss t u

module _ (p : Platform) (cfg : Config) (s : Supernode) (h : IsQueryable s) where
  -- When all the sketches are used, `sample` throws and changes nothing.
  pub sample_out : s.idx ≡ s.num_sketches → sample p cfg s ≡ (s, throw out_of_queries)
  unfolding sample
  sample_out e = ground arith

  sample-step :
      (sketch : Sketch)
      → (s.idx == s.num_sketches) ≡ false
      → get_elem? s.sketches s.idx ≡ some sketch
      → sample p cfg s ≡ (
        record s { idx = s.idx + 1; sketches = set s.sketches s.idx (query p cfg sketch).0 },
        sample_result p cfg (query p cfg sketch).1,
      )
  unfolding sample
  sample-step sketch e f = ground arith

  -- Before that, `sample` queries the sketch at the index, which was not queried before, and
  -- advances the index.
  pub sample_in :
      s.idx < s.num_sketches
      → (sketch : Sketch) × (get_elem? s.sketches s.idx ≡ some sketch)
        × (sketch.already_queried ≡ false)
        × (sample p cfg s ≡ (
          record s { idx = s.idx + 1; sketches = set s.sketches s.idx (query p cfg sketch).0 },
          sample_result p cfg (query p cfg sketch).1,
        ))
  sample_in lt =
      let (sketch, found, fresh) =
        get-UnqueriedFrom s.idx s.sketches (omega (arith, h.count)) h.unqueried in
      (sketch, found, fresh, sample-step sketch (ground arith) found)

  -- `sample` returns a value: no sketch is queried twice.
  pub sample_returns :
      cfg.num_guesses ≤ 31
      → s.idx < s.num_sketches
      → (e : Edge) × (r : SampleSketchRet) × ((sample p cfg s).1 ≡ ok (e, r))
  sample_returns few lt =
      let (sketch, found, fresh, step) = sample_in lt in
      let result = ap (λ t. t.1) step in
      elim (query_lem p cfg sketch few fresh) [
        | is_zero e a c ↦ (_, _, result ∙ ap (sample_result p cfg) e)
        | is_last e g ↦ (_, _, result ∙ ap (sample_result p cfg) e)
        | is_found v e f ↦ (_, _, result ∙ ap (sample_result p cfg) e)
        | is_fail e none_good ↦ (_, _, result ∙ ap (sample_result p cfg) e)
      ]

  -- The query state stays sound.
  pub sample-IsQueryable : IsQueryable (sample p cfg s).0
  sample-IsQueryable = elim (Bool-cases (s.idx == s.num_sketches)) [
    | inl e ↦ rw (sample_out ((==_iff _ _).0 e)) h
    | inr e ↦
        let lt : s.idx < s.num_sketches = ground (arith, h.index) in
        let (sketch, found, fresh, step) = sample_in lt in
        let one : suc s.idx ≡ s.idx + 1 = omega arith in
        rw step (record {
          count = length-set s.sketches s.idx (query p cfg sketch).0 ∙ h.count;
          index = omega arith;
          unqueried =
              rw (← one) (UnqueriedFrom-set s.idx s.sketches (query p cfg sketch).0 h.unqueried);
        })
  ]
