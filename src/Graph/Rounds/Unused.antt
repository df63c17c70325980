-- ===== src/Graph/Rounds/Unused.antt =====
-- The sketches that are left to query: sampling uses them up, and merging makes no new ones.
use mathlib.Core.Option.{some-injective}
use hyper_graph_streaming_cc.Prelude.{
  some≢none, ℕ, zero, suc, ◌+◌, ◌-◌, ◌≤◌, ◌≡◌, ◌≢◌, refl, ap, ◌∙◌, sym, subst, List, [], ◌∷◌, arith,
  Option, none, some, ◌==◌, Bool-cases, inl, inr, length, length-set, get_elem?, set, Option-cases,
}
use hyper_graph_streaming_cc.Prelude.Slots.{get_elem?-below}
use hyper_graph_streaming_cc.Platform.{Platform}
use hyper_graph_streaming_cc.Exceptions.{
  Exception, Result, throw, out_of_queries, undefined_behaviour,
}
use hyper_graph_streaming_cc.Sketch.Query.{query}
use hyper_graph_streaming_cc.Sketch.Defs.{Config, SampleSketchRet}
use hyper_graph_streaming_cc.Supernode.Defs.{Supernode, Edge, sample}
use hyper_graph_streaming_cc.Graph.Rounds.{caught, store_sample, sample_supernodes}

abbrev pub unused : Supernode → ℕ
unused s = length s.sketches - s.idx

unfoldable pub total_unused : List Supernode → ℕ
total_unused [] = 0
total_unused (s ∷ supernodes) = unused s + total_unused supernodes

pub total_unused-set :
    (supernodes : List Supernode) (i : ℕ) (s s' : Supernode)
    → get_elem? supernodes i ≡ some s
    → total_unused (set supernodes i s') + unused s ≡ total_unused supernodes + unused s'
unfolding total_unused
total_unused-set [] i s s' e = cc
total_unused-set (t ∷ supernodes) zero s s' e =
    let same : unused t ≡ unused s = ap unused (some-injective t s e) in omega arith
total_unused-set (t ∷ supernodes) (suc i) s s' e =
    omega (arith, total_unused-set supernodes i s s' e)

-- A sample that throws before a query leaves the supernode, any other uses up one sketch.
data Sampled (s : Supernode) : Supernode × Result (Edge × SampleSketchRet) → Type 0 where
  stopped :
      {r : Supernode × Result (Edge × SampleSketchRet)} (e : Exception)
      → r ≡ (s, throw e)
      → Sampled s r
  used :
      {r : Supernode × Result (Edge × SampleSketchRet)} → suc (unused r.0) ≡ unused s → Sampled s r

caught-throw : (e : Exception) (except : Option Exception) → caught (throw e) except ≢ none
caught-throw e none h = cc
caught-throw e (some e') h = cc

caught-none :
    (result : Result (Edge × SampleSketchRet)) (except : Option Exception)
    → caught result except ≡ none
    → except ≡ none
caught-none result none h = refl
caught-none result (some e) h = cc

module _ (p : Platform) (cfg : Config) where
  sample-Sampled : (s : Supernode) → Sampled s (sample p cfg s)
  unfolding sample
  sample-Sampled s = elim (Bool-cases (s.idx == s.num_sketches)) [
    | inl out ↦ rw out (stopped out_of_queries refl)
    | inr left ↦ elim (Option-cases (get_elem? s.sketches s.idx)) [
      | inl missing ↦ rw left (rw missing (stopped undefined_behaviour refl))
      | inr (sketch, found) ↦
          let below = get_elem?-below s.sketches s.idx sketch found in
          let size = length-set s.sketches s.idx (query p cfg sketch).0 in
          rw left (rw found (used (omega (arith, below, size))))
    ]
  ]

  -- Sampling never adds to the sketches left, and each sample that returns uses one up.
  abbrev Uses :
      List ℕ
      → List Supernode
      → List Supernode × List (Edge × SampleSketchRet) × Option Exception
      → Type 0
  Uses reps supernodes r =
      (total_unused r.0 ≤ total_unused supernodes)
      × (r.2 ≡ none → total_unused r.0 + length reps ≤ total_unused supernodes)

  sample_supernodes-missing :
      (i : ℕ) (reps : List ℕ) (supernodes : List Supernode)
      (answers : List (Edge × SampleSketchRet))
      → get_elem? supernodes i ≡ none
      → sample_supernodes p cfg (i ∷ reps) supernodes answers
        ≡ (supernodes, answers, some undefined_behaviour)
  unfolding sample_supernodes
  sample_supernodes-missing i reps supernodes answers e = rw (e, sample_supernodes) refl

  abbrev after :
      ℕ
      → List ℕ
      → List Supernode
      → List (Edge × SampleSketchRet)
      → Supernode
      → List Supernode × List (Edge × SampleSketchRet) × Option Exception
  after i reps supernodes answers s =
      sample_supernodes p cfg reps (set supernodes i (sample p cfg s).0)
        (store_sample i (sample p cfg s).1 answers)

  sample_supernodes-found :
      (i : ℕ) (reps : List ℕ) (supernodes : List Supernode)
      (answers : List (Edge × SampleSketchRet)) (s : Supernode)
      → get_elem? supernodes i ≡ some s
      → sample_supernodes p cfg (i ∷ reps) supernodes answers ≡ (
        (after i reps supernodes answers s).0,
        (after i reps supernodes answers s).1,
        caught (sample p cfg s).1 (after i reps supernodes answers s).2,
      )
  unfolding sample_supernodes
  sample_supernodes-found i reps supernodes answers s e = rw (e, sample_supernodes) refl

  pub sample_supernodes-Uses :
      (reps : List ℕ) (supernodes : List Supernode) (answers : List (Edge × SampleSketchRet))
      → Uses reps supernodes (sample_supernodes p cfg reps supernodes answers)
  unfolding sample_supernodes
  sample_supernodes-Uses [] supernodes answers = (omega arith, λ e. omega arith)
  sample_supernodes-Uses (i ∷ reps) supernodes answers =
      elim (Option-cases (get_elem? supernodes i)) [
        | inl missing ↦
            subst (Uses (i ∷ reps) supernodes)
              (sym (sample_supernodes-missing i reps supernodes answers missing))
              (omega arith, λ e. absurd (some≢none e))
        | inr (s, found) ↦
            let rest =
              sample_supernodes-Uses reps (set supernodes i (sample p cfg s).0)
                (store_sample i (sample p cfg s).1 answers) in
            let except = (after i reps supernodes answers s).2 in
            let moved = total_unused-set supernodes i s (sample p cfg s).0 found in
            subst (Uses (i ∷ reps) supernodes)
              (sym (sample_supernodes-found i reps supernodes answers s found))
              (elim (sample-Sampled s) [
                | stopped e same ↦
                    let kept : unused (sample p cfg s).0 ≡ unused s = ap (λ r. unused r.0) same in
                    (
                      omega arith,
                      λ quiet.
                          absurd (
                            caught-throw e except (ap (λ r. caught r.1 except) (sym same) ∙ quiet)),
                    )
                | used one ↦ (
                  omega arith,
                  λ quiet. omega (arith, rest.1 (caught-none (sample p cfg s).1 except quiet)),
                )
              ])
      ]
