-- ===== src/Supernode/Streams.antt =====
-- The operations of a supernode on the stream that it represents.
use hyper_graph_streaming_cc.Prelude.{
  ℕ, zero, suc, ◌+◌, ◌<◌, ◌≢◌, ◌≡◌, refl, ap, ◌∙◌, sym, List, [], ◌∷◌, ◌++◌, map, some, length,
  arith, set, get_elem?,
}
use hyper_graph_streaming_cc.Platform.{Platform, Doubles}
use hyper_graph_streaming_cc.Exceptions.{ok}
use hyper_graph_streaming_cc.Util.{u64, inv_nondir_non_self_edge_pairing_fn}
use hyper_graph_streaming_cc.Sketch.Defs.{Config, Sketch, make_sketch, batch_update, good, zero_ret}
use hyper_graph_streaming_cc.Sketch.Contents.{sketch_of}
use hyper_graph_streaming_cc.Sketch.Query.{query}
use hyper_graph_streaming_cc.Sketch.Places.{IsConfig}
use hyper_graph_streaming_cc.Sketch.Parity.{SameParity, batch_update_parity}
use hyper_graph_streaming_cc.Sketch.Samples.{query_empty, query_single}
use hyper_graph_streaming_cc.Sketch.Batch.{batch_update-append}
use hyper_graph_streaming_cc.Sketch.Sizes.{
  IsSized, batch_update-IsSized, seed-batch_update, already_queried-batch_update,
}
use hyper_graph_streaming_cc.Sketch.Answers.{query-state}
use hyper_graph_streaming_cc.Supernode.Defs.{
  Supernode, Edge, seeds_from, make_supernode, batch_update_sketches, sketch_width, sketches_for,
  sample, sample_result, apply_delta_update, delta_supernode,
}
use hyper_graph_streaming_cc.Supernode.Seeds.{
  seeds_of, sketches-make_supernode, IsShaped, apply_delta_update-delta_supernode,
}
use hyper_graph_streaming_cc.Supernode.Sampling.{UnqueriedFrom, IsQueryable, sample_in}
use hyper_graph_streaming_cc.Supernode.Represents.{HoldsFrom, Represents, sketch_of-shape}

module _ (p : Platform) (cfg : Config) where
  fresh-HoldsFrom : (seeds : List ℕ) → HoldsFrom p cfg 0 [] seeds (map (make_sketch cfg) seeds)
  unfolding batch_update
  fresh-HoldsFrom [] = tt
  fresh-HoldsFrom (seed ∷ seeds) = (refl, fresh-HoldsFrom seeds)

  batch-HoldsFrom :
      (i : ℕ) (xs ys seeds : List ℕ) (ss : List Sketch)
      → HoldsFrom p cfg i xs seeds ss
      → HoldsFrom p cfg i (xs ++ ys) seeds (batch_update_sketches p cfg ys ss)
  unfolding batch_update_sketches
  batch-HoldsFrom i xs ys [] [] h = tt
  batch-HoldsFrom i xs ys [] (s ∷ ss) h = absurd h
  batch-HoldsFrom i xs ys (seed ∷ seeds) [] h = absurd h
  batch-HoldsFrom zero xs ys (seed ∷ seeds) (s ∷ ss) h = (
    ap (batch_update p cfg ys) h.0 ∙ sym (batch_update-append p cfg xs ys (make_sketch cfg seed)),
    batch-HoldsFrom zero xs ys seeds ss h.1,
  )
  batch-HoldsFrom (suc i) xs ys (seed ∷ seeds) (s ∷ ss) h = (
    (seed-batch_update p cfg ys s ∙ h.0.0, batch_update-IsSized p cfg ys s h.0.1),
    batch-HoldsFrom i xs ys seeds ss h.1,
  )

  HoldsFrom-IsShaped :
      (i : ℕ) (xs seeds : List ℕ) (ss : List Sketch)
      → HoldsFrom p cfg i xs seeds ss
      → IsShaped cfg seeds ss
  HoldsFrom-IsShaped i xs [] [] h = tt
  HoldsFrom-IsShaped i xs [] (s ∷ ss) h = absurd h
  HoldsFrom-IsShaped i xs (seed ∷ seeds) [] h = absurd h
  HoldsFrom-IsShaped zero xs (seed ∷ seeds) (s ∷ ss) h =
      let shape = sketch_of-shape p cfg seed xs s h.0 in
      (shape.0, shape.1, HoldsFrom-IsShaped zero xs seeds ss h.1)
  HoldsFrom-IsShaped (suc i) xs (seed ∷ seeds) (s ∷ ss) h =
      (h.0.0, h.0.1, HoldsFrom-IsShaped i xs seeds ss h.1)

  parity-HoldsFrom :
      (i : ℕ) (xs ys seeds : List ℕ) (ss : List Sketch)
      → SameParity xs ys
      → HoldsFrom p cfg i xs seeds ss
      → HoldsFrom p cfg i ys seeds ss
  parity-HoldsFrom i xs ys [] [] same h = tt
  parity-HoldsFrom i xs ys [] (s ∷ ss) same h = absurd h
  parity-HoldsFrom i xs ys (seed ∷ seeds) [] same h = absurd h
  parity-HoldsFrom zero xs ys (seed ∷ seeds) (s ∷ ss) same h = (
    h.0 ∙ batch_update_parity p cfg xs ys (make_sketch cfg seed) same,
    parity-HoldsFrom zero xs ys seeds ss same h.1,
  )
  parity-HoldsFrom (suc i) xs ys (seed ∷ seeds) (s ∷ ss) same h =
      (h.0, parity-HoldsFrom i xs ys seeds ss same h.1)

  HoldsFrom-UnqueriedFrom :
      (i : ℕ) (xs seeds : List ℕ) (ss : List Sketch)
      → HoldsFrom p cfg i xs seeds ss
      → UnqueriedFrom i ss × (length ss ≡ length seeds)
  unfolding make_sketch
  HoldsFrom-UnqueriedFrom i xs [] [] h = (tt, refl)
  HoldsFrom-UnqueriedFrom i xs [] (s ∷ ss) h = absurd h
  HoldsFrom-UnqueriedFrom i xs (seed ∷ seeds) [] h = absurd h
  HoldsFrom-UnqueriedFrom zero xs (seed ∷ seeds) (s ∷ ss) h =
      let (rest, e) = HoldsFrom-UnqueriedFrom zero xs seeds ss h.1 in
      (
        (
          ap (λ t. t.already_queried) h.0
              ∙ already_queried-batch_update p cfg xs (make_sketch cfg seed),
          rest,
        ),
        ap suc e,
      )
  HoldsFrom-UnqueriedFrom (suc i) xs (seed ∷ seeds) (s ∷ ss) h =
      let (rest, e) = HoldsFrom-UnqueriedFrom i xs seeds ss h.1 in (rest, ap suc e)

  -- The sketch at the index, and the state once it was replaced.
  HoldsFrom-get :
      (i : ℕ) (xs seeds : List ℕ) (ss : List Sketch) (s : Sketch)
      → HoldsFrom p cfg i xs seeds ss
      → get_elem? ss i ≡ some s
      → (seed : ℕ) × (s ≡ sketch_of p cfg seed xs)
        × ((t : Sketch)
            → t.seed ≡ s.seed
            → IsSized cfg t
            → HoldsFrom p cfg (suc i) xs seeds (set ss i t))
  HoldsFrom-get i xs [] [] s h e = cc
  HoldsFrom-get i xs [] (s' ∷ ss) s h e = absurd h
  HoldsFrom-get i xs (seed ∷ seeds) [] s h e = absurd h
  HoldsFrom-get zero xs (seed ∷ seeds) (s' ∷ ss) s h e =
      let same : s ≡ s' = cc in
      (
        seed,
        same ∙ h.0,
        λ t et sized.
            ((et ∙ ap (λ u. u.seed) same ∙ (sketch_of-shape p cfg seed xs s' h.0).0, sized), h.1),
      )
  HoldsFrom-get (suc i) xs (seed ∷ seeds) (s' ∷ ss) s h e =
      let (seed', holds, rest) = HoldsFrom-get i xs seeds ss s h.1 e in
      (seed', holds, λ t et sized. (h.0, rest t et sized))

length-seeds_from : (width count seed : ℕ) → length (seeds_from width count seed) ≡ count
unfolding seeds_from
length-seeds_from width zero seed = refl
length-seeds_from width (suc count) seed =
    ap suc (length-seeds_from width count (u64 (seed + width)))

module _ (p : Platform) (d : Doubles) (cfg : Config) where
  -- A new supernode represents the empty stream.
  pub make_supernode-Represents : (n seed : ℕ) → Represents p d cfg (make_supernode cfg d n seed) []
  unfolding make_supernode
  make_supernode-Represents n seed = record {
    index = omega arith;
    contents = rw (sketches-make_supernode cfg d n seed) (fresh-HoldsFrom p cfg _);
  }

  pub Represents_parity :
      (s : Supernode) (xs ys : List ℕ)
      → SameParity xs ys
      → Represents p d cfg s xs
      → Represents p d cfg s ys
  Represents_parity s xs ys same h = record {
    index = h.index;
    contents = parity-HoldsFrom p cfg s.idx xs ys _ s.sketches same h.contents;
  }

  pub Represents-IsQueryable :
      (s : Supernode) (xs : List ℕ) → Represents p d cfg s xs → IsQueryable s
  Represents-IsQueryable s xs h =
      let (unqueried, e) = HoldsFrom-UnqueriedFrom p cfg s.idx xs _ s.sketches h.contents in
      record {
        count = e ∙ length-seeds_from (sketch_width d cfg) s.num_sketches s.seed;
        index = h.index;
        unqueried = unqueried;
      }

  -- For a supernode with the number of sketches of its graph that represents a stream, applying
  -- the delta supernode of a batch succeeds, and appends the batch to the stream.
  pub apply_delta_update-Represents :
      (s : Supernode) (xs ys : List ℕ)
      → s.num_sketches ≡ sketches_for d s.n
      → Represents p d cfg s xs
      → (ss : List Sketch) × (apply_delta_update cfg s (delta_supernode p cfg d s.n s.seed ys)
          ≡ some (record s { sketches = ss }))
        × Represents p d cfg (record s { sketches = ss }) (xs ++ ys)
  apply_delta_update-Represents s xs ys e h = (
    batch_update_sketches p cfg ys s.sketches,
    apply_delta_update-delta_supernode p cfg d ys s e
        (HoldsFrom-IsShaped p cfg s.idx xs _ s.sketches h.contents),
    record {
      index = h.index;
      contents = batch-HoldsFrom p cfg s.idx xs ys _ s.sketches h.contents;
    },
  )

  module _ (s : Supernode) (xs : List ℕ) (lt : s.idx < s.num_sketches)
      (h : Represents p d cfg s xs) where
    -- A sample is a query of the sketch of the stream under some seed, and moves to the next sketch.
    sample-query :
        (seed : ℕ) × ((sample p cfg s).1
          ≡ sample_result p cfg (query p cfg (sketch_of p cfg seed xs)).1)
        × Represents p d cfg (sample p cfg s).0 xs
    sample-query =
        let (sketch, found, fresh, step) = sample_in p cfg s (Represents-IsQueryable s xs h) lt in
        let (seed, e, rest) =
          HoldsFrom-get p cfg s.idx xs (seeds_of d cfg s) s.sketches sketch h.contents found in
        let state = query-state p cfg sketch in
        let shape = sketch_of-shape p cfg seed xs sketch e in
        let queried =
          rest (query p cfg sketch).0 (ap (λ t. t.seed) state)
            (rw state (record { size_a = shape.1.size_a; size_c = shape.1.size_c })) in
        let one : suc s.idx ≡ s.idx + 1 = omega arith in
        (
          seed,
          ap (λ t. t.1) step ∙ ap (λ t. sample_result p cfg (query p cfg t).1) e,
          rw step (record { index = omega arith; contents = rw (← one) queried }),
        )

    -- If a supernode has a sketch left and represents a stream, then it represents the same stream
    -- after a sample.
    pub sample-Represents : Represents p d cfg (sample p cfg s).0 xs
    sample-Represents = sample-query.2

    -- If a supernode has a sketch left and represents a stream that leaves nothing modulo 2, in a
    -- configuration as `configure` makes it, then the sample is ZERO.
    pub sample_empty :
        IsConfig cfg → SameParity xs [] → (e : Edge) × ((sample p cfg s).1 ≡ ok (e, zero_ret))
    sample_empty wf same =
        let (seed, result, _) = sample-query in
        (
          inv_nondir_non_self_edge_pairing_fn p 0,
          result ∙ ap (sample_result p cfg) (query_empty p cfg wf seed xs same),
        )

    -- If a supernode has a sketch left and represents a stream that leaves, modulo 2, the one
    -- index `x`, not 0, in a configuration as `configure` makes it, then the sample is the edge
    -- with the code `x`, and GOOD.
    pub sample_single :
        IsConfig cfg
        → (x : ℕ) → SameParity xs (x ∷ [])
        → x ≢ 0
        → (sample p cfg s).1 ≡ ok (inv_nondir_non_self_edge_pairing_fn p x, good)
    sample_single wf x same nonzero =
        let (seed, result, _) = sample-query in
        result ∙ ap (sample_result p cfg) (query_single p cfg wf seed xs x same nonzero)
