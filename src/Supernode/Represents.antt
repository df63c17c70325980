-- ===== src/Supernode/Represents.antt =====
-- The meaning of a supernode: from its index on, every sketch is the sketch of one stream. Merging
-- joins the streams.
use mathlib.Core.Option
use hyper_graph_streaming_cc.Prelude.{
  ℕ, zero, suc, ◌≤◌, max, ◌≡◌, refl, ap, ap₂, ◌∙◌, sym, List, [], ◌∷◌, ◌++◌, Option, some, arith,
}
use hyper_graph_streaming_cc.Platform.{Platform, Doubles}
use hyper_graph_streaming_cc.Sketch.Defs.{Config, Sketch, make_sketch, add_assign, batch_update}
use hyper_graph_streaming_cc.Sketch.Contents.{sketch_of}
use hyper_graph_streaming_cc.Sketch.Sum.{add_assign-eq-sum, sum-make_sketch}
use hyper_graph_streaming_cc.Sketch.Batch.{sum-batch_update, batch_update-append}
use hyper_graph_streaming_cc.Sketch.Sizes.{
  IsSized, make_sketch-IsSized, batch_update-IsSized, seed-batch_update,
}
use hyper_graph_streaming_cc.Supernode.Defs.{
  Supernode, seeds_from, merge, merge_sketches, sketch_width,
}
use hyper_graph_streaming_cc.Supernode.Seeds.{seeds_of, add_sketches-cons}

-- The sketches from index `i` on are those of the stream `xs`; the ones before it keep their shape.
abbrev pub HoldsFrom : Platform → Config → ℕ → List ℕ → List ℕ → List Sketch → Type 0
HoldsFrom p cfg i xs [] [] = Unit {0}
HoldsFrom p cfg i xs [] (s ∷ ss) = ⊥
HoldsFrom p cfg i xs (seed ∷ seeds) [] = ⊥
HoldsFrom p cfg zero xs (seed ∷ seeds) (s ∷ ss) =
    (s ≡ sketch_of p cfg seed xs) × HoldsFrom p cfg zero xs seeds ss
HoldsFrom p cfg (suc i) xs (seed ∷ seeds) (s ∷ ss) =
    ((s.seed ≡ seed) × IsSized cfg s) × HoldsFrom p cfg i xs seeds ss

module _ (p : Platform) (cfg : Config) where
  pub sketch_of-shape :
      (seed : ℕ) (xs : List ℕ) (s : Sketch)
      → s ≡ sketch_of p cfg seed xs
      → (s.seed ≡ seed) × IsSized cfg s
  unfolding make_sketch
  sketch_of-shape seed xs s e = rw e (
    seed-batch_update p cfg xs (make_sketch cfg seed),
    batch_update-IsSized p cfg xs (make_sketch cfg seed) (make_sketch-IsSized cfg seed),
  )

  pub HoldsFrom-mono :
      (i j : ℕ) (xs seeds : List ℕ) (ss : List Sketch)
      → i ≤ j
      → HoldsFrom p cfg i xs seeds ss
      → HoldsFrom p cfg j xs seeds ss
  HoldsFrom-mono i j xs [] [] h hold = tt
  HoldsFrom-mono i j xs [] (s ∷ ss) h hold = absurd hold
  HoldsFrom-mono i j xs (seed ∷ seeds) [] h hold = absurd hold
  HoldsFrom-mono zero zero xs (seed ∷ seeds) (s ∷ ss) h hold = hold
  HoldsFrom-mono zero (suc j) xs (seed ∷ seeds) (s ∷ ss) h hold =
      (sketch_of-shape seed xs s hold.0, HoldsFrom-mono zero j xs seeds ss (omega arith) hold.1)
  HoldsFrom-mono (suc i) zero xs (seed ∷ seeds) (s ∷ ss) h hold = absurd (omega arith)
  HoldsFrom-mono (suc i) (suc j) xs (seed ∷ seeds) (s ∷ ss) h hold =
      (hold.0, HoldsFrom-mono i j xs seeds ss (omega arith) hold.1)

  -- The sum of the sketches of two streams is the sketch of the joined stream.
  add_assign-sketch_of :
      (seed : ℕ) (xs ys : List ℕ)
      → add_assign cfg (sketch_of p cfg seed xs) (sketch_of p cfg seed ys)
        ≡ some (sketch_of p cfg seed (xs ++ ys))
  add_assign-sketch_of seed xs ys =
      let fresh = make_sketch-IsSized cfg seed in
      let left = batch_update-IsSized p cfg xs (make_sketch cfg seed) fresh in
      let seeds = seed-batch_update p cfg xs (make_sketch cfg seed) in
      add_assign-eq-sum cfg (sketch_of p cfg seed xs) (sketch_of p cfg seed ys) left
        (seeds ∙ sym (seed-batch_update p cfg ys (make_sketch cfg seed)))
      ∙ ap some (
          sum-batch_update p cfg ys (sketch_of p cfg seed xs) (make_sketch cfg seed) left fresh
            seeds
          ∙ ap (batch_update p cfg ys) (sum-make_sketch cfg (sketch_of p cfg seed xs) seed)
          ∙ sym (batch_update-append p cfg xs ys (make_sketch cfg seed)))

  -- The result of a merge of sketches, if no assertion fails.
  abbrev Merged : ℕ → List ℕ → List ℕ → Option (List Sketch) → Type 0
  Merged i xs seeds r = (us : List Sketch) × (r ≡ some us) × HoldsFrom p cfg i xs seeds us

  merge_sketches-HoldsFrom :
      (i : ℕ) (xs ys seeds : List ℕ) (ss ts : List Sketch)
      → HoldsFrom p cfg i xs seeds ss
      → HoldsFrom p cfg i ys seeds ts
      → Merged i (xs ++ ys) seeds (merge_sketches cfg i ss ts)
  unfolding merge_sketches
  merge_sketches-HoldsFrom zero xs ys [] [] [] h k = ([], refl, tt)
  merge_sketches-HoldsFrom (suc i) xs ys [] [] [] h k = ([], refl, tt)
  merge_sketches-HoldsFrom i xs ys [] [] (t ∷ ts) h k = absurd k
  merge_sketches-HoldsFrom i xs ys [] (s ∷ ss) ts h k = absurd h
  merge_sketches-HoldsFrom i xs ys (seed ∷ seeds) [] ts h k = absurd h
  merge_sketches-HoldsFrom i xs ys (seed ∷ seeds) (s ∷ ss) [] h k = absurd k
  merge_sketches-HoldsFrom zero xs ys (seed ∷ seeds) (s ∷ ss) (t ∷ ts) h k =
      let (us, e, hold) = merge_sketches-HoldsFrom zero xs ys seeds ss ts h.1 k.1 in
      let joined = sketch_of p cfg seed (xs ++ ys) in
      (
        joined ∷ us,
        add_sketches-cons cfg s t joined ss ts us
            (ap₂ (add_assign cfg) h.0 k.0 ∙ add_assign-sketch_of seed xs ys) e,
        (refl, hold),
      )
  merge_sketches-HoldsFrom (suc i) xs ys (seed ∷ seeds) (s ∷ ss) (t ∷ ts) h k =
      let (us, e, hold) = merge_sketches-HoldsFrom i xs ys seeds ss ts h.1 k.1 in
      (s ∷ us, ap (Option.map (λ vs. s ∷ vs)) e, (h.0, hold))

-- A supernode with its own seeds that represents the stream `xs`.
pub record Represents (p : Platform) (d : Doubles) (cfg : Config) (s : Supernode) (xs : List ℕ)
    : Type 0 where
  pub index : s.idx ≤ s.num_sketches
  pub contents : HoldsFrom p cfg s.idx xs (seeds_of d cfg s) s.sketches

module _ (p : Platform) (d : Doubles) (cfg : Config) where
  -- Merging two supernodes with the same seed and number of sketches, which represent two streams,
  -- succeeds, and the result represents both streams, one after the other. Nothing but the index
  -- and the sketches changes.
  pub merge-Represents :
      (s t : Supernode) (xs ys : List ℕ)
      → s.num_sketches ≡ t.num_sketches
      → s.seed ≡ t.seed
      → Represents p d cfg s xs
      → Represents p d cfg t ys
      → (ss : List Sketch) × (merge cfg s t
          ≡ some (record s { idx = max s.idx t.idx; sketches = ss }))
        × Represents p d cfg (record s { idx = max s.idx t.idx; sketches = ss }) (xs ++ ys)
  unfolding merge
  merge-Represents s t xs ys same_count same_seed hs ht =
      let m = max s.idx t.idx in
      let same_seeds : seeds_of d cfg t ≡ seeds_of d cfg s =
        ap₂ (seeds_from (sketch_width d cfg)) (sym same_count) (sym same_seed) in
      let (us, e, hold) =
        merge_sketches-HoldsFrom p cfg m xs ys (seeds_of d cfg s) s.sketches t.sketches
          (HoldsFrom-mono p cfg s.idx m xs _ s.sketches (omega arith) hs.contents)
          (rw (← same_seeds)
            (HoldsFrom-mono p cfg t.idx m ys _ t.sketches (omega arith) ht.contents)) in
      (us, rw e, record { index = omega (arith, hs.index, ht.index); contents = hold })
