-- ===== src/Supernode/Seeds.antt =====
-- The seeds of a supernode's sketches, and deltas: applying the delta of a batch is updating in
-- place.
use hyper_graph_streaming_cc.Prelude.{
  ℕ, zero, suc, ◌+◌, ◌≡◌, refl, ap, ◌∙◌, List, [], ◌∷◌, map, some,
}
use hyper_graph_streaming_cc.Platform.{Platform, Doubles}
use hyper_graph_streaming_cc.Util.{u64}
use hyper_graph_streaming_cc.Sketch.Defs.{Config, Sketch, make_sketch, add_assign, batch_update}
use hyper_graph_streaming_cc.Sketch.Batch.{add_assign-batch_update}
use hyper_graph_streaming_cc.Sketch.Sizes.{
  IsSized, make_sketch-IsSized, batch_update-IsSized, seed-batch_update,
}
use hyper_graph_streaming_cc.Supernode.Defs.{
  Supernode, seeds_from, make_sketches, make_supernode, sketches_for, sketch_width, add_sketches,
  apply_delta_update, batch_update_sketches, delta_supernode,
}

-- Each sketch has its seed, and arrays of the configured size.
abbrev pub IsShaped : Config → List ℕ → List Sketch → Type 0
IsShaped cfg [] [] = Unit {0}
IsShaped cfg [] (s ∷ ss) = ⊥
IsShaped cfg (seed ∷ seeds) [] = ⊥
IsShaped cfg (seed ∷ seeds) (s ∷ ss) = (s.seed ≡ seed) × IsSized cfg s × IsShaped cfg seeds ss

-- The seeds that the constructor gives to the sketches.
abbrev pub seeds_of : Doubles → Config → Supernode → List ℕ
seeds_of d cfg s = seeds_from (sketch_width d cfg) s.num_sketches s.seed

module _ (cfg : Config) where
  make_sketches_lem :
      (width count seed : ℕ)
      → make_sketches cfg width count seed ≡ map (make_sketch cfg) (seeds_from width count seed)
  unfolding make_sketches seeds_from
  make_sketches_lem width zero seed = refl
  make_sketches_lem width (suc count) seed =
      ap (λ ss. make_sketch cfg seed ∷ ss) (make_sketches_lem width count (u64 (seed + width)))

  pub fresh-IsShaped : (seeds : List ℕ) → IsShaped cfg seeds (map (make_sketch cfg) seeds)
  unfolding make_sketch
  fresh-IsShaped [] = tt
  fresh-IsShaped (seed ∷ seeds) = (refl, make_sketch-IsSized cfg seed, fresh-IsShaped seeds)

  -- A new supernode has empty sketches, with its seeds.
  pub sketches-make_supernode :
      (d : Doubles) (n seed : ℕ)
      → (make_supernode cfg d n seed).sketches
        ≡ map (make_sketch cfg) (seeds_from (sketch_width d cfg) (sketches_for d n) seed)
  unfolding make_supernode
  sketches-make_supernode d n seed = make_sketches_lem (sketch_width d cfg) (sketches_for d n) seed

  pub add_sketches-cons :
      (s t u : Sketch) (ss ts us : List Sketch)
      → add_assign cfg s t ≡ some u
      → add_sketches cfg ss ts ≡ some us
      → add_sketches cfg (s ∷ ss) (t ∷ ts) ≡ some (u ∷ us)
  unfolding add_sketches
  add_sketches-cons s t u ss ts us e f = rw (e, add_sketches) (rw f)

module _ (p : Platform) (cfg : Config) where
  pub batch_update_sketches-IsShaped :
      (xs seeds : List ℕ) (ss : List Sketch)
      → IsShaped cfg seeds ss
      → IsShaped cfg seeds (batch_update_sketches p cfg xs ss)
  unfolding batch_update_sketches
  batch_update_sketches-IsShaped xs [] [] h = tt
  batch_update_sketches-IsShaped xs [] (s ∷ ss) h = absurd h
  batch_update_sketches-IsShaped xs (seed ∷ seeds) [] h = absurd h
  batch_update_sketches-IsShaped xs (seed ∷ seeds) (s ∷ ss) h = (
    seed-batch_update p cfg xs s ∙ h.0,
    batch_update-IsSized p cfg xs s h.1,
    batch_update_sketches-IsShaped xs seeds ss h.2,
  )

  add_sketches-delta :
      (xs seeds : List ℕ) (ss : List Sketch)
      → IsShaped cfg seeds ss
      → add_sketches cfg ss (batch_update_sketches p cfg xs (map (make_sketch cfg) seeds))
        ≡ some (batch_update_sketches p cfg xs ss)
  unfolding add_sketches batch_update_sketches
  add_sketches-delta xs [] [] h = refl
  add_sketches-delta xs [] (s ∷ ss) h = absurd h
  add_sketches-delta xs (seed ∷ seeds) [] h = absurd h
  add_sketches-delta xs (seed ∷ seeds) (s ∷ ss) h = rw (← h.0) (
      add_sketches-cons cfg s (batch_update p cfg xs (make_sketch cfg s.seed)) _ ss _ _
        (add_assign-batch_update p cfg xs s h.1) (add_sketches-delta xs seeds ss h.2))

  -- On a supernode with its own seeds, applying the delta supernode of a batch applies the batch to
  -- each of its sketches, and no assertion fails.
  pub apply_delta_update-delta_supernode :
      (d : Doubles) (xs : List ℕ) (s : Supernode)
      → s.num_sketches ≡ sketches_for d s.n
      → IsShaped cfg (seeds_of d cfg s) s.sketches
      → apply_delta_update cfg s (delta_supernode p cfg d s.n s.seed xs)
        ≡ some (record s { sketches = batch_update_sketches p cfg xs s.sketches })
  unfolding apply_delta_update delta_supernode
  apply_delta_update-delta_supernode d xs s e h =
      rw (sketches-make_supernode cfg d s.n s.seed, ← e)
        (rw (add_sketches-delta xs (seeds_of d cfg s) s.sketches h))
