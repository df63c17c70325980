-- ===== src/Sketch/Sizes.antt =====
-- The shape of a sketch: every operation keeps the seed and the lengths of the two arrays.
use hyper_graph_streaming_cc.Prelude.{ℕ, ◌≡◌, refl, ◌∙◌, List, [], ◌∷◌, length, length-replicate}
use hyper_graph_streaming_cc.Arrays.Cells.{length-xor_cells}
use hyper_graph_streaming_cc.Platform.{Platform}
use hyper_graph_streaming_cc.Bucket.{index_hash}
use hyper_graph_streaming_cc.Sketch.Defs.{Config, Sketch, make_sketch, update, batch_update}
use hyper_graph_streaming_cc.Sketch.Cells.{write_cells, update_lem}

-- The sketch has the configured number of entries in both arrays.
pub record IsSized (cfg : Config) (s : Sketch) : Type 0 where
  pub size_a : length s.bucket_a ≡ cfg.num_elems
  pub size_c : length s.bucket_c ≡ cfg.num_elems

pub make_sketch-IsSized : (cfg : Config) (seed : ℕ) → IsSized cfg (make_sketch cfg seed)
unfolding make_sketch
make_sketch-IsSized cfg seed = record {
  size_a = length-replicate cfg.num_elems 0;
  size_c = length-replicate cfg.num_elems 0;
}

pub write_cells-IsSized :
    (cfg : Config) (ids : List ℕ) (x h : ℕ) (s : Sketch)
    → IsSized cfg s
    → IsSized cfg (write_cells ids x h s)
unfolding write_cells
write_cells-IsSized cfg ids x h s sized = record {
  size_a = length-xor_cells ids x s.bucket_a ∙ sized.size_a;
  size_c = length-xor_cells ids h s.bucket_c ∙ sized.size_c;
}

module _ (p : Platform) (cfg : Config) where
  pub update-IsSized : (x : ℕ) (s : Sketch) → IsSized cfg s → IsSized cfg (update p cfg x s)
  update-IsSized x s sized =
      rw (update_lem p cfg x s) (write_cells-IsSized cfg _ x (index_hash p x s.seed) s sized)

  pub seed-update : (x : ℕ) (s : Sketch) → (update p cfg x s).seed ≡ s.seed
  unfolding write_cells
  seed-update x s = rw (update_lem p cfg x s)

  pub already_queried-update :
      (x : ℕ) (s : Sketch) → (update p cfg x s).already_queried ≡ s.already_queried
  unfolding write_cells
  already_queried-update x s = rw (update_lem p cfg x s)

  pub batch_update-IsSized :
      (xs : List ℕ) (s : Sketch) → IsSized cfg s → IsSized cfg (batch_update p cfg xs s)
  unfolding batch_update
  batch_update-IsSized [] s sized = sized
  batch_update-IsSized (x ∷ xs) s sized =
      batch_update-IsSized xs (update p cfg x s) (update-IsSized x s sized)

  pub seed-batch_update : (xs : List ℕ) (s : Sketch) → (batch_update p cfg xs s).seed ≡ s.seed
  unfolding batch_update
  seed-batch_update [] s = refl
  seed-batch_update (x ∷ xs) s = seed-batch_update xs (update p cfg x s) ∙ seed-update x s

  pub already_queried-batch_update :
      (xs : List ℕ) (s : Sketch) → (batch_update p cfg xs s).already_queried ≡ s.already_queried
  unfolding batch_update
  already_queried-batch_update [] s = refl
  already_queried-batch_update (x ∷ xs) s =
      already_queried-batch_update xs (update p cfg x s) ∙ already_queried-update x s
