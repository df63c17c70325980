-- ===== src/Sketch/Batch.antt =====
-- Batches of updates: their order does not matter, pairs cancel, and the sketch of a batch is
-- linear. `Parity` puts the first two together. An INSERT and a DELETE of an edge are the same update, so pairs are what a stream cancels.
use hyper_graph_streaming_cc.Prelude.{ℕ, ◌≡◌, refl, ap, ◌∙◌, sym, List, [], ◌∷◌, ◌++◌, Option}
use hyper_graph_streaming_cc.Arrays.Cells.{xor_cells_comm, xor_cells_cancel}
use hyper_graph_streaming_cc.Platform.{Platform}
use hyper_graph_streaming_cc.Bucket.{index_hash}
use hyper_graph_streaming_cc.Sketch.Defs.{
  Config, Sketch, make_sketch, add_assign, update, batch_update,
}
use hyper_graph_streaming_cc.Sketch.Cells.{write_cells, update_cells, update_lem}
use hyper_graph_streaming_cc.Sketch.Sizes.{
  IsSized, update-IsSized, make_sketch-IsSized, seed-update, seed-batch_update,
}
use hyper_graph_streaming_cc.Sketch.Sum.{sum, sum-update, sum-make_sketch, add_assign-eq-sum}

module _ (p : Platform) (cfg : Config) where
  -- Two updates of a sketch may change places.
  pub update_comm :
      (x y : ℕ) (s : Sketch) → update p cfg x (update p cfg y s) ≡ update p cfg y (update p cfg x s)
  unfolding write_cells
  update_comm x y s =
      rw (update_lem p cfg y s, update_lem p cfg x s)
        (rw
          (
            update_lem p cfg x
                (write_cells (update_cells p cfg s.seed y) y (index_hash p y s.seed) s),
            update_lem p cfg y
                (write_cells (update_cells p cfg s.seed x) x (index_hash p x s.seed) s),
          )
          (λ i. record s {
            bucket_a =
                xor_cells_comm (update_cells p cfg s.seed x) (update_cells p cfg s.seed y) x y
                  s.bucket_a i;
            bucket_c =
                xor_cells_comm (update_cells p cfg s.seed x) (update_cells p cfg s.seed y)
                  (index_hash p x s.seed) (index_hash p y s.seed) s.bucket_c i;
          }))

  -- Updating a sketch twice with the same index leaves it as it was.
  pub update_cancel : (x : ℕ) (s : Sketch) → update p cfg x (update p cfg x s) ≡ s
  unfolding write_cells
  update_cancel x s = rw (update_lem p cfg x s) (
      rw
        (update_lem p cfg x (write_cells (update_cells p cfg s.seed x) x (index_hash p x s.seed) s))
        (λ i. record s {
          bucket_a = xor_cells_cancel (update_cells p cfg s.seed x) x s.bucket_a i;
          bucket_c =
              xor_cells_cancel (update_cells p cfg s.seed x) (index_hash p x s.seed) s.bucket_c i;
        }))

  pub batch_update-append :
      (xs ys : List ℕ) (s : Sketch)
      → batch_update p cfg (xs ++ ys) s ≡ batch_update p cfg ys (batch_update p cfg xs s)
  unfolding batch_update
  batch_update-append [] ys s = refl
  batch_update-append (x ∷ xs) ys s = batch_update-append xs ys (update p cfg x s)

  pub batch_update-update :
      (xs : List ℕ) (x : ℕ) (s : Sketch)
      → batch_update p cfg xs (update p cfg x s) ≡ update p cfg x (batch_update p cfg xs s)
  unfolding batch_update
  batch_update-update [] x s = refl
  batch_update-update (y ∷ ys) x s =
      ap (batch_update p cfg ys) (update_comm y x s) ∙ batch_update-update ys x (update p cfg y s)

  -- `operator+=` with the sketch of a batch, made from an empty sketch of the same seed, is the
  -- batch applied in place.
  pub sum-batch_update :
      (xs : List ℕ) (s t : Sketch)
      → IsSized cfg s
      → IsSized cfg t
      → s.seed ≡ t.seed
      → sum s (batch_update p cfg xs t) ≡ batch_update p cfg xs (sum s t)
  unfolding batch_update
  sum-batch_update [] s t s_sized t_sized e = refl
  sum-batch_update (x ∷ xs) s t s_sized t_sized e =
      sum-batch_update xs s (update p cfg x t) s_sized (update-IsSized p cfg x t t_sized)
        (e ∙ sym (seed-update p cfg x t))
      ∙ ap (batch_update p cfg xs) (sum-update cfg s t s_sized t_sized p x e)

  -- For a sketch with arrays of the configured size, `operator+=` with the sketch of a batch, made
  -- from an empty sketch of the same seed, succeeds and is the batch applied in place.
  pub add_assign-batch_update :
      (xs : List ℕ) (s : Sketch)
      → IsSized cfg s
      → add_assign cfg s (batch_update p cfg xs (make_sketch cfg s.seed))
        ≡ Option.some (batch_update p cfg xs s)
  unfolding make_sketch
  add_assign-batch_update xs s sized =
      add_assign-eq-sum cfg s (batch_update p cfg xs (make_sketch cfg s.seed)) sized
        (sym (seed-batch_update p cfg xs (make_sketch cfg s.seed)))
      ∙ ap Option.some (
          sum-batch_update xs s (make_sketch cfg s.seed) sized (make_sketch-IsSized cfg s.seed) refl
          ∙ ap (batch_update p cfg xs) (sum-make_sketch cfg s s.seed))
