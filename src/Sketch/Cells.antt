-- ===== src/Sketch/Cells.antt =====
-- `Sketch::update` writes at a list of buckets that depends on the index and the seed alone.
use hyper_graph_streaming_cc.Prelude.{
  ℕ, zero, suc, ◌+◌, ◌-◌, ◌^◌, ◌≡◌, refl, ap, ◌∙◌, sym, List, [], ◌∷◌, ◌++◌, Bool-cases, inl, inr,
  if◌then◌else◌,
}
use hyper_graph_streaming_cc.Arrays.{xor_cells}
use hyper_graph_streaming_cc.Arrays.Cells.{xor_cells-append}
use hyper_graph_streaming_cc.Platform.{Platform}
use hyper_graph_streaming_cc.Bucket.{col_index_hash, index_hash, contains}
use hyper_graph_streaming_cc.Bucket
use hyper_graph_streaming_cc.Sketch.Defs.{
  Config, Sketch, bucket_id, update_bucket, update_guesses, update_buckets, update,
}

-- The writes of `x` and `h` at the buckets `ids`.
unfoldable pub write_cells : List ℕ → ℕ → ℕ → Sketch → Sketch
write_cells ids x h s = record s {
  bucket_a = xor_cells ids x s.bucket_a;
  bucket_c = xor_cells ids h s.bucket_c;
}

write_cells-append :
    (is js : List ℕ) (x h : ℕ) (s : Sketch)
    → write_cells (is ++ js) x h s ≡ write_cells js x h (write_cells is x h s)
unfolding write_cells
write_cells-append is js x h s = λ i. record s {
  bucket_a = xor_cells-append is js x s.bucket_a i;
  bucket_c = xor_cells-append is js h s.bucket_c i;
}

module _ (cfg : Config) where
  -- The buckets of column `i` from guess `j` on that take an index with this hash.
  unfoldable pub guess_cells : ℕ → ℕ → ℕ → ℕ → List ℕ
  guess_cells zero j i col_hash = []
  guess_cells (suc left) j i col_hash =
      let rest = bucket_id cfg i j ∷ guess_cells left (j + 1) i col_hash in
      if contains col_hash (2 ^ j) then rest else []

  update_guesses_lem :
      (left j i col_hash x h : ℕ) (s : Sketch)
      → update_guesses cfg left j i col_hash x h s
        ≡ write_cells (guess_cells left j i col_hash) x h s
  unfolding update_guesses guess_cells write_cells xor_cells Bucket.update
  update_guesses_lem zero j i col_hash x h s = refl
  update_guesses_lem (suc left) j i col_hash x h s = elim (Bool-cases (contains col_hash (2 ^ j))) [
    | inl e ↦
        rw (e)
          (update_guesses_lem left (j + 1) i col_hash x h (update_bucket (bucket_id cfg i j) x h s))
    | inr e ↦ rw (e)
  ]

module _ (p : Platform) (cfg : Config) where
  unfoldable pub column_cells : ℕ → ℕ → ℕ → ℕ → List ℕ
  column_cells zero i seed x = []
  column_cells (suc left) i seed x =
      guess_cells cfg cfg.num_guesses 0 i (col_index_hash p x (seed + i))
      ++ column_cells left (i + 1) seed x

  -- All the buckets that `update` writes, the one that holds every index first.
  unfoldable pub update_cells : ℕ → ℕ → List ℕ
  update_cells seed x = (cfg.num_elems - 1) ∷ column_cells cfg.num_buckets 0 seed x

  update_buckets_lem :
      (left i x h : ℕ) (s : Sketch)
      → update_buckets p cfg left i x h s ≡ write_cells (column_cells left i s.seed x) x h s
  unfolding update_buckets column_cells write_cells xor_cells
  update_buckets_lem zero i x h s = refl
  update_buckets_lem (suc left) i x h s =
      let ids = guess_cells cfg cfg.num_guesses 0 i (col_index_hash p x (s.seed + i)) in
      ap (update_buckets p cfg left (i + 1) x h)
        (update_guesses_lem cfg cfg.num_guesses 0 i (col_index_hash p x (s.seed + i)) x h s)
      ∙ update_buckets_lem left (i + 1) x h (write_cells ids x h s)
      ∙ sym (write_cells-append ids (column_cells left (i + 1) s.seed x) x h s)

  pub update_lem :
      (x : ℕ) (s : Sketch)
      → update p cfg x s ≡ write_cells (update_cells s.seed x) x (index_hash p x s.seed) s
  unfolding update update_cells write_cells xor_cells update_bucket Bucket.update
  update_lem x s =
      update_buckets_lem cfg.num_buckets 0 x (index_hash p x s.seed)
        (update_bucket (cfg.num_elems - 1) x (index_hash p x s.seed) s)
