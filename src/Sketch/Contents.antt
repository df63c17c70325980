-- ===== src/Sketch/Contents.antt =====
-- What every bucket of a sketch holds after a batch of updates.
use hyper_graph_streaming_cc.Prelude.{
  ℕ, ◌-◌, ◌<◌, bit_xor, ◌≡◌, refl, ap, ◌∙◌, sym, List, [], ◌∷◌, arith, Bool, true, false,
  Bool-cases, inl, inr, if◌then◌else◌, get_or, get_or-replicate,
}
use hyper_graph_streaming_cc.Bits.{bit_xor-zero, zero-bit_xor, xor_assoc}
use hyper_graph_streaming_cc.Arrays.Cells.{count, get_or-xor_cells, times}
use hyper_graph_streaming_cc.Platform.{Platform}
use hyper_graph_streaming_cc.Bucket.{index_hash}
use hyper_graph_streaming_cc.Sketch.Defs.{
  Config, Sketch, make_sketch, bucket_id, update, batch_update,
}
use hyper_graph_streaming_cc.Sketch.Cells.{update_cells, update_lem, write_cells}
use hyper_graph_streaming_cc.Sketch.Sizes.{
  IsSized, update-IsSized, make_sketch-IsSized, seed-update, seed-batch_update,
}
use hyper_graph_streaming_cc.Sketch.Places.{
  IsConfig, belongs, bucket_id_lem, update_cells_count, update_cells_count_last,
}

-- The exclusive or of the values of a list.
unfoldable pub xor_all : (ℕ → ℕ) → List ℕ → ℕ
xor_all f [] = 0
xor_all f (x ∷ xs) = bit_xor (f x) (xor_all f xs)

-- The updates that a bucket takes.
unfoldable pub select : (ℕ → Bool) → List ℕ → List ℕ
select keep [] = []
select keep (x ∷ xs) = let rest = select keep xs in if keep x then x ∷ rest else rest

-- One write or none, by a test.
times_test :
    (b : Bool) (m e v : ℕ)
    → m ≡ (if b then 1 else 0)
    → bit_xor e (times m v) ≡ bit_xor e (if b then v else 0)
unfolding times
times_test true m e v h = rw (h, bit_xor-zero v)
times_test false m e v h = rw h

module _ (p : Platform) (cfg : Config) (k : ℕ) (keep : ℕ → Bool) (seed : ℕ)
    (fits : k < cfg.num_elems)
    (once : (x : ℕ) → count k (update_cells p cfg seed x) ≡ (if keep x then 1 else 0)) where
  update_entry :
      (x : ℕ) (s : Sketch)
      → IsSized cfg s
      → s.seed ≡ seed
      → (get_or (update p cfg x s).bucket_a k 0
          ≡ bit_xor (get_or s.bucket_a k 0) (if keep x then x else 0))
        × (get_or (update p cfg x s).bucket_c k 0
            ≡ bit_xor (get_or s.bucket_c k 0) (if keep x then index_hash p x seed else 0))
  unfolding write_cells
  update_entry x s sized e =
      let n = ap (λ t. count k (update_cells p cfg t x)) e ∙ once x in
      (
        ap (λ t. get_or t.bucket_a k 0) (update_lem p cfg x s)
            ∙ get_or-xor_cells (update_cells p cfg s.seed x) x s.bucket_a k
                (omega (arith, sized.size_a, fits))
            ∙ times_test (keep x) (count k (update_cells p cfg s.seed x)) (get_or s.bucket_a k 0) x
                n,
        ap (λ t. get_or t.bucket_c k 0) (update_lem p cfg x s)
            ∙ get_or-xor_cells (update_cells p cfg s.seed x) (index_hash p x s.seed) s.bucket_c k
                (omega (arith, sized.size_c, fits))
            ∙ times_test (keep x) (count k (update_cells p cfg s.seed x)) (get_or s.bucket_c k 0)
                (index_hash p x s.seed) n
            ∙ ap (λ t. bit_xor (get_or s.bucket_c k 0) (if keep x then index_hash p x t else 0)) e,
      )

  xor_all-select :
      (f : ℕ → ℕ) (x : ℕ) (xs : List ℕ)
      → xor_all f (select keep (x ∷ xs))
        ≡ bit_xor (if keep x then f x else 0) (xor_all f (select keep xs))
  unfolding xor_all select
  xor_all-select f x xs = elim (Bool-cases (keep x)) [
    | inl e ↦ rw e
    | inr e ↦ rw e (sym (zero-bit_xor (xor_all f (select keep xs))))
  ]

  pub batch_entry :
      (xs : List ℕ) (s : Sketch)
      → IsSized cfg s
      → s.seed ≡ seed
      → (get_or (batch_update p cfg xs s).bucket_a k 0
          ≡ bit_xor (get_or s.bucket_a k 0) (xor_all (λ x. x) (select keep xs)))
        × (get_or (batch_update p cfg xs s).bucket_c k 0
            ≡ bit_xor (get_or s.bucket_c k 0) (xor_all (λ x. index_hash p x seed) (select keep xs)))
  unfolding batch_update
  batch_entry [] s sized e =
      unfold xor_all select in
      (sym (bit_xor-zero (get_or s.bucket_a k 0)), sym (bit_xor-zero (get_or s.bucket_c k 0)))
  batch_entry (x ∷ xs) s sized e =
      let (a, c) = update_entry x s sized e in
      let (later_a, later_c) =
        batch_entry xs (update p cfg x s) (update-IsSized p cfg x s sized)
          (seed-update p cfg x s ∙ e) in
      (
        later_a
            ∙ ap (λ t. bit_xor t (xor_all (λ x. x) (select keep xs))) a
            ∙ xor_assoc (get_or s.bucket_a k 0) (if keep x then x else 0) _
            ∙ ap (bit_xor (get_or s.bucket_a k 0)) (sym (xor_all-select (λ x. x) x xs)),
        later_c
            ∙ ap (λ t. bit_xor t (xor_all (λ x. index_hash p x seed) (select keep xs))) c
            ∙ xor_assoc (get_or s.bucket_c k 0) (if keep x then index_hash p x seed else 0) _
            ∙ ap (bit_xor (get_or s.bucket_c k 0))
                (sym (xor_all-select (λ x. index_hash p x seed) x xs)),
      )

-- The entry `k` of a sketch holds exactly the indices `xs`, with their checksums.
pub record Holds (p : Platform) (s : Sketch) (k : ℕ) (xs : List ℕ) : Type 0 where
  pub value : get_or s.bucket_a k 0 ≡ xor_all (λ x. x) xs
  pub checksum : get_or s.bucket_c k 0 ≡ xor_all (λ x. index_hash p x s.seed) xs

-- The sketch of a stream.
abbrev pub sketch_of : Platform → Config → ℕ → List ℕ → Sketch
sketch_of p cfg seed xs = batch_update p cfg xs (make_sketch cfg seed)

module _ (p : Platform) (cfg : Config) (wf : IsConfig cfg) (seed : ℕ) where
  fresh_entry :
      (k : ℕ) (keep : ℕ → Bool) (xs : List ℕ)
      → k < cfg.num_elems
      → ((x : ℕ) → count k (update_cells p cfg seed x) ≡ (if keep x then 1 else 0))
      → Holds p (sketch_of p cfg seed xs) k (select keep xs)
  unfolding make_sketch
  fresh_entry k keep xs fits once =
      let (a, c) =
        batch_entry p cfg k keep seed fits once xs (make_sketch cfg seed)
          (make_sketch-IsSized cfg seed) refl in
      let none_yet = get_or-replicate {A = ℕ} cfg.num_elems k 0 in
      record {
        value = a ∙ rw none_yet (zero-bit_xor _);
        checksum =
            c
            ∙ rw none_yet (zero-bit_xor _)
            ∙ ap (λ t. xor_all (λ x. index_hash p x t) (select keep xs))
                (sym (seed-batch_update p cfg xs (make_sketch cfg seed)));
      }

  -- In a configuration as `configure` makes it, bucket `j` of column `i` in the sketch of a stream
  -- holds the exclusive or of exactly those updates whose column hash has its lowest `j + 1` bits
  -- 0, and of their checksums.
  pub sketch_of-Holds :
      (xs : List ℕ) (i j : ℕ)
      → i < cfg.num_buckets
      → j < cfg.num_guesses
      → Holds p (sketch_of p cfg seed xs) (bucket_id cfg i j) (select (belongs p seed i j) xs)
  sketch_of-Holds xs i j hi hj =
      fresh_entry (bucket_id cfg i j) (belongs p seed i j) xs
        (omega (arith, bucket_id_lem cfg wf i j hi hj, wf.elems))
        (λ x. update_cells_count cfg wf p seed x i j hi hj)

  select-true : (xs : List ℕ) → select (λ _. true) xs ≡ xs
  unfolding select
  select-true [] = refl
  select-true (x ∷ xs) = ap (λ t. x ∷ t) (select-true xs)

  -- In a configuration as `configure` makes it, the last entry in the sketch of a stream holds the
  -- exclusive or of all updates, and of their checksums.
  pub sketch_of-Holds_last :
      (xs : List ℕ) → Holds p (sketch_of p cfg seed xs) (cfg.num_elems - 1) xs
  sketch_of-Holds_last xs =
      let h =
        fresh_entry (cfg.num_elems - 1) (λ _. true) xs (omega (arith, wf.elems))
          (update_cells_count_last cfg wf p seed) in
      rw (select-true xs) at h
