-- ===== src/Sketch/Sum.antt =====
-- `operator+=` adds the two arrays entry by entry.
use hyper_graph_streaming_cc.Prelude.{
  ℕ, zero, suc, ◌+◌, ◌≡◌, refl, ◌∙◌, sym, Bool, true, false, ◌||◌, some, ==_iff,
}
use hyper_graph_streaming_cc.Arrays.{xor_range}
use hyper_graph_streaming_cc.Arrays.Sum.{
  xor_arrays, xor_range-eq-xor_arrays, xor_arrays_comm, xor_arrays_assoc, xor_arrays-zero,
  xor_arrays-xor_cells, length-xor_arrays,
}
use hyper_graph_streaming_cc.Platform.{Platform}
use hyper_graph_streaming_cc.Bucket.{index_hash}
use hyper_graph_streaming_cc.Sketch.Defs.{
  Config, Sketch, make_sketch, add_entries, add_assign, update,
}
use hyper_graph_streaming_cc.Sketch.Cells.{write_cells, update_cells, update_lem}
use hyper_graph_streaming_cc.Sketch.Sizes.{IsSized}

-- The sum of two sketches, as a value.
unfoldable pub sum : Sketch → Sketch → Sketch
sum s t = record s {
  bucket_a = xor_arrays s.bucket_a t.bucket_a;
  bucket_c = xor_arrays s.bucket_c t.bucket_c;
  already_queried = s.already_queried || t.already_queried;
}

add_entries_lem :
    (left i : ℕ) (s t : Sketch)
    → add_entries left i s t ≡ record s {
      bucket_a = xor_range left i s.bucket_a t.bucket_a;
      bucket_c = xor_range left i s.bucket_c t.bucket_c;
    }
unfolding add_entries xor_range
add_entries_lem zero i s t = refl
add_entries_lem (suc left) i s t = add_entries_lem left (i + 1) _ t

-- On sketches with one seed the loop of `operator+=` gives the sum of the arrays, and the
-- assertion holds.
pub add_assign-eq-sum :
    (cfg : Config) (s t : Sketch)
    → IsSized cfg s
    → s.seed ≡ t.seed
    → add_assign cfg s t ≡ some (sum s t)
unfolding add_assign sum
add_assign-eq-sum cfg s t sized e = rw ((==_iff s.seed t.seed).1 e) (
    rw (add_entries_lem cfg.num_elems 0 s t) (λ i. some (record s {
      bucket_a = xor_range-eq-xor_arrays cfg.num_elems s.bucket_a t.bucket_a sized.size_a i;
      bucket_c = xor_range-eq-xor_arrays cfg.num_elems s.bucket_c t.bucket_c sized.size_c i;
      already_queried = s.already_queried || t.already_queried;
    })))

pub sum-IsSized : (cfg : Config) (s t : Sketch) → IsSized cfg s → IsSized cfg (sum s t)
unfolding sum
sum-IsSized cfg s t sized = record {
  size_a = length-xor_arrays s.bucket_a t.bucket_a ∙ sized.size_a;
  size_c = length-xor_arrays s.bucket_c t.bucket_c ∙ sized.size_c;
}

pub sum-make_sketch : (cfg : Config) (s : Sketch) (seed : ℕ) → sum s (make_sketch cfg seed) ≡ s
unfolding sum make_sketch
sum-make_sketch cfg s seed = λ i. record s {
  bucket_a = xor_arrays-zero cfg.num_elems s.bucket_a i;
  bucket_c = xor_arrays-zero cfg.num_elems s.bucket_c i;
  already_queried = or-false s.already_queried i;
}
  where
    or-false : (b : Bool) → (b || false) ≡ b
    or-false true = refl
    or-false false = refl

or_assoc : (a b c : Bool) → ((a || b) || c) ≡ (a || (b || c))
or_assoc true b c = refl
or_assoc false b c = refl

or_comm : (a b : Bool) → (a || b) ≡ (b || a)
or_comm true true = refl
or_comm true false = refl
or_comm false true = refl
or_comm false false = refl

module _ (cfg : Config) (s t u : Sketch) (s_sized : IsSized cfg s) (t_sized : IsSized cfg t)
    (u_sized : IsSized cfg u) where
  pub sum_assoc : sum (sum s t) u ≡ sum s (sum t u)
  unfolding sum
  sum_assoc = λ i. record s {
    bucket_a =
        xor_arrays_assoc s.bucket_a t.bucket_a u.bucket_a (s_sized.size_a ∙ sym t_sized.size_a)
          (t_sized.size_a ∙ sym u_sized.size_a) i;
    bucket_c =
        xor_arrays_assoc s.bucket_c t.bucket_c u.bucket_c (s_sized.size_c ∙ sym t_sized.size_c)
          (t_sized.size_c ∙ sym u_sized.size_c) i;
    already_queried = or_assoc s.already_queried t.already_queried u.already_queried i;
  }

module _ (cfg : Config) (s t : Sketch) (s_sized : IsSized cfg s) (t_sized : IsSized cfg t) where
  pub sum_comm : s.seed ≡ t.seed → sum s t ≡ sum t s
  unfolding sum
  sum_comm e = λ i. record {
    seed = e i;
    bucket_a = xor_arrays_comm s.bucket_a t.bucket_a (s_sized.size_a ∙ sym t_sized.size_a) i;
    bucket_c = xor_arrays_comm s.bucket_c t.bucket_c (s_sized.size_c ∙ sym t_sized.size_c) i;
    already_queried = or_comm s.already_queried t.already_queried i;
  }

  -- An update of the second summand is an update of the sum.
  pub sum-update :
      (p : Platform) (x : ℕ) → s.seed ≡ t.seed → sum s (update p cfg x t) ≡ update p cfg x (sum s t)
  unfolding sum write_cells
  sum-update p x e =
      rw (update_lem p cfg x t, update_lem p cfg x (sum s t), e)
        (λ i. record s {
          seed = t.seed;
          bucket_a =
              xor_arrays-xor_cells (update_cells p cfg t.seed x) x s.bucket_a t.bucket_a
                (s_sized.size_a ∙ sym t_sized.size_a) i;
          bucket_c =
              xor_arrays-xor_cells (update_cells p cfg t.seed x) (index_hash p x t.seed) s.bucket_c
                t.bucket_c (s_sized.size_c ∙ sym t_sized.size_c) i;
          already_queried = s.already_queried || t.already_queried;
        })
