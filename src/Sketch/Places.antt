-- ===== src/Sketch/Places.antt =====
-- Which buckets an index belongs to, and how often `update` writes at each.
use native.Mathlib.Decide.{dec_lt}
use hyper_graph_streaming_cc.Prelude.{
  ℕ, zero, suc, ◌+◌, ◌-◌, ◌*◌, ◌^◌, ◌<◌, ◌≤◌, ◌≡◌, refl, ap, arith, Bool, true, false, ◌&&◌, ◌==◌,
  leb, ltb, Bool-cases, ==_iff, ◌⊎◌, inl, inr, if◌then◌else◌,
}
use hyper_graph_streaming_cc.Arrays.Cells.{count, count-append}
use hyper_graph_streaming_cc.Platform.{Platform}
use hyper_graph_streaming_cc.Bucket.{col_index_hash, contains}
use hyper_graph_streaming_cc.Sketch.Defs.{Config, bucket_id}
use hyper_graph_streaming_cc.Sketch.Cells.{guess_cells, column_cells, update_cells}

-- What `configure` establishes: the number of entries, which an `unsigned` can index.
pub record IsConfig (cfg : Config) : Type 0 where
  pub elems : cfg.num_elems ≡ cfg.num_buckets * cfg.num_guesses + 1
  pub small : cfg.num_elems ≤ 2 ^ 32

-- The `n` bits of a hash from bit `j` on are all 0.
unfoldable pub zero_bits : ℕ → ℕ → ℕ → Bool
zero_bits zero j col_hash = true
zero_bits (suc n) j col_hash = contains col_hash (2 ^ j) && zero_bits n (j + 1) col_hash

-- Column `i` keeps index `x` in its bucket `j`: the hash has its `j + 1` lowest bits 0, so a
-- fraction of 1 in 2 ^ (j + 1) of all indices is there.
unfoldable pub belongs : Platform → ℕ → ℕ → ℕ → ℕ → Bool
belongs p seed i j x = zero_bits (j + 1) 0 (col_index_hash p x (seed + i))

row_below : (a b width j : ℕ) → a < b → j < width → a * width + j < b * width
row_below a b width j h hj = grind arith

row_above : (a b width : ℕ) → a < b → a * width + width ≤ b * width
row_above a b width h = grind arith

module _ (cfg : Config) (wf : IsConfig cfg) where
  pub bucket_id_lem :
      (i j : ℕ)
      → i < cfg.num_buckets
      → j < cfg.num_guesses
      → (bucket_id cfg i j ≡ i * cfg.num_guesses + j)
        × (i * cfg.num_guesses + j < cfg.num_buckets * cfg.num_guesses)
  unfolding bucket_id
  bucket_id_lem i j hi hj =
      let fits : i * cfg.num_guesses + j < cfg.num_buckets * cfg.num_guesses = grind arith in
      (omega (arith, wf.elems, wf.small), fits)

  guess_cells_outside :
      (left j i col_hash k : ℕ)
      → i < cfg.num_buckets
      → j + left ≤ cfg.num_guesses
      → (k < i * cfg.num_guesses + j) ⊎ (i * cfg.num_guesses + j + left ≤ k)
      → count k (guess_cells cfg left j i col_hash) ≡ 0
  unfolding guess_cells count
  guess_cells_outside zero j i col_hash k hi hj out = refl
  guess_cells_outside (suc left) j i col_hash k hi hj out =
      ground (arith, bucket_id_lem i j, guess_cells_outside left (j + 1) i col_hash k)

  guess_cells_inside :
      (left j i col_hash m : ℕ)
      → i < cfg.num_buckets
      → j + left ≤ cfg.num_guesses
      → m < left
      → count (i * cfg.num_guesses + (j + m)) (guess_cells cfg left j i col_hash)
        ≡ (if zero_bits (suc m) j col_hash then 1 else 0)
  unfolding guess_cells count zero_bits
  guess_cells_inside zero j i col_hash m hi hj hm = absurd (omega arith)
  guess_cells_inside (suc left) j i col_hash zero hi hj hm = ground (
    arith,
    bucket_id_lem i j,
    guess_cells_outside left (j + 1) i col_hash (i * cfg.num_guesses + (j + 0)),
  )
  guess_cells_inside (suc left) j i col_hash (suc m) hi hj hm =
      let later = guess_cells_inside left (j + 1) i col_hash m hi (omega arith) (omega arith) in
      let same : i * cfg.num_guesses + (j + 1 + m) ≡ i * cfg.num_guesses + (j + suc m) =
        omega arith in
      ground (arith, bucket_id_lem i j, rw same at later)

  module _ (p : Platform) (seed x : ℕ) (i j : ℕ) (hi : i < cfg.num_buckets)
      (hj : j < cfg.num_guesses) where
    column_cells_other :
        (i' : ℕ)
        → i' < cfg.num_buckets
        → (i' == i) ≡ false
        → (h : ℕ) → count (i * cfg.num_guesses + j) (guess_cells cfg cfg.num_guesses 0 i' h) ≡ 0
    column_cells_other i' hi' ne h =
        guess_cells_outside cfg.num_guesses 0 i' h (i * cfg.num_guesses + j) hi' (omega arith)
          (elim (dec_lt i i') [
            | yes below ↦ inl (omega (arith, row_below i i' cfg.num_guesses j below hj))
            | no above ↦ inr (omega (arith, row_above i' i cfg.num_guesses (ground arith)))
          ])

    column_cells_same :
        (h : ℕ)
        → count (i * cfg.num_guesses + j) (guess_cells cfg cfg.num_guesses 0 i h)
          ≡ (if zero_bits (j + 1) 0 h then 1 else 0)
    column_cells_same h =
        let inside = guess_cells_inside cfg.num_guesses 0 i h j hi (omega arith) hj in
        let e : 0 + j ≡ j = omega arith in
        let e' : suc j ≡ j + 1 = omega arith in rw (e, e') at inside

    column_cells_count :
        (left i' : ℕ)
        → i' + left ≤ cfg.num_buckets
        → count (i * cfg.num_guesses + j) (column_cells p cfg left i' seed x)
          ≡ (if leb i' i && ltb i (i' + left) then (if belongs p seed i j x then 1 else 0) else 0)
    unfolding column_cells belongs count
    column_cells_count zero i' h = ground arith
    column_cells_count (suc left) i' h =
        let hash = col_index_hash p x (seed + i') in
        let split =
          count-append (i * cfg.num_guesses + j) (guess_cells cfg cfg.num_guesses 0 i' hash)
            (column_cells p cfg left (i' + 1) seed x) in
        let later = column_cells_count left (i' + 1) (omega arith) in
        elim (Bool-cases (i' == i)) [
          | inl e ↦
              let e' : i' ≡ i = (==_iff i' i).0 e in
              ground (
                arith,
                split,
                later,
                column_cells_same hash,
                ap (λ t. col_index_hash p x (seed + t)) e',
              )
          | inr ne ↦ ground (arith, split, later, column_cells_other i' (omega arith) ne hash)
        ]

    -- `update` writes once in bucket `j` of column `i` if the index belongs there, and else never.
    pub update_cells_count :
        count (bucket_id cfg i j) (update_cells p cfg seed x)
        ≡ (if belongs p seed i j x then 1 else 0)
    unfolding update_cells count
    update_cells_count =
        ground (arith, bucket_id_lem i j, column_cells_count cfg.num_buckets 0, wf.elems)

  -- No column reaches the entry behind the last one.
  column_cells_beyond :
      (p : Platform) (seed x k left i : ℕ)
      → i + left ≤ cfg.num_buckets
      → cfg.num_buckets * cfg.num_guesses ≤ k
      → count k (column_cells p cfg left i seed x) ≡ 0
  unfolding column_cells count
  column_cells_beyond p seed x k zero i h beyond = refl
  column_cells_beyond p seed x k (suc left) i h beyond =
      let hash = col_index_hash p x (seed + i) in
      let above = row_above i cfg.num_buckets cfg.num_guesses (omega arith) in
      omega (
        arith,
        count-append k (guess_cells cfg cfg.num_guesses 0 i hash)
            (column_cells p cfg left (i + 1) seed x),
        guess_cells_outside cfg.num_guesses 0 i hash k (omega arith) (omega arith)
            (inr (omega arith)),
        column_cells_beyond p seed x k left (i + 1) (omega arith) beyond,
      )

  -- `update` writes once in the last entry.
  pub update_cells_count_last :
      (p : Platform) (seed x : ℕ) → count (cfg.num_elems - 1) (update_cells p cfg seed x) ≡ 1
  unfolding update_cells count
  update_cells_count_last p seed x =
      ground (arith, wf.elems, column_cells_beyond p seed x (cfg.num_elems - 1) cfg.num_buckets 0)
