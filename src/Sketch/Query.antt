-- ===== src/Sketch/Query.antt =====
-- `Sketch::query`. It returns the sketch with its flag, and a value or an exception.
use hyper_graph_streaming_cc.Prelude.{
  ℕ, zero, suc, ◌+◌, ◌-◌, ◌*◌, ◌^◌, true, ◌&&◌, Option, none, some, ◌==◌, ltb, if◌then◌else◌,
  get_or,
}
use hyper_graph_streaming_cc.Platform.{Platform}
use hyper_graph_streaming_cc.Bucket.{is_good, is_good_in}
use hyper_graph_streaming_cc.Exceptions.{Result, ok, throw, multiple_query, undefined_behaviour}
use hyper_graph_streaming_cc.Sketch.Defs.{
  SampleSketchRet, good, zero_ret, fail, Config, Sketch, bucket_id,
}

-- `1 << j` on `int`, converted to `vec_t` of `size` bytes: bit 31 is the sign, and a shift by the
-- width or more is undefined.
unfoldable pub int_one_shift : ℕ → ℕ → Option ℕ
int_one_shift size j =
    if ltb j 31 then some (2 ^ j) else (if j == 31 then some (2 ^ (8 * size) - 2 ^ 31) else none)

abbrev pub query_result : Result (Option ℕ) → Result (ℕ × SampleSketchRet)
query_result (throw e) = throw e
query_result (ok none) = ok (0, fail)
query_result (ok (some v)) = ok (v, good)

module _ (p : Platform) (cfg : Config) where
  -- The inner loop: the content of the first good bucket of column `i`.
  unfoldable pub query_guesses : ℕ → ℕ → ℕ → Sketch → Result (Option ℕ)
  unfolding int_one_shift bucket_id is_good_in
  query_guesses zero j i s = ok none
  query_guesses (suc left) j i s =
      let id = bucket_id cfg i j in
      let rest = query_guesses left (j + 1) i s in
      elim (int_one_shift p.sizeof_vec j) [
        | none ↦ throw undefined_behaviour
        | some guess ↦
            if is_good_in p (get_or s.bucket_a id 0) (get_or s.bucket_c id 0) i guess s.seed
            then ok (some (get_or s.bucket_a id 0))
            else rest
      ]

  unfoldable pub query_buckets : ℕ → ℕ → Sketch → Result (Option ℕ)
  unfolding query_guesses
  query_buckets zero i s = ok none
  query_buckets (suc left) i s =
      let rest = query_buckets left (i + 1) s in
      elim (query_guesses cfg.num_guesses 0 i s) [
        | throw e ↦ throw e
        | ok found ↦ elim found [ some v ↦ ok (some v) | none ↦ rest ]
      ]

  unfoldable pub query : Sketch → Sketch × Result (ℕ × SampleSketchRet)
  unfolding query_buckets is_good
  query s =
      let last = cfg.num_elems - 1 in
      let a = get_or s.bucket_a last 0 in
      let c = get_or s.bucket_c last 0 in
      let marked = record s { already_queried = true } in
      if s.already_queried
      then (s, throw multiple_query)
      else (if a == 0 && c == 0
          then (marked, ok (0, zero_ret))
          else (if is_good p a c s.seed
              then (marked, ok (a, good))
              else (marked, query_result (query_buckets cfg.num_buckets 0 marked))))
