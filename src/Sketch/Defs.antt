-- ===== src/Sketch/Defs.antt =====
-- The state of a sketch, its static parameters, its constructors, updates and sums.
use hyper_graph_streaming_cc.Prelude.{
  ℕ, zero, suc, ◌+◌, ◌-◌, ◌*◌, ◌^◌, bit_xor, Bool, true, false, ◌||◌, not, List, [], ◌∷◌, Option,
  none, some, ◌==◌, if◌then◌else◌, get_or, set, replicate,
}
use hyper_graph_streaming_cc.Platform.{Platform, Doubles}
use hyper_graph_streaming_cc.Util.{double_to_ull, u32}
use hyper_graph_streaming_cc.Bucket.{col_index_hash, index_hash, contains}
use hyper_graph_streaming_cc.Bucket

pub data SampleSketchRet : Type 0 where
  good zero_ret fail : SampleSketchRet

-- The static members.
pub record Config : Type 0 where
  pub failure_factor : ℕ
  pub n : ℕ
  pub num_elems : ℕ
  pub num_buckets : ℕ
  pub num_guesses : ℕ

module _ (d : Doubles) where
  -- The macros `guess_gen` and `bucket_gen`.
  unfoldable pub guess_gen : ℕ → ℕ
  guess_gen x = double_to_ull d (d.sub (d.log2 (d.of_nat x)) (d.of_nat 2)) d.epsilon

  unfoldable pub bucket_gen : ℕ → ℕ
  bucket_gen x = double_to_ull d (d.add (d.log2 (d.of_nat x)) (d.of_nat 1)) d.epsilon

  unfoldable pub configure : ℕ → ℕ → Config
  configure n factor =
      let buckets = bucket_gen factor in
      let guesses = guess_gen n in
      record {
        failure_factor = factor;
        n = n;
        num_elems = buckets * guesses + 1;
        num_buckets = buckets;
        num_guesses = guesses;
      }

pub record Sketch : Type 0 where
  pub seed : ℕ
  pub bucket_a : List ℕ
  pub bucket_c : List ℕ
  pub already_queried : Bool

-- `unsigned bucket_id = i * num_guesses + j`
unfoldable pub bucket_id : Config → ℕ → ℕ → ℕ
bucket_id cfg i j = u32 (i * cfg.num_guesses + j)

-- `Bucket_Boruvka::update` on the entries with index `id`
unfoldable pub update_bucket : ℕ → ℕ → ℕ → Sketch → Sketch
update_bucket id update_idx update_hash s =
    let (a, c) =
      Bucket.update (get_or s.bucket_a id 0) (get_or s.bucket_c id 0) update_idx update_hash in
    record s { bucket_a = set s.bucket_a id a; bucket_c = set s.bucket_c id c }

module _ (cfg : Config) where
  -- `Sketch(uint64_t seed)`
  unfoldable pub make_sketch : ℕ → Sketch
  make_sketch seed = record {
    seed = seed;
    bucket_a = replicate cfg.num_elems 0;
    bucket_c = replicate cfg.num_elems 0;
    already_queried = false;
  }

  -- The copy constructor: the flag has its default again.
  unfoldable pub copy_sketch : Sketch → Sketch
  copy_sketch s = record s { already_queried = false }

  -- The inner loop of `update` from guess `j`, with `left` rounds to go. A sketch has at most 62
  -- guesses, so the shift by `j` is below the width of `col_hash_t`.
  unfoldable pub update_guesses : ℕ → ℕ → ℕ → ℕ → ℕ → ℕ → Sketch → Sketch
  unfolding bucket_id update_bucket
  update_guesses zero j i col_hash update_idx update_hash s = s
  update_guesses (suc left) j i col_hash update_idx update_hash s =
      let rest =
        update_guesses left (j + 1) i col_hash update_idx update_hash
          (update_bucket (bucket_id cfg i j) update_idx update_hash s) in
      if contains col_hash (2 ^ j) then rest else s

module _ (p : Platform) (cfg : Config) where
  -- The outer loop of `update` from column `i`.
  unfoldable pub update_buckets : ℕ → ℕ → ℕ → ℕ → Sketch → Sketch
  unfolding update_guesses
  update_buckets zero i update_idx update_hash s = s
  update_buckets (suc left) i update_idx update_hash s =
      update_buckets left (i + 1) update_idx update_hash (
        update_guesses cfg cfg.num_guesses 0 i (col_index_hash p update_idx (s.seed + i)) update_idx
          update_hash s)

  unfoldable pub update : ℕ → Sketch → Sketch
  unfolding update_buckets
  update update_idx s =
      let update_hash = index_hash p update_idx s.seed in
      update_buckets cfg.num_buckets 0 update_idx update_hash
        (update_bucket (cfg.num_elems - 1) update_idx update_hash s)

  unfoldable pub batch_update : List ℕ → Sketch → Sketch
  batch_update [] s = s
  batch_update (update_idx ∷ updates) s = batch_update updates (update update_idx s)

-- The loop of `operator+=` from entry `i`.
unfoldable pub add_entries : ℕ → ℕ → Sketch → Sketch → Sketch
add_entries zero i s1 s2 = s1
add_entries (suc left) i s1 s2 =
    add_entries left (i + 1)
      (record s1 {
        bucket_a = set s1.bucket_a i (bit_xor (get_or s1.bucket_a i 0) (get_or s2.bucket_a i 0));
        bucket_c = set s1.bucket_c i (bit_xor (get_or s1.bucket_c i 0) (get_or s2.bucket_c i 0));
      })
      s2

-- The loop of `operator==` over one array, from entry `i`.
unfoldable pub equal_entries : ℕ → ℕ → List ℕ → List ℕ → Bool
equal_entries zero i xs ys = true
equal_entries (suc left) i xs ys =
    let rest = equal_entries left (i + 1) xs ys in
    if get_or xs i 0 == get_or ys i 0 then rest else false

abbrev same_flag : Bool → Bool → Bool
same_flag true b = b
same_flag false b = not b

module _ (cfg : Config) where
  -- `operator+=`; `none` is the failed assertion that the seeds agree.
  unfoldable pub add_assign : Sketch → Sketch → Option Sketch
  unfolding add_entries
  add_assign s1 s2 =
      if s1.seed == s2.seed
      then some (record (add_entries cfg.num_elems 0 s1 s2) {
        already_queried = s1.already_queried || s2.already_queried;
      })
      else none

  -- `operator==`
  unfoldable pub equal : Sketch → Sketch → Bool
  unfolding equal_entries
  equal s1 s2 =
      if not (s1.seed == s2.seed) || not (same_flag s1.already_queried s2.already_queried)
      then false
      else (if equal_entries cfg.num_elems 0 s1.bucket_a s2.bucket_a
          then equal_entries cfg.num_elems 0 s1.bucket_c s2.bucket_c
          else false)
