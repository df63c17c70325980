-- ===== src/Tests/Data.antt =====
-- A platform with the documented widths and small hashes, `double`s with three decimals, and the
-- parameters of a small sketch.
use hyper_graph_streaming_cc.Prelude.{
  refl, ℕ, zero, suc, ◌+◌, ◌-◌, ◌*◌, ◌/◌, ◌%◌, ◌^◌, List, [], ◌∷◌, arith, ltb, if◌then◌else◌,
}
use hyper_graph_streaming_cc.Platform.{Platform, IsDocumented, Doubles}
use hyper_graph_streaming_cc.Sketch.Defs.{Config}
use hyper_graph_streaming_cc.Sketch.Places.{IsConfig}

abbrev pub mix : ℕ → List ℕ → ℕ
mix h [] = h
mix h (b ∷ bytes) = mix (h * 31 + b) bytes

abbrev pub small_hashes : Platform
small_hashes = record {
  sizeof_node_id = 4;
  sizeof_vec = 8;
  sizeof_vec_hash = 4;
  xxh32 = λ bytes seed. mix seed bytes % 2 ^ 32;
  xxh64 = λ bytes seed. mix seed bytes % 2 ^ 64;
}

pub small_hashes-IsDocumented : IsDocumented small_hashes
small_hashes-IsDocumented = record {
  node_id_width = refl;
  xxh32-lt = λ bytes seed. omega arith;
  xxh64-lt = λ bytes seed. omega arith;
}

-- The largest power of two up to `n`, by its exponent.
abbrev pub log_floor : ℕ → ℕ → ℕ
log_floor zero n = 0
log_floor (suc fuel) n = let rest = log_floor fuel (n / 2) in if ltb n 2 then 0 else suc rest

-- A number counts thousandths.
abbrev pub decimals : Doubles
decimals = record {
  Double = ℕ;
  of_nat = λ n. n * 1000;
  epsilon = 1;
  log2 = λ x. log_floor 200 ((x / 1000) ^ 10) * 100;
  add = λ x y. x + y;
  sub = λ x y. x - y;
  div = λ x y. x * 1000 / y;
  truncate = λ x. x / 1000;
}

abbrev pub small_sketch : Config
small_sketch = record {
  failure_factor = 4;
  n = 16;
  num_elems = 7;
  num_buckets = 3;
  num_guesses = 2;
}

pub small_sketch-IsConfig : IsConfig small_sketch
small_sketch-IsConfig = record { elems = refl; small = omega arith }
