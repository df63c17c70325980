-- ===== src/Supernode/Defs.antt =====
-- The state and the operations of a supernode.
use mathlib.Core.Option
use hyper_graph_streaming_cc.Prelude.{
  ℕ, zero, suc, ◌+◌, ◌*◌, false, max, List, [], ◌∷◌, ◌++◌, map, Option, none, some, ◌==◌,
  if◌then◌else◌, get_elem?, set, Bool,
}
use hyper_graph_streaming_cc.Platform.{Platform, Doubles}
use hyper_graph_streaming_cc.Exceptions.{Result, ok, throw, out_of_queries, undefined_behaviour}
use hyper_graph_streaming_cc.Util.{u64, inv_nondir_non_self_edge_pairing_fn}
use hyper_graph_streaming_cc.Sketch.Defs.{
  SampleSketchRet, Config, Sketch, make_sketch, copy_sketch, add_assign, guess_gen, configure,
}
use hyper_graph_streaming_cc.Sketch.Defs
use hyper_graph_streaming_cc.Sketch.Io
use hyper_graph_streaming_cc.Sketch.Query.{query}

abbrev pub Edge : Type 0
Edge = ℕ × ℕ

pub record Supernode : Type 0 where
  pub idx : ℕ
  pub num_sketches : ℕ
  pub n : ℕ
  pub seed : ℕ
  pub sketches : List Sketch

module _ (d : Doubles) where
  -- `log2(n) / (log2(3) - 1)`, converted to `int`
  unfoldable pub sketches_for : ℕ → ℕ
  sketches_for n =
      d.truncate (d.div (d.log2 (d.of_nat n)) (d.sub (d.log2 (d.of_nat 3)) (d.of_nat 1)))

  -- `Supernode::configure`, but for `bytes_size`
  unfoldable pub configure_supernodes : ℕ → ℕ → Config
  configure_supernodes n sketch_fail_factor = configure d (u64 (n * n)) sketch_fail_factor

  unfoldable pub sketch_width : Config → ℕ
  sketch_width cfg = guess_gen d cfg.failure_factor

-- The seeds of `count` sketches.
unfoldable pub seeds_from : ℕ → ℕ → ℕ → List ℕ
seeds_from width zero seed = []
seeds_from width (suc count) seed = seed ∷ seeds_from width count (u64 (seed + width))

module _ (cfg : Config) where
  -- The loop of the constructor.
  unfoldable pub make_sketches : ℕ → ℕ → ℕ → List Sketch
  make_sketches width zero seed = []
  make_sketches width (suc count) seed =
      make_sketch cfg seed ∷ make_sketches width count (u64 (seed + width))

  unfoldable pub make_supernode : Doubles → ℕ → ℕ → Supernode
  unfolding make_sketches
  make_supernode d n seed = record {
    idx = 0;
    num_sketches = sketches_for d n;
    n = n;
    seed = seed;
    sketches = make_sketches (sketch_width d cfg) (sketches_for d n) seed;
  }

-- The copy constructor.
unfoldable pub copy_supernode : Config → Supernode → Supernode
copy_supernode cfg s = record s { sketches = map (copy_sketch cfg) s.sketches }

module _ (p : Platform) (cfg : Config) where
  unfoldable pub read_sketches : ℕ → ℕ → ℕ → List ℕ → Option (List Sketch × List ℕ)
  read_sketches width zero seed binary_in = some ([], binary_in)
  read_sketches width (suc count) seed binary_in = elim (Io.read_sketch p cfg seed binary_in) [
    | none ↦ none
    | some (s, rest) ↦ elim (read_sketches width count (u64 (seed + width)) rest) [
      | none ↦ none
      | some (ss, end) ↦ some (s ∷ ss, end)
    ]
  ]

  -- `Supernode(uint64_t n, uint64_t seed, std::istream &)`, with the rest of the stream.
  unfoldable pub read_supernode : Doubles → ℕ → ℕ → List ℕ → Option (Supernode × List ℕ)
  unfolding read_sketches
  read_supernode d n seed binary_in =
      elim (read_sketches (sketch_width d cfg) (sketches_for d n) seed binary_in) [
        | none ↦ none
        | some (ss, rest) ↦ some (
          record { idx = 0; num_sketches = sketches_for d n; n = n; seed = seed; sketches = ss },
          rest,
        )
      ]

  unfoldable pub write_sketches : List Sketch → List ℕ
  write_sketches [] = []
  write_sketches (s ∷ ss) = Io.write_binary p cfg s ++ write_sketches ss

  unfoldable pub write_binary : Supernode → List ℕ
  unfolding write_sketches
  write_binary s = write_sketches s.sketches

unfoldable pub out_of_queries? : Supernode → Bool
out_of_queries? s = s.idx == s.num_sketches

unfoldable pub incr_idx : Supernode → Supernode
incr_idx s = record s { idx = s.idx + 1 }

-- The loop of `reset_query_state` over the first `i` sketches.
unfoldable pub reset_queried : ℕ → List Sketch → List Sketch
reset_queried zero ss = ss
reset_queried (suc i) [] = []
reset_queried (suc i) (s ∷ ss) = record s { already_queried = false } ∷ reset_queried i ss

unfoldable pub reset_query_state : Supernode → Supernode
unfolding reset_queried
reset_query_state s = record s { idx = 0; sketches = reset_queried s.idx s.sketches }

module _ (p : Platform) (cfg : Config) where
  abbrev pub sample_result : Result (ℕ × SampleSketchRet) → Result (Edge × SampleSketchRet)
  sample_result (throw e) = throw e
  sample_result (ok (idx, ret_code)) = ok (inv_nondir_non_self_edge_pairing_fn p idx, ret_code)

  -- The index is advanced before the query. A read behind the last sketch is undefined.
  unfoldable pub sample : Supernode → Supernode × Result (Edge × SampleSketchRet)
  sample s =
      if s.idx == s.num_sketches
      then (s, throw out_of_queries)
      else (elim (get_elem? s.sketches s.idx) [
        | none ↦ (s, throw undefined_behaviour)
        | some sketch ↦
            let (queried, result) = query p cfg sketch in
            (
              record s { idx = s.idx + 1; sketches = set s.sketches s.idx queried },
              sample_result result,
            )
      ])

  unfoldable pub update_sketches : ℕ → List Sketch → List Sketch
  update_sketches upd [] = []
  update_sketches upd (s ∷ ss) = Defs.update p cfg upd s ∷ update_sketches upd ss

  unfoldable pub update : ℕ → Supernode → Supernode
  unfolding update_sketches
  update upd s = record s { sketches = update_sketches upd s.sketches }

  unfoldable pub batch_update_sketches : List ℕ → List Sketch → List Sketch
  batch_update_sketches updates [] = []
  batch_update_sketches updates (s ∷ ss) =
      Defs.batch_update p cfg updates s ∷ batch_update_sketches updates ss

  -- The rounds of the parallel loop touch one sketch each.
  unfoldable pub delta_supernode : Doubles → ℕ → ℕ → List ℕ → Supernode
  unfolding batch_update_sketches
  delta_supernode d n seed updates =
      let delta_node = make_supernode cfg d n seed in
      record delta_node { sketches = batch_update_sketches updates delta_node.sketches }

module _ (cfg : Config) where
  -- `sketch[i] += other[i]` for every sketch; `none` is a failed assertion of `operator+=`, or a
  -- read behind the last sketch of the other supernode.
  unfoldable pub add_sketches : List Sketch → List Sketch → Option (List Sketch)
  add_sketches [] ts = some []
  add_sketches (s ∷ ss) [] = none
  add_sketches (s ∷ ss) (t ∷ ts) = elim (add_assign cfg s t) [
    | none ↦ none
    | some u ↦ Option.map (λ us. u ∷ us) (add_sketches ss ts)
  ]

  unfoldable pub apply_delta_update : Supernode → Supernode → Option Supernode
  unfolding add_sketches
  apply_delta_update s delta_node =
      Option.map (λ ss. record s { sketches = ss }) (add_sketches s.sketches delta_node.sketches)

  -- The loop of `merge`, which leaves the first `i` sketches alone.
  unfoldable pub merge_sketches : ℕ → List Sketch → List Sketch → Option (List Sketch)
  unfolding add_sketches
  merge_sketches zero ss ts = add_sketches ss ts
  merge_sketches (suc i) [] ts = some []
  merge_sketches (suc i) (s ∷ ss) [] = Option.map (λ us. s ∷ us) (merge_sketches i ss [])
  merge_sketches (suc i) (s ∷ ss) (t ∷ ts) = Option.map (λ us. s ∷ us) (merge_sketches i ss ts)

  unfoldable pub merge : Supernode → Supernode → Option Supernode
  unfolding merge_sketches
  merge s other =
      let i = max s.idx other.idx in
      Option.map (λ ss. record s { idx = i; sketches = ss })
        (merge_sketches i s.sketches other.sketches)
