-- ===== src/Tests/Supernodes.antt =====
-- The theorems on supernodes at concrete streams.
use hyper_graph_streaming_cc.Prelude.{◌<◌, ◌≡◌, refl, List, [], ◌∷◌, ◌++◌, some, arith, max}
use hyper_graph_streaming_cc.Exceptions.{ok}
use hyper_graph_streaming_cc.Util.{inv_nondir_non_self_edge_pairing_fn}
use hyper_graph_streaming_cc.Sketch.Defs.{Sketch, SampleSketchRet, good}
use hyper_graph_streaming_cc.Supernode.Defs.{
  Edge, Supernode, make_supernode, sample, merge, apply_delta_update, delta_supernode, sketches_for,
  reset_query_state,
}
use hyper_graph_streaming_cc.Supernode.Sampling.{IsQueryable}
use hyper_graph_streaming_cc.Supernode.Represents.{Represents, merge-Represents}
use hyper_graph_streaming_cc.Supernode.Streams.{
  make_supernode-Represents, Represents-IsQueryable, apply_delta_update-Represents, sample_single,
}
use hyper_graph_streaming_cc.Supernode.Reset.{
  after_samples, reset_query_state-after_samples, sample_available,
}
use hyper_graph_streaming_cc.Tests.Data.{
  small_hashes, small_sketch, small_sketch-IsConfig, decimals,
}
use hyper_graph_streaming_cc.Tests.Sketches.{mixed_stream_parity}

-- Four sketches, for a graph of four vertices.
abbrev fresh : Supernode
fresh = make_supernode small_sketch decimals 4 5

fresh_size : fresh.num_sketches ≡ 4
unfolding make_supernode sketches_for
fresh_size = refl

fresh_count : fresh.num_sketches ≡ sketches_for decimals fresh.n
unfolding make_supernode
fresh_count = refl

fresh_index : fresh.idx ≡ 0
unfolding make_supernode
fresh_index = refl

fresh-Represents : Represents small_hashes decimals small_sketch fresh []
fresh-Represents = make_supernode-Represents small_hashes decimals small_sketch 4 5

fresh-IsQueryable : IsQueryable fresh
fresh-IsQueryable =
    Represents-IsQueryable small_hashes decimals small_sketch fresh [] fresh-Represents

apply_delta_update-Represents_example :
    (ss : List Sketch) × (apply_delta_update small_sketch fresh
        (delta_supernode small_hashes small_sketch decimals fresh.n fresh.seed (6 ∷ 9 ∷ 6 ∷ []))
      ≡ some (record fresh { sketches = ss }))
    × Represents small_hashes decimals small_sketch
        (record fresh { sketches = ss })
        (6 ∷ 9 ∷ 6 ∷ [])
apply_delta_update-Represents_example =
    apply_delta_update-Represents small_hashes decimals small_sketch fresh [] (6 ∷ 9 ∷ 6 ∷ [])
      fresh_count fresh-Represents

-- The same update, kept for the witnesses below.
fed :
    (s : Supernode) × (s.idx ≡ 0)
    × (s.num_sketches ≡ 4)
    × (s.seed ≡ fresh.seed)
    × Represents small_hashes decimals small_sketch s (6 ∷ 9 ∷ 6 ∷ [])
fed =
    let (ss, e, h) =
      apply_delta_update-Represents small_hashes decimals small_sketch fresh [] (6 ∷ 9 ∷ 6 ∷ [])
        fresh_count fresh-Represents in
    (record fresh { sketches = ss }, fresh_index, fresh_size, refl, h)

fed_available : fed.0.idx < fed.0.num_sketches
fed_available = omega (arith, fed.1, fed.2)

sample_single_example :
    (sample small_hashes small_sketch fed.0).1
    ≡ ok (inv_nondir_non_self_edge_pairing_fn small_hashes 9, good)
sample_single_example =
    sample_single small_hashes decimals small_sketch fed.0 (6 ∷ 9 ∷ 6 ∷ []) fed_available fed.4
      small_sketch-IsConfig 9 mixed_stream_parity (ground arith)

fresh_available : fresh.idx < fresh.num_sketches
fresh_available = omega (arith, fresh_index, fresh_size)

merge-Represents_example :
    (ss : List Sketch) × (merge small_sketch fed.0 fresh
      ≡ some (record fed.0 { idx = max fed.0.idx fresh.idx; sketches = ss }))
    × Represents small_hashes decimals small_sketch
        (record fed.0 { idx = max fed.0.idx fresh.idx; sketches = ss })
        ((6 ∷ 9 ∷ 6 ∷ []) ++ [])
merge-Represents_example =
    merge-Represents small_hashes decimals small_sketch fed.0 fresh (6 ∷ 9 ∷ 6 ∷ []) []
      (omega (arith, fed.2, fresh_size)) fed.3 fed.4 fresh-Represents

reset_query_state-after_samples_example :
    reset_query_state (after_samples small_hashes small_sketch 3 fresh) ≡ reset_query_state fresh
reset_query_state-after_samples_example =
    reset_query_state-after_samples small_hashes small_sketch 3 fresh fresh-IsQueryable

sample_available_example :
    (e : Edge) × (r : SampleSketchRet) × ((sample small_hashes small_sketch
        (after_samples small_hashes small_sketch 3 fresh)).1
      ≡ ok (e, r))
sample_available_example =
    sample_available small_hashes small_sketch 3 fresh (omega arith) fresh-IsQueryable
      (omega (arith, fresh_index, fresh_size))
