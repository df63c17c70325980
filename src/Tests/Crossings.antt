-- ===== src/Tests/Crossings.antt =====
-- Samples of a component at a concrete graph: the path 0 - 1 - 2 - 3.
use hyper_graph_streaming_cc.Prelude.{ℕ, ◌<◌, ◌≡◌, refl, List, [], ◌∷◌, arith, Bool, ltb}
use hyper_graph_streaming_cc.Exceptions.{ok}
use hyper_graph_streaming_cc.Sketch.Defs.{Config, configure, bucket_gen, guess_gen, good, zero_ret}
use hyper_graph_streaming_cc.Util.{double_to_ull}
use hyper_graph_streaming_cc.Sketch.Places.{IsConfig}
use hyper_graph_streaming_cc.Sketch.Parity.{SameParity}
use hyper_graph_streaming_cc.Supernode.Defs.{
  Edge, Supernode, make_supernode, sample, sketches_for, configure_supernodes,
}
use hyper_graph_streaming_cc.Supernode.Represents.{Represents}
use hyper_graph_streaming_cc.Supernode.Streams.{
  make_supernode-Represents, apply_delta_update-Represents,
}
use hyper_graph_streaming_cc.Graph.Update.{edge_code}
use hyper_graph_streaming_cc.Graph.Update.Cut.{both, streams_of, cut}
use hyper_graph_streaming_cc.Graph.Crossing.{sample_crossing, sample_no_crossing}
use hyper_graph_streaming_cc.Tests.Data.{small_hashes, small_hashes-IsDocumented, decimals}

abbrev config : Config
config = configure_supernodes decimals 4 4

config-IsConfig : IsConfig config
unfolding configure_supernodes configure bucket_gen double_to_ull guess_gen
config-IsConfig = record { elems = refl; small = omega arith }

abbrev path : List Edge
path = (0, 1) ∷ (2, 1) ∷ (3, 2) ∷ []

abbrev first_three : ℕ → Bool
first_three i = ltb i 3

abbrev first_four : ℕ → Bool
first_four i = ltb i 4

abbrev fresh : Supernode
fresh = make_supernode config decimals 4 5

fresh_count : fresh.num_sketches ≡ sketches_for decimals fresh.n
unfolding make_supernode
fresh_count = refl

fresh_available : fresh.idx < fresh.num_sketches
unfolding make_supernode sketches_for
fresh_available = omega arith

-- A supernode that was fed a stream.
fed :
    (xs : List ℕ)
    → (s : Supernode) × (s.idx < s.num_sketches) × Represents small_hashes decimals config s xs
fed xs =
    let (ss, e, h) =
      apply_delta_update-Represents small_hashes decimals config fresh [] xs fresh_count
        (make_supernode-Represents small_hashes decimals config 4 5) in
    (record fresh { sketches = ss }, fresh_available, h)

abbrev three : Supernode
three = (fed (streams_of small_hashes first_three 4 0 (both path))).0

one_crosses : SameParity (cut small_hashes first_three path) (edge_code small_hashes 3 2 ∷ [])
unfolding cut
one_crosses k = refl

none_crosses : SameParity (cut small_hashes first_four path) []
unfolding cut
none_crosses k = refl

sample_crossing_example : (sample small_hashes config three).1 ≡ ok ((2, 3), good)
sample_crossing_example =
    sample_crossing small_hashes decimals config config-IsConfig first_three 4
      ((0, 1) ∷ (2, 1) ∷ (3, 2) ∷ [])
      ((omega arith, omega arith), ((omega arith, omega arith), ((omega arith, omega arith), tt)))
      three (fed (streams_of small_hashes first_three 4 0 (both path))).1
      (fed (streams_of small_hashes first_three 4 0 (both path))).2 small_hashes-IsDocumented 3 2
      (omega arith) (omega arith) (ground arith) one_crosses

abbrev four : Supernode
four = (fed (streams_of small_hashes first_four 4 0 (both path))).0

sample_no_crossing_example : (e : Edge) × ((sample small_hashes config four).1 ≡ ok (e, zero_ret))
sample_no_crossing_example =
    sample_no_crossing small_hashes decimals config config-IsConfig first_four 4
      ((0, 1) ∷ (2, 1) ∷ (3, 2) ∷ [])
      ((omega arith, omega arith), ((omega arith, omega arith), ((omega arith, omega arith), tt)))
      four (fed (streams_of small_hashes first_four 4 0 (both path))).1
      (fed (streams_of small_hashes first_four 4 0 (both path))).2 none_crosses
