-- ===== src/Tests/Sketches.antt =====
-- The theorems on sketches at concrete streams.
use hyper_graph_streaming_cc.Prelude.{ℕ, ◌≡◌, refl, List, [], ◌∷◌, some, arith, ◌⊎◌}
use hyper_graph_streaming_cc.Arrays.Cells.{count}
use hyper_graph_streaming_cc.Exceptions.{ok}
use hyper_graph_streaming_cc.Sketch.Defs.{
  good, zero_ret, make_sketch, batch_update, add_assign, bucket_id,
}
use hyper_graph_streaming_cc.Sketch.Query.{query}
use hyper_graph_streaming_cc.Sketch.Sizes.{make_sketch-IsSized}
use hyper_graph_streaming_cc.Sketch.Parity.{SameParity, batch_update_parity}
use hyper_graph_streaming_cc.Sketch.Batch.{add_assign-batch_update}
use hyper_graph_streaming_cc.Bytes.{to_bytes}
use hyper_graph_streaming_cc.Bucket.{contains, col_index_hash}
use hyper_graph_streaming_cc.Sketch.Places.{belongs, zero_bits}
use hyper_graph_streaming_cc.Sketch.Contents.{select, Holds, sketch_of, sketch_of-Holds}
use hyper_graph_streaming_cc.Sketch.Answers.{Answer, query_lem}
use hyper_graph_streaming_cc.Sketch.Samples.{query_answers}
use hyper_graph_streaming_cc.Tests.Data.{small_hashes, small_sketch, small_sketch-IsConfig}

-- 6 comes, goes and 9 stays.
abbrev mixed_stream : List ℕ
mixed_stream = 6 ∷ 9 ∷ 6 ∷ []

pub mixed_stream_parity : SameParity (6 ∷ 9 ∷ 6 ∷ []) (9 ∷ [])
unfolding count
mixed_stream_parity k = ground arith

empty_parity : SameParity (6 ∷ 6 ∷ []) []
unfolding count
empty_parity k = ground arith

batch_update_parity_example :
    batch_update small_hashes small_sketch mixed_stream (make_sketch small_sketch 5)
    ≡ batch_update small_hashes small_sketch (9 ∷ []) (make_sketch small_sketch 5)
batch_update_parity_example =
    batch_update_parity small_hashes small_sketch (6 ∷ 9 ∷ 6 ∷ []) (9 ∷ [])
      (make_sketch small_sketch 5) mixed_stream_parity

add_assign-batch_update_example :
    add_assign small_sketch (make_sketch small_sketch 5) (
      batch_update small_hashes small_sketch mixed_stream
        (make_sketch small_sketch (make_sketch small_sketch 5).seed))
    ≡ some (batch_update small_hashes small_sketch mixed_stream (make_sketch small_sketch 5))
add_assign-batch_update_example =
    add_assign-batch_update small_hashes small_sketch (6 ∷ 9 ∷ 6 ∷ []) (make_sketch small_sketch 5)
      (make_sketch-IsSized small_sketch 5)

sketch_of-Holds_example :
    Holds small_hashes
      (sketch_of small_hashes small_sketch 5 mixed_stream)
      (bucket_id small_sketch 1 0)
      (select (belongs small_hashes 5 1 0) mixed_stream)
sketch_of-Holds_example =
    sketch_of-Holds small_hashes small_sketch small_sketch-IsConfig 5 (6 ∷ 9 ∷ 6 ∷ []) 1 0
      (omega arith) (omega arith)

query_lem_example :
    Answer small_hashes small_sketch
      (make_sketch small_sketch 5)
      (query small_hashes small_sketch (make_sketch small_sketch 5)).1
unfolding make_sketch
query_lem_example =
    query_lem small_hashes small_sketch (make_sketch small_sketch 5) (omega arith) refl

-- Bucket 0 of column 0 takes 9 and not 6.
one_selected : select (belongs small_hashes 5 0 0) (6 ∷ 9 ∷ []) ≡ 9 ∷ []
unfolding select belongs zero_bits contains col_index_hash to_bytes
one_selected = refl

query_answers_example :
    ((query small_hashes small_sketch (sketch_of small_hashes small_sketch 5 (6 ∷ 9 ∷ []))).1
      ≡ ok (0, zero_ret))
    ⊎ ((v : ℕ) × ((query small_hashes small_sketch
            (sketch_of small_hashes small_sketch 5 (6 ∷ 9 ∷ []))).1
          ≡ ok (v, good)))
query_answers_example =
    query_answers small_hashes small_sketch small_sketch-IsConfig 5 (6 ∷ 9 ∷ []) (6 ∷ 9 ∷ []) 9 0 0
      (λ k. refl) (omega arith) (omega arith) (omega arith) one_selected
