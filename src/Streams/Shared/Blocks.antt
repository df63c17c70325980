-- ===== src/Streams/Shared/Blocks.antt =====
-- Blocks of whole edges in the file of a stream.
use mathlib.Core.List.{append_assoc}
use hyper_graph_streaming_cc.Prelude.{
  ℕ, zero, suc, ◌+◌, ◌*◌, ◌≡◌, refl, ap, ◌∙◌, List, [], ◌∷◌, ◌++◌, arith, some, length, take, drop,
  length-append,
}
use hyper_graph_streaming_cc.Prelude.Blocks.{take_over, drop_all, drop-append, drop-drop, take_all}
use hyper_graph_streaming_cc.Bytes.{to_bytes}
use hyper_graph_streaming_cc.Bytes.Laws.{from_bytes-to_bytes}
use hyper_graph_streaming_cc.Supernode.Defs.{Edge}
use hyper_graph_streaming_cc.Streams.{edge_size}
use hyper_graph_streaming_cc.Streams.Reader.{
  encode_edge, encode_edges, EdgeFits, length-encode_edge, update_type-found,
}
use hyper_graph_streaming_cc.Streams.Shared.{decode_edge}

pub decode_edge-encode_edge :
    (e : Edge × ℕ) (after : List ℕ) → EdgeFits e → decode_edge (encode_edge e ++ after) ≡ some e
unfolding decode_edge encode_edge
decode_edge-encode_edge e after fits =
    let u = to_bytes 1 e.1 in
    let a = to_bytes 4 e.0.0 in
    let b = to_bytes 4 e.0.1 in
    let split : encode_edge e ++ after ≡ u ++ (a ++ (b ++ after)) =
      append_assoc u (a ++ b) after ∙ ap (λ r. u ++ r) (append_assoc a b after) in
    rw (split, decode_edge)
      (rw (from_bytes-to_bytes 1 e.1 (a ++ (b ++ after)) (omega arith)) (
        rw (update_type-found e.1 fits.0) (
          rw (from_bytes-to_bytes 4 e.0.0 (b ++ after) fits.1)
            (rw (from_bytes-to_bytes 4 e.0.1 after fits.2) refl))))

pub length-encode_edges : (es : List (Edge × ℕ)) → length (encode_edges es) ≡ length es * edge_size
unfolding encode_edges
length-encode_edges [] = omega arith
length-encode_edges (e ∷ es) = omega (
  arith,
  length-append (encode_edge e) (encode_edges es),
  length-encode_edge e,
  length-encode_edges es,
)

next_block : (k : ℕ) (e : Edge × ℕ) → suc k * edge_size ≡ length (encode_edge e) + k * edge_size
next_block k e = omega (arith, length-encode_edge e)

-- `k` edges further on in the file.
pub drop-encode_edges :
    (k : ℕ) (es : List (Edge × ℕ))
    → drop (k * edge_size) (encode_edges es) ≡ encode_edges (drop k es)
unfolding encode_edges
drop-encode_edges zero es = refl
drop-encode_edges (suc k) [] = drop_all (suc k * edge_size) [] (omega arith)
drop-encode_edges (suc k) (e ∷ es) =
    let rest = encode_edges es in
    ap (λ n. drop n (encode_edge e ++ rest)) (next_block k e)
    ∙ drop-drop (length (encode_edge e)) (k * edge_size) (encode_edge e ++ rest)
    ∙ ap (drop (k * edge_size)) (drop-append (encode_edge e) rest)
    ∙ drop-encode_edges k es

-- The first `k` edges.
pub take-encode_edges :
    (k : ℕ) (es : List (Edge × ℕ))
    → take (k * edge_size) (encode_edges es) ≡ encode_edges (take k es)
unfolding encode_edges
take-encode_edges zero es = refl
take-encode_edges (suc k) [] = take_all (suc k * edge_size) [] (omega arith)
take-encode_edges (suc k) (e ∷ es) =
    let rest = encode_edges es in
    ap (λ n. take n (encode_edge e ++ rest)) (next_block k e)
    ∙ take_over (k * edge_size) (encode_edge e) rest
    ∙ ap (λ r. encode_edge e ++ r) (take-encode_edges k es)
