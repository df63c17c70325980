-- ===== src/Streams/Reader.antt =====
-- One step of the reader: the edge at its place, and the buffer filled again when it is used up.
use mathlib.Core.List.{append_assoc, append-nil}
use hyper_graph_streaming_cc.Prelude.{
  ℕ, zero, suc, ◌+◌, ◌*◌, ◌/◌, ◌^◌, ◌<◌, ◌≤◌, ◌≡◌, refl, ap, ap₂, ◌∙◌, sym, subst, List, [], ◌∷◌,
  ◌++◌, arith, some, if◌then◌else◌, ◌==◌, ==_iff, Bool-cases, inl, inr, ◌⊎◌, length, take, drop,
  length-append,
}
use hyper_graph_streaming_cc.Prelude.Blocks.{
  take-drop, drop_all, length-drop, drop-drop, drop-append, drop_left, take_left, take-append,
  take_all, length-take,
}
use hyper_graph_streaming_cc.Bytes.{to_bytes}
use hyper_graph_streaming_cc.Bytes.Laws.{from_bytes-to_bytes}
use hyper_graph_streaming_cc.Supernode.Defs.{Edge}
use hyper_graph_streaming_cc.Streams.{
  BinaryGraphStream, edge_size, read_data, get_edge, update_type,
}

-- The form of an edge in the file.
unfoldable pub encode_edge : Edge × ℕ → List ℕ
encode_edge e = to_bytes 1 e.1 ++ (to_bytes 4 e.0.0 ++ to_bytes 4 e.0.1)

unfoldable pub encode_edges : List (Edge × ℕ) → List ℕ
unfolding encode_edge
encode_edges [] = []
encode_edges (e ∷ es) = encode_edge e ++ encode_edges es

-- An edge of 32-bit ids with a value of the type of updates.
abbrev pub EdgeFits : Edge × ℕ → Type 0
EdgeFits e = (e.1 < 4) × (e.0.0 < 256 ^ 4) × (e.0.1 < 256 ^ 4)

abbrev pub EdgesFit : List (Edge × ℕ) → Type 0
EdgesFit [] = Unit {0}
EdgesFit (e ∷ es) = EdgeFits e × EdgesFit es

le_cases : (m n : ℕ) → (m ≤ n) ⊎ (n ≤ m)
le_cases m n = ground arith

pub length-to_bytes : (w x : ℕ) → length (to_bytes w x) ≡ w
unfolding to_bytes
length-to_bytes zero x = refl
length-to_bytes (suc w) x = ap suc (length-to_bytes w (x / 256))

pub length-encode_edge : (e : Edge × ℕ) → length (encode_edge e) ≡ edge_size
unfolding encode_edge
length-encode_edge e = omega (
  arith,
  length-append (to_bytes 1 e.1) (to_bytes 4 e.0.0 ++ to_bytes 4 e.0.1),
  length-append (to_bytes 4 e.0.0) (to_bytes 4 e.0.1),
  length-to_bytes 1 e.1,
  length-to_bytes 4 e.0.0,
  length-to_bytes 4 e.0.1,
)

-- The reader stands before the edges `es`: what is left of the buffer and of the file begins with
-- them. The buffer holds whole edges, and is not used up.
pub record StandsBefore (st : BinaryGraphStream) (es : List (Edge × ℕ)) : Type 0 where
  pub blocks : ℕ
  pub size : st.buf_size ≡ blocks * edge_size
  pub full : length st.buf ≡ st.buf_size
  pub at : ℕ
  pub position : st.pos ≡ at * edge_size
  pub inside : at < blocks
  pub tail : List ℕ
  pub ahead : drop st.pos st.buf ++ st.bin_file ≡ encode_edges es ++ tail

abbrev pub advance : BinaryGraphStream → BinaryGraphStream
advance st =
    let moved = record st { pos = st.pos + edge_size } in
    if st.pos + edge_size == st.buf_size then read_data moved else moved

pub update_type-found : (u : ℕ) → u < 4 → update_type u ≡ some u
unfolding update_type
update_type-found u h = ground arith

pub get_edge-encode_edge :
    (st : BinaryGraphStream) (e : Edge × ℕ) (after : List ℕ)
    → EdgeFits e
    → drop st.pos st.buf ≡ encode_edge e ++ after
    → get_edge st ≡ some (e, advance st)
unfolding get_edge encode_edge
get_edge-encode_edge st e after fits here =
    let u = to_bytes 1 e.1 in
    let a = to_bytes 4 e.0.0 in
    let b = to_bytes 4 e.0.1 in
    let split : drop st.pos st.buf ≡ u ++ (a ++ (b ++ after)) =
      here ∙ append_assoc u (a ++ b) after ∙ ap (λ r. u ++ r) (append_assoc a b after) in
    rw (split, get_edge)
      (rw (from_bytes-to_bytes 1 e.1 (a ++ (b ++ after)) (omega arith)) (
        rw (update_type-found e.1 fits.0) (
          rw (from_bytes-to_bytes 4 e.0.0 (b ++ after) fits.1)
            (rw (from_bytes-to_bytes 4 e.0.1 after fits.2) refl))))

-- A buffer that was filled again holds what came next in the file.
read_data_lem :
    (st : BinaryGraphStream)
    → length st.buf ≡ st.buf_size
    → (tail : List ℕ) × ((read_data st).buf ++ (read_data st).bin_file ≡ st.bin_file ++ tail)
      × (length (read_data st).buf ≡ st.buf_size)
unfolding read_data
read_data_lem st full =
    let n = st.buf_size in
    let block = take n st.bin_file in
    elim (le_cases n (length st.bin_file)) [
      | inl fits ↦
          let size = length-take n st.bin_file fits in
          let none_left = drop_all (length block) st.buf (omega arith) in
          let whole : block ++ drop (length block) st.buf ≡ block =
            ap (λ r. block ++ r) none_left ∙ append-nil block in
          (
            [],
            ap (λ r. r ++ drop n st.bin_file) whole
                ∙ take-drop n st.bin_file
                ∙ sym (append-nil st.bin_file),
            ap length whole ∙ size,
          )
      | inr short ↦
          let all = take_all n st.bin_file short in
          let stale = drop (length block) st.buf in
          (
            stale,
            ap (λ r. (block ++ stale) ++ r) (drop_all n st.bin_file short)
                ∙ append-nil (block ++ stale)
                ∙ ap (λ r. r ++ stale) all,
            omega (
              arith,
              length-append block stale,
              length-drop (length block) st.buf,
              ap length all,
            ),
          )
    ]

pub read_data-StandsBefore :
    (st : BinaryGraphStream) (es : List (Edge × ℕ)) (blocks : ℕ) (tail : List ℕ)
    → length st.buf ≡ st.buf_size
    → st.buf_size ≡ blocks * edge_size
    → 0 < blocks
    → st.bin_file ≡ encode_edges es ++ tail
    → StandsBefore (read_data st) es
unfolding read_data
read_data-StandsBefore st es blocks tail full size some_blocks file =
    let (stale, filled, full') = read_data_lem st full in
    record {
      blocks = blocks;
      size = size;
      full = full';
      at = 0;
      position = omega arith;
      inside = some_blocks;
      tail = tail ++ stale;
      ahead = filled ∙ ap (λ r. r ++ stale) file ∙ append_assoc (encode_edges es) tail stale;
    }

pub advance-StandsBefore :
    (st : BinaryGraphStream) (e : Edge × ℕ) (es : List (Edge × ℕ))
    → (h : StandsBefore st (e ∷ es))
    → (drop st.pos st.buf ≡ encode_edge e ++ drop (st.pos + edge_size) st.buf)
      × StandsBefore (advance st) es
unfolding encode_edges
advance-StandsBefore st e es h =
    let here = drop st.pos st.buf in
    let room : edge_size ≤ length here =
      omega (arith, h.size, h.full, h.position, h.inside, length-drop st.pos st.buf) in
    let ahead : here ++ st.bin_file ≡ encode_edge e ++ (encode_edges es ++ h.tail) =
      h.ahead ∙ append_assoc (encode_edge e) (encode_edges es) h.tail in
    let first : take edge_size here ≡ encode_edge e =
      sym (take_left edge_size here st.bin_file room)
      ∙ ap (take edge_size) ahead
      ∙ subst (λ n. take n (encode_edge e ++ (encode_edges es ++ h.tail)) ≡ encode_edge e)
          (length-encode_edge e) (take-append (encode_edge e) (encode_edges es ++ h.tail)) in
    let rest : drop edge_size here ++ st.bin_file ≡ encode_edges es ++ h.tail =
      sym (drop_left edge_size here st.bin_file room)
      ∙ ap (drop edge_size) ahead
      ∙ subst
          (λ n. drop n (encode_edge e ++ (encode_edges es ++ h.tail)) ≡ encode_edges es ++ h.tail)
          (length-encode_edge e) (drop-append (encode_edge e) (encode_edges es ++ h.tail)) in
    let moved = drop-drop st.pos edge_size st.buf in
    let rest' : drop (st.pos + edge_size) st.buf ++ st.bin_file ≡ encode_edges es ++ h.tail =
      ap (λ r. r ++ st.bin_file) moved ∙ rest in
    (
      sym (take-drop edge_size here) ∙ ap₂ ◌++◌ first (sym moved),
      elim (Bool-cases (st.pos + edge_size == st.buf_size)) [
        | inl used_up ↦
            let next = record st { pos = st.pos + edge_size } in
            let end : drop (st.pos + edge_size) st.buf ≡ [] =
              drop_all (st.pos + edge_size) st.buf
                (omega (arith, (==_iff _ _).0 used_up, h.full)) in
            let file : st.bin_file ≡ encode_edges es ++ h.tail =
              sym (ap (λ r. r ++ st.bin_file) end) ∙ rest' in
            rw used_up (
              read_data-StandsBefore next es h.blocks h.tail h.full h.size (omega (arith, h.inside))
                file)
        | inr inside ↦ rw inside (record {
          blocks = h.blocks;
          size = h.size;
          full = h.full;
          at = suc h.at;
          position = omega (arith, h.position);
          inside = ground (arith, h.size, h.position, h.inside);
          tail = h.tail;
          ahead = rest';
        })
      ],
    )
