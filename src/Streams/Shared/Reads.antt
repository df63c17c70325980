-- ===== src/Streams/Shared/Reads.antt =====
-- One call of `get_edge`, where reads from the file are never cut short.
use mathlib.Core.List.{append_assoc}
use hyper_graph_streaming_cc.Prelude.{
  ℕ, suc, ◌+◌, ◌*◌, ◌^◌, ◌<◌, ◌≤◌, ◌≡◌, ◌⊎◌, refl, ap, ◌∙◌, subst, List, ◌∷◌, true, false, ◌&&◌,
  ◌++◌, arith, some, length, take, drop, ltb, leb, inl, inr,
}
use hyper_graph_streaming_cc.Prelude.Blocks.{
  drop-append, drop-drop, length-take, take_all, length-drop,
}
use hyper_graph_streaming_cc.Util.{u32, u64}
use hyper_graph_streaming_cc.Supernode.Defs.{Edge}
use hyper_graph_streaming_cc.Streams.{edge_size}
use hyper_graph_streaming_cc.Streams.Reader.{
  encode_edge, encode_edges, EdgeFits, length-encode_edge,
}
use hyper_graph_streaming_cc.Streams.Shared.{
  BinaryGraphStreamMt, MtStreamReader, read_loop, read_data_mt, next_edge,
}
use hyper_graph_streaming_cc.Streams.Shared.Blocks.{
  decode_edge-encode_edge, length-encode_edges, drop-encode_edges, take-encode_edges,
}

-- A read gives all the bytes asked for that the file has.
abbrev pub ReadsFully : (List ℕ → ℕ → ℕ → List ℕ) → Type 0
ReadsFully pread =
    (file : List ℕ) (count off : ℕ) → pread file count off ≡ take count (drop off file)

-- The file holds a header and the edges `es`, buffers hold `q` edges, and `k` buffers were given out.
pub record Describes (es : List (Edge × ℕ)) (q k : ℕ) (st : BinaryGraphStreamMt) : Type 0 where
  pub header : List ℕ
  pub header_size : length header ≡ 12
  pub file : st.stream_fd ≡ header ++ encode_edges es
  pub size : st.buf_size ≡ q * edge_size
  pub some_room : 0 < q
  pub small : q * edge_size < 2 ^ 32
  pub end : st.end_of_file ≡ length es * edge_size + 12
  pub offset : st.stream_off ≡ 12 + k * q * edge_size

-- The reader has the edges `l` before it in its buffer.
pub record Ahead (q : ℕ) (r : MtStreamReader) (l : List (Edge × ℕ)) : Type 0 where
  pub room : length r.buf ≡ q * edge_size
  pub fill : r.data_in_buf ≡ r.pos + length l * edge_size
  pub tail : List ℕ
  pub bytes : drop r.pos r.buf ≡ encode_edges l ++ tail

abbrev pub moved : BinaryGraphStreamMt → BinaryGraphStreamMt
moved st = record st { stream_off = u64 (st.stream_off + st.buf_size) }

pub length-block :
    (q : ℕ) (xs : List (Edge × ℕ))
    → (length (take q xs) ≡ q) ⊎ ((length (take q xs) ≡ length xs) × (length xs ≤ q))
length-block q xs = elim (le_cases q (length xs)) [
  | inl enough ↦ inl (length-take q xs enough)
  | inr few ↦ inr (ap length (take_all q xs few), few)
]
  where
    le_cases : (m n : ℕ) → (m ≤ n) ⊎ (n ≤ m)
    le_cases m n = ground arith

pub block-le : (q : ℕ) (xs : List (Edge × ℕ)) → length (take q xs) ≤ q
block-le q xs = elim (length-block q xs) [ inl e ↦ omega arith | inr (e, few) ↦ omega arith ]

module _ (pread : List ℕ → ℕ → ℕ → List ℕ) (full : ReadsFully pread) where
  -- What a read at the offset gives: the next block of edges.
  block_read :
      (es : List (Edge × ℕ)) (q k : ℕ) (st : BinaryGraphStreamMt)
      → Describes es q k st
      → pread st.stream_fd st.buf_size (st.stream_off + 0) ≡ encode_edges (take q (drop (k * q) es))
  block_read es q k st h =
      full st.stream_fd st.buf_size (st.stream_off + 0)
      ∙ ap (λ n. take n (drop (st.stream_off + 0) st.stream_fd)) h.size
      ∙ ap (take (q * edge_size)) (
          ap (drop (st.stream_off + 0)) h.file
          ∙ ap (λ n. drop n (h.header ++ encode_edges es)) place
          ∙ drop-drop (length h.header) (k * q * edge_size) (h.header ++ encode_edges es)
          ∙ ap (drop (k * q * edge_size)) (drop-append h.header (encode_edges es))
          ∙ drop-encode_edges (k * q) es)
      ∙ take-encode_edges q (drop (k * q) es)
    where
      place : st.stream_off + 0 ≡ length h.header + k * q * edge_size
      place = omega (arith, h.offset, h.header_size)

  read_loop-more :
      (fuel : ℕ) (st : BinaryGraphStreamMt) (off done : ℕ) (buf block : List ℕ)
      → pread st.stream_fd st.buf_size (off + done) ≡ block
      → (ltb done st.buf_size && ltb (off + done) st.end_of_file) ≡ true
      → read_loop pread (suc fuel) st off done buf
        ≡ read_loop pread fuel st off (done + length block) (block ++ drop (length block) buf)
  unfolding read_loop
  read_loop-more fuel st off done buf block e h =
      rw h (ap (λ b. read_loop pread fuel st off (done + length b) (b ++ drop (length b) buf)) e)

  read_loop-done :
      (fuel : ℕ) (st : BinaryGraphStreamMt) (off done : ℕ) (buf : List ℕ)
      → (ltb done st.buf_size && ltb (off + done) st.end_of_file) ≡ false
      → read_loop pread (suc fuel) st off done buf ≡ some (done, buf)
  unfolding read_loop
  read_loop-done fuel st off done buf h = rw h refl

  read_loop-found :
      (fuel : ℕ) (es : List (Edge × ℕ)) (q k : ℕ) (st : BinaryGraphStreamMt) (buf : List ℕ)
      → Describes es q k st
      → k * q < length es
      → read_loop pread (suc (suc fuel)) st st.stream_off 0 buf
        ≡ some (
          length (take q (drop (k * q) es)) * edge_size,
          encode_edges (take q (drop (k * q) es))
              ++ drop (length (take q (drop (k * q) es)) * edge_size) buf,
        )
  read_loop-found fuel es q k st buf h lt =
      let block = take q (drop (k * q) es) in
      let bytes = encode_edges block in
      let size = length-encode_edges block in
      let total_size : 0 + length bytes ≡ length block * edge_size = omega (arith, size) in
      read_loop-more (suc fuel) st st.stream_off 0 buf bytes (block_read es q k st h)
        (ground (arith, h.size, h.some_room, h.end, h.offset))
      ∙ read_loop-done fuel st st.stream_off (0 + length bytes) (bytes ++ drop (length bytes) buf)
          (full_block block (length-block q (drop (k * q) es)) size)
      ∙ ap (λ n. some (n, bytes ++ drop (length bytes) buf)) total_size
      ∙ ap (λ n. some (length block * edge_size, bytes ++ drop n buf)) size
    where
      full_block :
          (block : List (Edge × ℕ))
          → (length block ≡ q)
            ⊎ ((length block ≡ length (drop (k * q) es)) × (length (drop (k * q) es) ≤ q))
          → length (encode_edges block) ≡ length block * edge_size
          → (ltb (0 + length (encode_edges block)) st.buf_size
              && ltb (st.stream_off + (0 + length (encode_edges block))) st.end_of_file)
            ≡ false
      full_block block (inl e) size = ground (arith, h.size)
      full_block block (inr (e, few)) size =
          ground (arith, h.size, h.end, h.offset, length-drop (k * q) es)

  -- A call at the end of the file gives nothing.
  pub read_data_mt-end :
      (fuel : ℕ) (es : List (Edge × ℕ)) (q k : ℕ) (st : BinaryGraphStreamMt) (buf : List ℕ)
      → Describes es q k st
      → length es ≤ k * q
      → read_data_mt pread fuel buf st ≡ some (0, buf, moved st)
  unfolding read_data_mt
  read_data_mt-end fuel es q k st buf h le =
      let past : leb st.end_of_file st.stream_off ≡ true = ground (arith, h.end, h.offset) in
      rw past refl

  -- Any other call gives the next block of edges.
  pub read_data_mt-found :
      (fuel : ℕ) (es : List (Edge × ℕ)) (q k : ℕ) (st : BinaryGraphStreamMt) (buf : List ℕ)
      → Describes es q k st
      → k * q < length es
      → read_data_mt pread (suc (suc fuel)) buf st
        ≡ some (
          length (take q (drop (k * q) es)) * edge_size,
          encode_edges (take q (drop (k * q) es))
              ++ drop (length (take q (drop (k * q) es)) * edge_size) buf,
          moved st,
        )
  unfolding read_data_mt
  read_data_mt-found fuel es q k st buf h lt =
      let before : leb st.end_of_file st.stream_off ≡ false = ground (arith, h.end, h.offset) in
      let count = length (take q (drop (k * q) es)) * edge_size in
      let fits : u32 count ≡ count = omega (arith, h.small, block-le q (drop (k * q) es)) in
      rw before (
        rw (read_loop-found fuel es q k st buf h lt, read_data_mt)
          (ap (λ n. some (n, encode_edges (take q (drop (k * q) es)) ++ drop count buf, moved st))
            fits))

  pub next_edge-Ahead :
      (q : ℕ) (st : BinaryGraphStreamMt) (r : MtStreamReader) (e : Edge × ℕ) (l : List (Edge × ℕ))
      → EdgeFits e
      → Ahead q r (e ∷ l)
      → (next_edge pread st r ≡ some (e, record r { pos = r.pos + edge_size }, st))
        × Ahead q (record r { pos = r.pos + edge_size }) l
  unfolding next_edge encode_edges
  next_edge-Ahead q st r e l fit h =
      let here : drop r.pos r.buf ≡ encode_edge e ++ (encode_edges l ++ h.tail) =
        h.bytes ∙ append_assoc (encode_edge e) (encode_edges l) h.tail in
      (
        rw (here, next_edge) (rw (decode_edge-encode_edge e (encode_edges l ++ h.tail) fit) refl),
        record {
          room = h.room;
          fill = omega (arith, h.fill);
          tail = h.tail;
          bytes =
              drop-drop r.pos edge_size r.buf
              ∙ ap (drop edge_size) here
              ∙ subst
                  (λ n.
                    drop n (encode_edge e ++ (encode_edges l ++ h.tail)) ≡ encode_edges l ++ h.tail)
                  (length-encode_edge e) (drop-append (encode_edge e) (encode_edges l ++ h.tail));
        },
      )

  pub moved-Describes :
      (es : List (Edge × ℕ)) (q k : ℕ) (st : BinaryGraphStreamMt)
      → Describes es q k st
      → 12 + suc k * q * edge_size < 2 ^ 64
      → Describes es q (suc k) (moved st)
  moved-Describes es q k st h small = record {
    header = h.header;
    header_size = h.header_size;
    file = h.file;
    size = h.size;
    some_room = h.some_room;
    small = h.small;
    end = h.end;
    offset =
        let more : suc k * q ≡ k * q + q = grind arith in
        omega (arith, h.offset, h.size, small, more);
  }
