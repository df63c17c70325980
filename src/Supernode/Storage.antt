-- ===== src/Supernode/Storage.antt =====
-- A supernode that was written is read back.
use mathlib.Core.List.{append_assoc}
use hyper_graph_streaming_cc.Prelude.{
  ℕ, zero, suc, ◌+◌, ◌≡◌, refl, ap, ◌∙◌, sym, subst, List, [], ◌∷◌, ◌++◌, map, some, ◌<◌, replicate,
  arith,
}
use native.Mathlib.Nat.{one-le-pow}
use hyper_graph_streaming_cc.Bytes.Laws.{AllBelow}
use hyper_graph_streaming_cc.Sketch.Sizes.{make_sketch-IsSized}
use hyper_graph_streaming_cc.Platform.{Platform, Doubles}
use hyper_graph_streaming_cc.Util.{u64}
use hyper_graph_streaming_cc.Sketch.Defs.{Config, Sketch, copy_sketch, make_sketch}
use hyper_graph_streaming_cc.Sketch.Io
use hyper_graph_streaming_cc.Sketch.Io.{read_sketch}
use hyper_graph_streaming_cc.Sketch.Storage.{IsStorable, read_sketch-write_binary}
use hyper_graph_streaming_cc.Supernode.Defs.{
  Supernode, sketch_width, sketches_for, read_sketches, read_supernode, write_sketches,
  write_binary, seeds_from, make_sketches, make_supernode,
}

module _ (p : Platform) (cfg : Config) where
  -- Storable sketches, one for each seed.
  abbrev pub AllStorable : List ℕ → List Sketch → Type 0
  AllStorable [] [] = Unit {0}
  AllStorable [] (s ∷ ss) = ⊥
  AllStorable (seed ∷ seeds) [] = ⊥
  AllStorable (seed ∷ seeds) (s ∷ ss) =
      ((s.seed ≡ seed) × IsStorable p cfg s) × AllStorable seeds ss

  read_sketches-suc :
      (width count seed : ℕ) (file more rest : List ℕ) (s : Sketch) (ss : List Sketch)
      → read_sketch p cfg seed file ≡ some (s, more)
      → read_sketches p cfg width count (u64 (seed + width)) more ≡ some (ss, rest)
      → read_sketches p cfg width (suc count) seed file ≡ some (s ∷ ss, rest)
  unfolding read_sketches
  read_sketches-suc width count seed file more rest s ss e e' = rw (e, read_sketches) (rw e' refl)

  read_sketches-write_sketches :
      (width count seed : ℕ) (ss : List Sketch) (rest : List ℕ)
      → AllStorable (seeds_from width count seed) ss
      → read_sketches p cfg width count seed (write_sketches p cfg ss ++ rest)
        ≡ some (map (copy_sketch cfg) ss, rest)
  unfolding read_sketches write_sketches seeds_from
  read_sketches-write_sketches width zero seed [] rest h = refl
  read_sketches-write_sketches width zero seed (s ∷ ss) rest h = absurd h
  read_sketches-write_sketches width (suc count) seed [] rest h = absurd h
  read_sketches-write_sketches width (suc count) seed (s ∷ ss) rest h =
      let more = write_sketches p cfg ss ++ rest in
      let split = append_assoc (Io.write_binary p cfg s) (write_sketches p cfg ss) rest in
      let head =
        subst
          (λ k.
            read_sketch p cfg k (Io.write_binary p cfg s ++ more) ≡ some (copy_sketch cfg s, more))
          h.0.0 (read_sketch-write_binary p cfg s more h.0.1) in
      ap (read_sketches p cfg width (suc count) seed) split
      ∙ read_sketches-suc width count seed (Io.write_binary p cfg s ++ more) more rest
          (copy_sketch cfg s) (map (copy_sketch cfg) ss) head
          (read_sketches-write_sketches width count (u64 (seed + width)) ss rest h.1)

module _ (p : Platform) (d : Doubles) (cfg : Config) where
  -- A supernode of a graph with `n` vertices and the given seed, with storable sketches.
  pub record IsStored (n seed : ℕ) (s : Supernode) : Type 0 where
    pub size : s.n ≡ n
    pub sketch_count : s.num_sketches ≡ sketches_for d n
    pub same_seed : s.seed ≡ seed
    pub storable :
        AllStorable p cfg (seeds_from (sketch_width d cfg) (sketches_for d n) seed) s.sketches

  -- What is kept of a supernode in a file: all but the query state.
  abbrev pub stored : Supernode → Supernode
  stored s = record s { idx = 0; sketches = map (copy_sketch cfg) s.sketches }

  read_supernode-found :
      (n seed : ℕ) (file rest : List ℕ) (ss : List Sketch)
      → read_sketches p cfg (sketch_width d cfg) (sketches_for d n) seed file ≡ some (ss, rest)
      → read_supernode p cfg d n seed file
        ≡ some (
          record { idx = 0; num_sketches = sketches_for d n; n = n; seed = seed; sketches = ss },
          rest,
        )
  unfolding read_supernode
  read_supernode-found n seed file rest ss e = rw (e, read_supernode) refl

  -- If a supernode belongs to a graph with `n` vertices and the seed, and its sketches are storable,
  -- reading what was written gives the supernode with a fresh query state, and the rest of the stream.
  pub read_supernode-write_binary :
      (n seed : ℕ) (s : Supernode) (rest : List ℕ)
      → IsStored n seed s
      → read_supernode p cfg d n seed (write_binary p cfg s ++ rest) ≡ some (stored s, rest)
  unfolding write_binary
  read_supernode-write_binary n seed s rest h =
      read_supernode-found n seed (write_sketches p cfg s.sketches ++ rest) rest
        (map (copy_sketch cfg) s.sketches)
        (read_sketches-write_sketches p cfg (sketch_width d cfg) (sketches_for d n) seed s.sketches
          rest h.storable)
      ∙ (λ i. some (
        record s {
          idx = 0;
          num_sketches = sym h.sketch_count i;
          n = sym h.size i;
          seed = sym h.same_seed i;
          sketches = map (copy_sketch cfg) s.sketches;
        },
        rest,
      ))

zeros-AllBelow : (m n : ℕ) → 0 < m → AllBelow m (replicate n 0)
zeros-AllBelow m zero h = tt
zeros-AllBelow m (suc n) h = (h, zeros-AllBelow m n h)

module _ (p : Platform) (cfg : Config) where
  seed-make_sketch : (seed : ℕ) → (make_sketch cfg seed).seed ≡ seed
  unfolding make_sketch
  seed-make_sketch seed = refl

  make_sketch-IsStorable : (seed : ℕ) → IsStorable p cfg (make_sketch cfg seed)
  unfolding make_sketch
  make_sketch-IsStorable seed = record {
    sized = make_sketch-IsSized cfg seed;
    values = zeros-AllBelow _ cfg.num_elems (omega (arith, one-le-pow p.sizeof_vec 256));
    checksums = zeros-AllBelow _ cfg.num_elems (omega (arith, one-le-pow p.sizeof_vec_hash 256));
  }

  make_sketches-AllStorable :
      (width count seed : ℕ)
      → AllStorable p cfg (seeds_from width count seed) (make_sketches cfg width count seed)
  unfolding seeds_from make_sketches
  make_sketches-AllStorable width zero seed = tt
  make_sketches-AllStorable width (suc count) seed = (
    (seed-make_sketch seed, make_sketch-IsStorable seed),
    make_sketches-AllStorable width count (u64 (seed + width)),
  )

  -- A new supernode may be written.
  pub make_supernode-IsStored :
      (d : Doubles) (n seed : ℕ) → IsStored p d cfg n seed (make_supernode cfg d n seed)
  unfolding make_supernode
  make_supernode-IsStored d n seed = record {
    size = refl;
    sketch_count = refl;
    same_seed = refl;
    storable = make_sketches-AllStorable (sketch_width d cfg) (sketches_for d n) seed;
  }
