-- ===== src/Graph/Crossing.antt =====
-- What a component's supernode samples: the edge that leaves the component.
use hyper_graph_streaming_cc.Prelude.{
  ℕ, ◌^◌, ◌<◌, ◌≡◌, ◌≢◌, refl, ap, ◌∙◌, List, [], ◌∷◌, arith, Bool, ltb, Bool-cases, inl, inr,
}
use hyper_graph_streaming_cc.Platform.{Platform, IsDocumented, Doubles}
use hyper_graph_streaming_cc.Exceptions.{ok}
use hyper_graph_streaming_cc.Util.{
  nondirectional_non_self_edge_pairing_fn, inv_nondir_non_self_edge_pairing_fn,
}
use hyper_graph_streaming_cc.Util.Pairing.{
  ordered, pairing_fn_sum, pairing_fn_symm, inv_pairing_fn-pairing_fn,
}
use hyper_graph_streaming_cc.Sketch.Defs.{Config, good, zero_ret}
use hyper_graph_streaming_cc.Sketch.Places.{IsConfig}
use hyper_graph_streaming_cc.Sketch.Parity.{SameParity}
use hyper_graph_streaming_cc.Supernode.Defs.{Edge, Supernode, sample}
use hyper_graph_streaming_cc.Supernode.Represents.{Represents}
use hyper_graph_streaming_cc.Supernode.Streams.{sample_single, sample_empty}
use hyper_graph_streaming_cc.Graph.Update.{edge_code}
use hyper_graph_streaming_cc.Graph.Update.Cut.{both, streams_of, cut, cut_parity, InRange}

edge_code-pairing_fn :
    (p : Platform)
    → IsDocumented p
    → (u v : ℕ) → u < 2 ^ 32
    → v < 2 ^ 32
    → edge_code p u v ≡ nondirectional_non_self_edge_pairing_fn p u v
unfolding edge_code
edge_code-pairing_fn p doc u v hu hv = elim (Bool-cases (ltb u v)) [
  | inl e ↦ rw e refl
  | inr e ↦ rw e (pairing_fn_symm p doc v u hv hu)
]

module _ (p : Platform) (d : Doubles) (cfg : Config) (wf : IsConfig cfg) (inside : ℕ → Bool) (n : ℕ)
    (es : List Edge) (in_range : InRange n es) (s : Supernode) (left : s.idx < s.num_sketches)
    (h : Represents p d cfg s (streams_of p inside n 0 (both es))) where
  -- Let a configuration be as `configure` makes it, and let a supernode with a sketch left represent
  -- the streams of a set of the first `n` vertices, after updates of edges among them. If the updates
  -- leave, modulo 2, one edge with one end in the set, between `u` and `v`, two different 32-bit ids
  -- on a platform with 32-bit ids, then the sample is that edge, the smaller end first, and GOOD.
  pub sample_crossing :
      IsDocumented p
      → (u v : ℕ) → u < 2 ^ 32
      → v < 2 ^ 32
      → u ≢ v
      → SameParity (cut p inside es) (edge_code p u v ∷ [])
      → (sample p cfg s).1 ≡ ok (ordered u v, good)
  sample_crossing doc u v hu hv ne crossing =
      let code = edge_code-pairing_fn p doc u v hu hv in
      let nonzero : edge_code p u v ≢ 0 =
        λ z. absurd (ground (arith, code, pairing_fn_sum p doc u v hu hv)) in
      sample_single p d cfg s (streams_of p inside n 0 (both es)) left h wf (edge_code p u v)
        (λ y. cut_parity p inside n es in_range y ∙ crossing y) nonzero
      ∙ ap (λ t. ok (inv_nondir_non_self_edge_pairing_fn p t, good)) code
      ∙ ap (λ t. ok (t, good)) (inv_pairing_fn-pairing_fn p doc u v hu hv)

  -- Let a configuration be as `configure` makes it, and let a supernode with a sketch left represent
  -- the streams of a set of the first `n` vertices, after updates of edges among them. If the updates
  -- leave, modulo 2, no edge with one end in the set, then the sample is ZERO.
  pub sample_no_crossing :
      SameParity (cut p inside es) [] → (e : Edge) × ((sample p cfg s).1 ≡ ok (e, zero_ret))
  sample_no_crossing none_left =
      sample_empty p d cfg s (streams_of p inside n 0 (both es)) left h wf
        (λ y. cut_parity p inside n es in_range y ∙ none_left y)
