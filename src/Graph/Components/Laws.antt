-- ===== src/Graph/Components/Laws.antt =====
-- A query for the connected components ends.
use hyper_graph_streaming_cc.Prelude.{ℕ, ◌<◌, ◌≡◌, refl, List, some, Bool, true, false}
use hyper_graph_streaming_cc.Platform.{Platform, Doubles}
use hyper_graph_streaming_cc.Exceptions.{Result}
use hyper_graph_streaming_cc.Sketch.Defs.{Config}
use hyper_graph_streaming_cc.Graph.State.{Graph}
use hyper_graph_streaming_cc.Graph.Rounds.Unused.{total_unused}
use hyper_graph_streaming_cc.Graph.Rounds.Termination.{rounds_total}
use hyper_graph_streaming_cc.Graph.Components.{
  resume_after, start_rounds, finish_rounds, boruvka_emulation, connected_components,
}

module _ (p : Platform) (d : Doubles) (cfg : Config) (fuel : ℕ) (g : Graph)
    (enough : total_unused g.supernodes < fuel) where
  boruvka_emulation_total :
      (make_copy : Bool)
      → (r : Graph × Result (List (List ℕ))) × (boruvka_emulation p d cfg fuel make_copy g ≡ some r)
  unfolding boruvka_emulation start_rounds
  boruvka_emulation_total make_copy =
      let (end, e) = rounds_total p cfg fuel make_copy (start_rounds p d cfg g) enough in
      (finish_rounds p d cfg make_copy end.0 end.1, rw (e, boruvka_emulation) refl)

  -- With one unit of fuel more than there are sketches left to query in all supernodes, a query for
  -- the components ends: it returns the components, throws an exception, ends the process, or takes a
  -- step without a meaning.
  pub connected_components_total :
      (cont : Bool)
      → (r : Graph × Result (List (List ℕ))) × (connected_components p d cfg fuel cont g ≡ some r)
  unfolding connected_components
  connected_components_total true =
      let (r, e) = boruvka_emulation_total true in
      ((resume_after r.0 r.1, r.1), rw (e, connected_components) refl)
  connected_components_total false = boruvka_emulation_total false
