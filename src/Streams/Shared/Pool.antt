-- ===== src/Streams/Shared/Pool.antt =====
-- Threads that read one stream: each calls `get_edge` on a reader of its own until it is told that the
-- file ended, as the task of `BM_MTFileIngest` in tools/benchmark/graphcc_bench.cpp.
pub mod Tasks
pub mod Turns
pub mod Runs
pub mod Laws
use hyper_graph_streaming_cc.Prelude.{
  ℕ, zero, suc, List, [], ◌∷◌, ◌++◌, Bool, true, false, ◌&&◌, Option, none, some, if◌then◌else◌,
  ◌==◌, get_elem?, set, map,
}
use hyper_graph_streaming_cc.Supernode.Defs.{Edge}
use hyper_graph_streaming_cc.Streams.Shared.{
  BinaryGraphStreamMt, MtStreamReader, make_reader, get_edge_mt,
}

pub record Task : Type 0 where
  pub reader : MtStreamReader
  pub ended : Bool

abbrev pub start_task : List ℕ → Task
start_task memory = record { reader = make_reader memory; ended = false }

-- `got` has the edges that the calls returned, in the order of the calls.
pub record Pool : Type 0 where
  pub stream : BinaryGraphStreamMt
  pub tasks : List Task
  pub got : List (Edge × ℕ)

-- The loop's test on the edge that task `i` got.
unfoldable pub receive : ℕ → Edge × ℕ → MtStreamReader → BinaryGraphStreamMt → Pool → Pool
receive i e r st pool =
    if e.1 == 2
    then record pool { stream = st; tasks = set pool.tasks i (record { reader = r; ended = true }) }
    else (record pool {
      stream = st;
      tasks = set pool.tasks i (record { reader = r; ended = false });
      got = pool.got ++ e ∷ [];
    })

module _ (pread : List ℕ → ℕ → ℕ → List ℕ) (fuel : ℕ) where
  -- Task `i` makes its next call, if there is such a task and its loop has not ended.
  unfoldable pub turn : ℕ → Pool → Option Pool
  turn i pool = elim (get_elem? pool.tasks i) [
    | none ↦ some pool
    | some t ↦ if t.ended then some pool else (elim (get_edge_mt pread fuel pool.stream t.reader) [
      | none ↦ none
      | some (e, r, st) ↦ some (receive i e r st pool)
    ])
  ]

  -- The calls of the tasks in the order of a schedule.
  unfoldable pub run : List ℕ → Pool → Option Pool
  run [] pool = some pool
  run (i ∷ schedule) pool = elim (turn i pool) [ none ↦ none | some pool' ↦ run schedule pool' ]

unfoldable pub all_ended : List Task → Bool
all_ended [] = true
all_ended (t ∷ ts) = t.ended && all_ended ts
