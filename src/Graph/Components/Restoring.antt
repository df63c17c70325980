-- ===== src/Graph/Components/Restoring.antt =====
-- What a query that goes on with the stream puts back in `Graph::boruvka_emulation` and
-- `Graph::connected_components` (src/graph.cpp), with the copies in memory.
pub mod Distinct
pub mod Saved
pub mod Merges
pub mod Rounds
pub mod Runs
pub mod PutBack
pub mod Finish
pub mod Laws
