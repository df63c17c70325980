-- ===== src/Graph.antt =====
-- src/graph.cpp and include/graph.h: the class `Graph`. Its vertices keep supernodes, its edges
-- arrive in batches, and connected components come from rounds of sampling and merging.
pub mod State
pub mod Update
pub mod Plan
pub mod Rounds
pub mod Components
pub mod Crossing
