-- ===== src/Workers.antt =====
-- src/graph_worker.cpp and include/graph_worker.h: the threads that apply batches to a graph, and how
-- the thread that owns the graph starts, pauses, resumes and stops them.
pub mod Guttering
pub mod Threads
pub mod System
pub mod Invariant
pub mod Pausing
pub mod Progress
pub mod LostWakeup
pub mod Exclusion
