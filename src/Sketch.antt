-- ===== src/Sketch.antt =====
-- src/l0_sampling/sketch.cpp and include/l0_sampling/sketch.h: the class `Sketch`.
-- The two arrays behind `buckets` are two lists. Printing by `operator<<` is not modelled.
pub mod Defs
pub mod Io
pub mod Query
pub mod Cells
pub mod Sum
pub mod Batch
pub mod Parity
pub mod Sizes
pub mod Places
pub mod Contents
pub mod Answers
pub mod Samples
pub mod Storage
