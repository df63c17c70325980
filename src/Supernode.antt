-- ===== src/Supernode.antt =====
-- src/supernode.cpp and include/supernode.h: the class `Supernode`, the sketches of one vertex.
-- The sketches behind `sketch_buffer` are a list; the sizes in bytes are not modelled, nor is the
-- mutex, which `apply_delta_update` holds for its whole loop.
pub mod Defs
pub mod Seeds
pub mod Represents
pub mod Sampling
pub mod Streams
pub mod Reset
pub mod Storage
