-- ===== src/Workers/Invariant.antt =====
-- What holds in every state that the worker threads and the calling thread can reach.
pub mod Defs
pub mod Places
pub mod Streams
pub mod Moves
pub mod Calls
pub mod Runs
