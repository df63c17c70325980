-- ===== src/Tests.antt =====
-- Concrete platforms, states and streams, and what the theorems say of them.
mod Data
mod Basics
mod Sketches
mod Supernodes
mod Graphs
mod Readers
mod Crossings
mod Workers
mod Configurations
mod Queries
mod Exhausted
mod LastRounds
mod Restores
