-- ===== src/Bits.antt =====
-- Laws of the bit operations at variables, for the words of `src/util.cpp` and `include/bucket.h`.
mod Step
mod Xor
mod Fields
pub use Xor.*
pub use Fields.*
