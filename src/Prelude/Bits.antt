-- ===== src/Prelude/Bits.antt =====
-- Bits of machine words. `test x k` is bit `k` of `x`; a word is determined by its bits, and the
-- operations of C act bit by bit.
mod Digits
mod Laws
mod Words
mod Single
mod Fields
mod Xor
pub use Digits.*
unfoldable pub use Laws.*
pub use Words.*
pub use Single.*
pub use Fields.*
pub use Xor.*
