-- ===== src/Prelude/Bits.antt =====
-- `|` and `&` on native numbers: one equation for the lowest digit, and the laws from it.
mod Step
mod Laws
mod Digits
pub use Step.*
pub use Laws.*
pub use Digits.*
