-- ===== src/Bits.antt =====
-- Laws of machine words bit by bit, at every width.
mod Digits
mod Words
mod Lowest
pub use Digits.*
pub use Words.*
pub use Lowest.*
