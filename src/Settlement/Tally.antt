-- ===== src/Settlement/Tally.antt =====
-- Counting outcomes; the definitions are in `Defs`.
mod Defs
pub mod Counts
pub mod Majority
pub mod Agreement
unfoldable pub use Defs.*
