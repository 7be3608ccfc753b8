-- ===== src/Numbers.antt =====
-- Python's `float`. Its operations are a parameter, since the native numbers have no floats; the
-- definitions are written over them as the source writes them. `IsExact` names the laws of a range
-- in which no rounding takes place, and `Micro` is a number format that runs and meets them.
mod Interface
mod Fixed
mod Sums
pub use Interface.*
unfoldable pub use Fixed.*
pub use Sums.*
