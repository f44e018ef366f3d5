-- ===== src/Data/WholeRuns.antt =====
-- The components of whole runs that share a decision (stpd/fullrun/data.py).
mod Order
mod Components
mod Partition
pub mod Forest
pub mod Merge
pub mod Merges
pub mod Together
pub mod Groups
pub mod Roots
pub mod Assign
pub mod Grouped
pub mod Linked
pub mod Isolation
unfoldable pub use Order.*
unfoldable pub use Components.*
unfoldable pub use Partition.*
