-- ===== src/Hub/Jobs.antt =====
-- The job operations of `Operations` (stpd/hub/database.py).
mod Base
mod Enqueue
mod Lease
mod Operator
unfoldable pub use Base.*
unfoldable pub use Enqueue.*
unfoldable pub use Lease.*
unfoldable pub use Operator.*
