-- ===== src/Hub/Uploads.antt =====
-- The upload operations of `Operations` (stpd/hub/database.py): an upload is created, asked to be
-- verified, retried a bounded number of times, and finished with a receipt.
mod Create
mod Verify
mod Lists
mod Calls
pub mod Steps
pub mod Effects
pub mod Runs
pub mod Creation
pub mod Queue
pub mod Listing
unfoldable pub use Create.*
unfoldable pub use Verify.*
unfoldable pub use Lists.*
unfoldable pub use Calls.*
