-- ===== src/Hub/Identity.antt =====
-- Connections of devices that a member approves, and personal sessions (stpd/hub/identity.py).
mod Base
mod Rates
mod Flows
mod Decide
mod Sessions
mod Calls
pub mod Approves
pub mod Effects
pub mod Approval
pub mod Bounds
pub mod Sound
pub mod HandOut
pub mod Quota
pub mod Limits
unfoldable pub use Base.*
unfoldable pub use Rates.*
unfoldable pub use Flows.*
unfoldable pub use Decide.*
unfoldable pub use Sessions.*
unfoldable pub use Calls.*
