-- ===== src/Hub/Members.antt =====
-- Who may use the hub: its devices (stpd/hub/database.py) and its invited members
-- (stpd/hub/membership.py).
mod Devices
mod Tables
mod Settings
mod Access
mod Manage
mod Calls
pub mod Admins
pub mod Grants
pub mod Shutout
pub mod Credentials
pub mod Revocation
pub mod Keys
pub mod Touches
unfoldable pub use Devices.*
pub use Tables.*
unfoldable pub use Settings.*
unfoldable pub use Access.*
unfoldable pub use Manage.*
unfoldable pub use Calls.*
