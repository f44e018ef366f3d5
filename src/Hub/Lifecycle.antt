-- ===== src/Hub/Lifecycle.antt =====
-- The life of a job and of its attempt: what one call of `Operations` may do to a row.
mod Steps
mod Effects
mod Local
mod Fenced
mod Claim
mod Budget
pub use Steps.*
pub use Local.*
pub use Fenced.*
pub use Claim.*
pub use Budget.*
pub use Effects.{Effect-log}
