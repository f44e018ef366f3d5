-- ===== src/Hub/Runs.antt =====
-- What holds of the jobs and attempts after any sequence of calls.
mod Invariant
mod Laws
mod Once
mod Fencing
mod Requests
pub use Invariant.*
pub use Laws.*
pub use Once.*
pub use Fencing.*
pub use Requests.*
