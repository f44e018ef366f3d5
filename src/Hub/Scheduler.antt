-- ===== src/Hub/Scheduler.antt =====
-- The scheduler (stpd/hub/scheduler.py). The provider and the artifact store answer through a
-- `World`, one for each tick; every call of the provider is written down in the state.
mod Base
mod Poll
mod Tick
mod Keeps
mod Intents
mod Turns
mod Launches
pub use Base.*
pub use Poll.*
pub use Tick.*
pub use Keeps.*
pub use Launches.*
