-- ===== src/Hub/Compute.antt =====
-- The compute operations of `Operations` (stpd/hub/database.py): the durable intent of one external
-- invocation for each job, fenced by the attempt, the fence and the secret of the lease.
mod Rows
mod Launch
mod Settle
unfoldable pub use Rows.*
unfoldable pub use Launch.*
unfoldable pub use Settle.*
