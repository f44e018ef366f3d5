-- ===== src/Hub/Ingress.antt =====
-- The check of an uploaded archive (stpd/hub/uploads.py).
mod Paths
mod Unpack
pub mod Exact
unfoldable pub use Paths.*
unfoldable pub use Unpack.*
