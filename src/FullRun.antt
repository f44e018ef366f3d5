-- ===== src/FullRun.antt =====
-- The research records of full runs (stpd/fullrun).
pub mod Semantic
pub mod Transition
pub mod RoundTrip
pub mod Views
pub mod Fingerprint
pub mod Admission
pub mod Gathering
pub mod Admitted
