-- ===== src/Contracts.antt =====
-- The compute contracts: the producer's identity (stpd/artifact_contracts.py), the requests and
-- receipts of the workers (stpd/cloud_jobs/contracts.py) and the provider's handles
-- (stpd/cloud_jobs/modal.py).
pub mod Runtime
pub mod Producer
pub mod Request
pub mod Receipt
pub mod Call
pub mod RoundTrip
