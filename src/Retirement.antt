-- ===== src/Retirement.antt =====
-- api/src/retirement: retiring credits, the off-chain index of the retirements, and certificates.
pub mod Repository
pub mod Service
pub mod CertificateService
