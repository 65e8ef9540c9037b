-- ===== src/Credits.antt =====
-- api/src/credits: the off-chain index of credits, the listing with its filters, the names of
-- methodologies, and the service in
-- front of index, cache and contract.
pub mod Repository
pub mod Listing
pub mod Methodologies
pub mod Service
pub mod Controller
