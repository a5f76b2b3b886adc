-- ===== src/Tests.antt =====
-- Runs of the definitions and of the theorems on concrete inputs.
pub mod Samples
pub mod Exporting
pub mod Storage
pub mod Building
pub mod Paths
pub mod Parsing
pub mod Syncing
pub mod Polling
pub mod Listing
pub mod Streaming
pub mod Serving
pub mod Accounts
