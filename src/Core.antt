-- ===== src/Core.antt =====
-- packages/core: policy, pricing and the ledger, with no input or output.
pub mod Fares
pub mod Types
pub mod Submission
pub mod Ledger
pub mod Exposure
pub mod Solvency
pub mod Admission
pub mod Tests
