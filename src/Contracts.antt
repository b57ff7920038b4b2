-- ===== src/Contracts.antt =====
-- The registered contracts.
pub mod Market
pub mod Reference
pub mod Execution
pub mod Features
