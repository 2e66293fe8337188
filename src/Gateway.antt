-- ===== src/Gateway.antt =====
-- The execution gateway (src/bybit_execution_gateway.cpp): orders, cancels with reconciliation of
-- missed fills, and the translation of venue events and errors.
pub mod Interface
pub mod Reasons
pub mod Orders
pub mod Cancel
pub mod Updates
pub mod Submits
pub mod Fills
pub mod Sweeps
pub mod Quotes
pub mod Specs
