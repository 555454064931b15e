-- ===== src/Errors.antt =====
-- The errors of the platform (ndid-error, and main-server/src/tendermint/abci_app_code.js).
pub mod Types
pub mod Catalogue
pub mod AbciCodes
pub mod Checks
pub mod Custom
mod Tests
