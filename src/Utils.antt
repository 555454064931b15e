-- ===== src/Utils.antt =====
-- Utilities of the API server (main-server/src/utils).
pub mod LongTimeout
pub mod Padding
