-- ===== src/Request.antt =====
-- The life of a request on the platform, as the API server sees it (main-server/src).
pub mod Status
pub mod Response
pub mod Destinations
pub mod Create
pub mod Validity
