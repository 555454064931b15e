-- ===== src/Tasks.antt =====
-- The request process manager of the API server: one queue of tasks for each request
-- (main-server/src/core/request_process_manager.js).
pub mod Count
pub mod Queue
pub mod Blocks
