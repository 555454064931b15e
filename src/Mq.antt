-- ===== src/Mq.antt =====
-- The message-queue server (mq-server/src): sending with acknowledgements and retries.
pub mod Logic
pub mod SendSocket
pub mod Protocol
pub mod SendController
