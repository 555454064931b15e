-- ===== src/Tendermint.antt =====
-- The client of the blockchain: the WebSocket connections to Tendermint,
-- main-server/src/tendermint/ws_client.js (Client) and ws_pool.js there (Pool); and the transactions
-- that index.js there sends and waits for (Expected).
pub mod Client
pub mod Pool
pub mod Expected
