-- ===== src/Session.antt =====
-- One WebSocket connection to a stream endpoint (src/bybit_ws_session.cpp): its state, the topic
-- bookkeeping, the write pump, the connect chain, inbound frames, the heartbeat and the reconnect
-- loop. The children model the handlers in the order of the source; the modules behind them prove.
pub mod State
pub mod Topics
pub mod Connect
pub mod Inbound
pub mod Timers
pub mod Events
pub mod Cases
pub mod Link
pub mod Alive
pub mod Writer
pub mod Sent
pub mod Books
pub mod Gate
pub mod Acks
pub mod Running
pub mod Promises
pub mod Loop
pub mod Replay
pub mod Closed
mod Tests
