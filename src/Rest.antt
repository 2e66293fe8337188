-- ===== src/Rest.antt =====
-- The REST client (src/bybit_rest_client.cpp) and the candle intervals (src/bybit.cpp).
pub mod Account
pub mod Responses
pub mod Executions
pub mod Pages
pub mod Place
pub mod Parameters
pub mod Archive
pub mod Limiter
pub mod Candles
pub mod Closing
pub mod Funding
pub mod History
pub mod Calendar
pub mod Instruments
