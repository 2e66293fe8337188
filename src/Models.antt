-- ===== src/Models.antt =====
-- The enums and the structs of the wire formats (include/stonky/bybit/bybit_enums.h, bybit_models.h,
-- bybit_event_models.h), as far as the modelled code uses them.
pub mod Enums
pub mod Orders
pub mod Market
pub mod Wallet
pub mod Tickers
pub mod Candles
pub mod Instruments
pub mod Payload
pub mod Streams
pub mod Json
