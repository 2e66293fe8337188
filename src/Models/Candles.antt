-- ===== src/Models/Candles.antt =====
-- Candles and funding rates. `D` is the type of the doubles.
use bybit_cpp_api.Base.{ℕ}
use bybit_cpp_api.Text.{Text}

pub record Candle (D : Type 0) : Type 0 where
  pub start_time : ℕ
  pub open_price : D
  pub high : D
  pub low : D
  pub close : D
  pub volume : D
  pub turnover : D

pub record FundingRate (D : Type 0) : Type 0 where
  pub symbol : Text
  pub funding_rate : D
  pub funding_rate_timestamp : ℕ
