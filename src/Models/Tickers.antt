-- ===== src/Models/Tickers.antt =====
-- Tickers of the REST client. `D` is the type of the doubles.
use bybit_cpp_api.Base.{ℕ, []}
use bybit_cpp_api.Text.{Text}
use bybit_cpp_api.Models.Orders.{Doubles}

pub record Ticker (D : Type 0) : Type 0 where
  pub symbol : Text
  pub last_price : D
  pub index_price : D
  pub mark_price : D
  pub prev_price24h : D
  pub price24h_pcnt : D
  pub high_price24h : D
  pub prev_price1h : D
  pub open_interest : ℕ
  pub open_interest_value : D
  pub turnover24h : D
  pub volume24h : D
  pub funding_rate : D
  pub next_funding_time : ℕ
  pub ask1_size : D
  pub bid1_price : D
  pub ask1_price : D
  pub bid1_size : D

-- A `Ticker` with its members' initialisers.
abbrev pub new_ticker : (ds : Doubles) → Ticker ds.Double
new_ticker ds = record {
  symbol = [];
  last_price = ds.zero;
  index_price = ds.zero;
  mark_price = ds.zero;
  prev_price24h = ds.zero;
  price24h_pcnt = ds.zero;
  high_price24h = ds.zero;
  prev_price1h = ds.zero;
  open_interest = 0;
  open_interest_value = ds.zero;
  turnover24h = ds.zero;
  volume24h = ds.zero;
  funding_rate = ds.zero;
  next_funding_time = 0;
  ask1_size = ds.zero;
  bid1_price = ds.zero;
  ask1_price = ds.zero;
  bid1_size = ds.zero;
}
