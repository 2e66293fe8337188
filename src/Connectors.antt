-- ===== src/Connectors.antt =====
-- The futures connector (src/bybit_futures_exchange_connector.cpp) and the spot connector
-- (src/bybit_spot_exchange_connector.cpp), behind the calls of their REST client. What they throw
-- `Unimplemented` at is left out.
pub mod Rates
pub mod Calls
use bybit_cpp_api.Base.{
  ℕ, ◌≡◌, refl, Bool, true, false, Option, none, some, List, [], ◌∷◌, map, if◌then◌else◌, ltb,
}
use bybit_cpp_api.Text.{Text, same_text}
use bybit_cpp_api.Errors.{Result, ok, err, ◌>>=◌}
use bybit_cpp_api.Models.Enums.{CandleInterval, Side}
use bybit_cpp_api.Models.Candles.{Candle}
use bybit_cpp_api.Models.Candles.{FundingRate}
use bybit_cpp_api.Models.Market.{Position}
use bybit_cpp_api.Models.Tickers.{Ticker}

-- The intervals of the exchange interface that `toBybitInterval` names, and those that it does not.
pub data ExchangeInterval : Type 0 where
  minute minutes3 minutes5 minutes15 minutes30 hour hours2 hours4 hours6 hours12 : ExchangeInterval
  day week month unnamed : ExchangeInterval

unfoldable pub to_bybit_interval : ExchangeInterval → CandleInterval
to_bybit_interval ExchangeInterval.minute = CandleInterval.m1
to_bybit_interval ExchangeInterval.minutes3 = CandleInterval.m3
to_bybit_interval ExchangeInterval.minutes5 = CandleInterval.m5
to_bybit_interval ExchangeInterval.minutes15 = CandleInterval.m15
to_bybit_interval ExchangeInterval.minutes30 = CandleInterval.m30
to_bybit_interval ExchangeInterval.hour = CandleInterval.m60
to_bybit_interval ExchangeInterval.hours2 = CandleInterval.m120
to_bybit_interval ExchangeInterval.hours4 = CandleInterval.m240
to_bybit_interval ExchangeInterval.hours6 = CandleInterval.m360
to_bybit_interval ExchangeInterval.hours12 = CandleInterval.m720
to_bybit_interval ExchangeInterval.day = CandleInterval.d
to_bybit_interval ExchangeInterval.week = CandleInterval.w
to_bybit_interval ExchangeInterval.month = CandleInterval.mo
to_bybit_interval ExchangeInterval.unnamed = CandleInterval.m60

-- What `getTickerPrice` returns.
pub record TickerPrice (D : Type 0) : Type 0 where
  pub ask_price : D
  pub bid_price : D
  pub ask_qty : D
  pub bid_qty : D
  pub time : ℕ

pub record ExchangeRate (D : Type 0) : Type 0 where
  pub symbol : Text
  pub funding_rate : D
  pub funding_time : ℕ

pub record ExchangeCandle (D : Type 0) : Type 0 where
  pub open_time : ℕ
  pub open_price : D
  pub high : D
  pub low : D
  pub close : D
  pub volume : D

module _ {D : Type 0} where
  -- The loop of `getTickerPrice`: the last ticker of the symbol counts. Both connectors ask for the linear
  -- category.
  unfoldable pub ticker_price : Text → ℕ → TickerPrice D → List (Ticker D) → TickerPrice D
  ticker_price symbol time price [] = price
  ticker_price symbol time price (t ∷ ts) =
      ticker_price symbol time
        (if same_text t.symbol symbol
          then record {
            ask_price = t.ask1_price;
            bid_price = t.bid1_price;
            ask_qty = t.ask1_size;
            bid_qty = t.bid1_size;
            time = time;
          }
          else price)
        ts

  -- `getFundingRate` of the futures connector, `none` where it returns the empty rate, and `getFundingRates`.
  abbrev pub rate_of_ticker : Ticker D → ExchangeRate D
  rate_of_ticker t = record {
    symbol = t.symbol;
    funding_rate = t.funding_rate;
    funding_time = t.next_funding_time;
  }

  unfoldable pub get_funding_rate : List (Ticker D) → Option (ExchangeRate D)
  get_funding_rate [] = none
  get_funding_rate (t ∷ ts) = some (rate_of_ticker t)

  unfoldable pub get_ticker_rates : List (Ticker D) → List (ExchangeRate D)
  get_ticker_rates = map rate_of_ticker

  abbrev pub exchange_rate : FundingRate D → ExchangeRate D
  exchange_rate r = record {
    symbol = r.symbol;
    funding_rate = r.funding_rate;
    funding_time = r.funding_rate_timestamp;
  }

  -- `std::ranges::sort` by the time.
  unfoldable pub insert_rate : ExchangeRate D → List (ExchangeRate D) → List (ExchangeRate D)
  insert_rate r [] = r ∷ []
  insert_rate r (s ∷ rates) =
      let rest = insert_rate r rates in
      if ltb s.funding_time r.funding_time then s ∷ rest else r ∷ s ∷ rates

  unfoldable pub sort_rates : List (ExchangeRate D) → List (ExchangeRate D)
  unfolding insert_rate
  sort_rates [] = []
  sort_rates (r ∷ rates) = insert_rate r (sort_rates rates)

  -- What `getHistoricalFundingRates` makes of the REST client's result.
  unfoldable pub historical_funding_rates :
      Result (List (FundingRate D)) → Result (List (ExchangeRate D))
  unfolding sort_rates
  historical_funding_rates (err x) = err x
  historical_funding_rates (ok rates) = ok (sort_rates (map exchange_rate rates))

  -- What `getHistoricalCandles` makes of a candle.
  unfoldable pub exchange_candle : Candle D → ExchangeCandle D
  exchange_candle c = record {
    open_time = c.start_time;
    open_price = c.open_price;
    high = c.high;
    low = c.low;
    close = c.close;
    volume = c.volume;
  }

-- What `getPositionInfo` returns.
pub record ExchangePosition (D : Type 0) : Type 0 where
  pub symbol : Text
  pub avg_price : D
  pub created_time : ℕ
  pub updated_time : ℕ
  pub leverage : D
  pub value : D
  pub is_buy : Bool

abbrev pub is_buy_side : Side → Bool
is_buy_side Side.buy = true
is_buy_side _ = false

-- The loop of `getPositionInfo` of the futures connector: each position of the REST client, those of no
-- size included.
unfoldable pub exchange_position : {D : Type 0} → Position D → ExchangePosition D
exchange_position pos = record {
  symbol = pos.symbol;
  avg_price = pos.avg_price;
  created_time = pos.created_time;
  updated_time = pos.updated_time;
  leverage = pos.leverage;
  value = pos.position_value;
  is_buy = is_buy_side pos.side;
}

unfoldable pub get_position_info :
    {D : Type 0} → Result (List (Position D)) → Result (List (ExchangePosition D))
unfolding exchange_position
get_position_info listed = listed >>= (λ positions. ok (map exchange_position positions))
