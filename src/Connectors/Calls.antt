-- ===== src/Connectors/Calls.antt =====
-- The calls of the two connectors on their REST client.
use bybit_cpp_api.Base.{ℕ, ◌≡◌, refl, List, [], ◌++◌}
use bybit_cpp_api.Text.{Text, codes}
use bybit_cpp_api.Errors.{Result, ok, err, runtime_error, ◌>>=◌}
use bybit_cpp_api.Models.Enums.{Category, Environment}
use bybit_cpp_api.Models.Orders.{Doubles}
use bybit_cpp_api.Models.Market.{Position}
use bybit_cpp_api.Models.Tickers.{Ticker}
use bybit_cpp_api.Rest.Account.{RestSessions, new_rest_sessions}
use bybit_cpp_api.Connectors.{TickerPrice, ticker_price, ExchangePosition, get_position_info}

-- The calls of the REST client that the connectors pass on; tickers come with the time of their answer.
pub record RestCalls (D : Type 0) : Type 0 where
  pub get_tickers : Category → Text → Result (List (Ticker D) × ℕ)
  pub list_positions : Category → Text → Result (List (Position D))

-- The constructors, whose REST client has no credentials, and `login`, which replaces it.
unfoldable pub new_connector : RestSessions
unfolding new_rest_sessions
new_connector = new_rest_sessions [] [] Environment.mainnet

unfoldable pub login : Text → Text → RestSessions
unfolding new_rest_sessions
login api_key api_secret = new_rest_sessions api_key api_secret Environment.mainnet

-- What is not implemented throws.
unfoldable pub unimplemented : {A : Type 0} → Text → Result A
unimplemented name = err (runtime_error (codes "Unimplemented: " ++ name))

unfoldable pub without_funding : {A : Type 0} → Text → Result A
without_funding name = err (runtime_error (name ++ codes " - SPOT does not have funding rates"))

module _ (ds : Doubles) where
  open ds use {Double}

  abbrev no_price : TickerPrice Double
  no_price = record {
    ask_price = ds.zero;
    bid_price = ds.zero;
    ask_qty = ds.zero;
    bid_qty = ds.zero;
    time = 0;
  }

  unfoldable pub futures_ticker_price : RestCalls Double → Text → Result (TickerPrice Double)
  unfolding ticker_price
  futures_ticker_price calls symbol =
      calls.get_tickers Category.linear symbol
      >>= (λ answer. ok (ticker_price symbol answer.1 no_price answer.0))

  unfoldable pub spot_ticker_price : RestCalls Double → Text → Result (TickerPrice Double)
  unfolding ticker_price
  spot_ticker_price calls symbol =
      calls.get_tickers Category.linear symbol
      >>= (λ answer. ok (ticker_price symbol answer.1 no_price answer.0))

  unfoldable pub futures_positions :
      RestCalls Double → Text → Result (List (ExchangePosition Double))
  unfolding get_position_info
  futures_positions calls symbol = get_position_info (calls.list_positions Category.linear symbol)

  unfoldable pub spot_positions : RestCalls Double → Text → Result (List (ExchangePosition Double))
  unfolding get_position_info
  spot_positions calls symbol = get_position_info (calls.list_positions Category.spot symbol)

  -- The spot connector's price is the futures connector's, on every REST client.
  pub spot_ticker_price-futures :
      (calls : RestCalls Double) (symbol : Text)
      → spot_ticker_price calls symbol ≡ futures_ticker_price calls symbol
  unfolding spot_ticker_price futures_ticker_price
  spot_ticker_price-futures calls symbol = refl
