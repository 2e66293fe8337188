-- ===== src/Tests/Downloads.antt =====
-- The theorems on downloads at concrete venues.
use mathlib.Core.Path.{subst}
use mathlib.Core.Option
use bybit_cpp_api.Connectors.{historical_funding_rates, exchange_rate}
use bybit_cpp_api.Connectors.Rates.{historical_funding_rates_lem}
use bybit_cpp_api.Base.{map}
use bybit_cpp_api.Base.{ℕ, ◌≡◌, refl, some, List, [], ◌∷◌, reverse, arith}
use bybit_cpp_api.Text.{codes}
use bybit_cpp_api.Errors.{Result, ok, err}
use bybit_cpp_api.Models.Enums.{m1}
use bybit_cpp_api.Models.Candles.{Candle}
use bybit_cpp_api.Rest.Responses.{Response, read_response, check_response, handle_bybit_response}
use bybit_cpp_api.Models.Candles.{FundingRate}
use bybit_cpp_api.Rest.Funding.{get_funding_rates}
use bybit_cpp_api.Rest.Funding.Window.{since, upto, take}
use bybit_cpp_api.Rest.Funding.Refinement.{Answers, get_funding_rates_lem}
use bybit_cpp_api.Rest.History.{get_historical_prices}
use bybit_cpp_api.Rest.History.Ordered.{Ascends}
use bybit_cpp_api.Rest.History.Ends.{IsNewestFirst, IsDownload, get_historical_prices_lem}

abbrev answer_of : {A : Type 0} → A → Response A
answer_of a = record { status = 200; body = []; ret_code = 0; ret_msg = []; value = a }

abbrev rate : ℕ → FundingRate ℕ
rate t = record { symbol = codes "BTCUSDT"; funding_rate = 1; funding_rate_timestamp = t }

abbrev rates : List (FundingRate ℕ)
rates = rate 50 ∷ rate 40 ∷ rate 30 ∷ rate 20 ∷ rate 10 ∷ []

-- A venue that gives two rates a page.
abbrev rates_venue : ℕ → ℕ → Response (List (FundingRate ℕ))
rates_venue start_time end_time = answer_of (take 2 (upto end_time (since start_time rates)))

rates_venue-Answers : Answers rates_venue 2 rates
unfolding read_response check_response handle_bybit_response
rates_venue-Answers start_time end_time = refl

get_funding_rates_lem_example :
    get_funding_rates rates_venue 20 45 ≡ some (ok (reverse (upto 45 (since 20 rates))))
get_funding_rates_lem_example =
    get_funding_rates_lem rates_venue 1 20 45 rates
      (omega arith, (omega arith, (omega arith, (omega arith, omega arith)))) rates_venue-Answers
      (omega arith)

get_funding_rates_runs :
    get_funding_rates rates_venue 20 45 ≡ some (ok (rate 20 ∷ rate 30 ∷ rate 40 ∷ []))
unfolding upto since
get_funding_rates_runs = get_funding_rates_lem_example

abbrev candle_at : ℕ → Candle ℕ
candle_at t = record {
  start_time = t;
  open_price = 1;
  high = 1;
  low = 1;
  close = 1;
  volume = 1;
  turnover = 1;
}

-- A venue that has two candles.
abbrev candles_venue : ℕ → ℕ → Response (List (Candle ℕ))
candles_venue from end = answer_of (candle_at 120000 ∷ candle_at 60000 ∷ [])

abbrev AscendsIfOk : Result (List (Candle ℕ)) → Type 0
AscendsIfOk (ok xs) = Ascends 0 (reverse xs)
AscendsIfOk (err x) = Unit

candles_venue-IsNewestFirst : IsNewestFirst candles_venue
unfolding read_response check_response handle_bybit_response
candles_venue-IsNewestFirst from end answer e = subst AscendsIfOk e (omega arith, (omega arith, tt))

get_historical_prices_lem_example :
    IsDownload 60000 130000
      (get_historical_prices candles_venue m1 60000 130000 1000).written
      (get_historical_prices candles_venue m1 60000 130000 1000).result
get_historical_prices_lem_example =
    get_historical_prices_lem candles_venue m1 60000 130000 1000 candles_venue-IsNewestFirst

historical_funding_rates_lem_example :
    Option.map historical_funding_rates (get_funding_rates rates_venue 20 45)
    ≡ some (ok (map exchange_rate (reverse (upto 45 (since 20 rates)))))
historical_funding_rates_lem_example =
    historical_funding_rates_lem rates_venue 1 20 45 rates
      (omega arith, (omega arith, (omega arith, (omega arith, omega arith)))) rates_venue-Answers
      (omega arith)
