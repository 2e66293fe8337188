-- ===== src/Models/Json/Funding.antt =====
-- The readers of candles and funding rates.
use bybit_cpp_api.Base.{ℕ, List, [], ◌∷◌, if◌then◌else◌}
use bybit_cpp_api.Text.{Text, codes}
use bybit_cpp_api.Models.Orders.{Doubles}
use bybit_cpp_api.Models.Candles.{Candle, FundingRate}
use bybit_cpp_api.Models.Json.{
  Json, Reading, read, ◌then◌, Field, fields, into, member_or, read_rows, list_rows,
}

module _ (ds : Doubles) {J : Type 0} (json : Json J ds.Double) where
  open ds use {Double}

  -- `json[n].get<std::string>()`.
  unfoldable pub text_at : ℕ → J → Reading Text
  unfolding ◌then◌
  text_at n j = json.at j n then json.get_text

  -- `stod(json[n].get<std::string>())`.
  unfoldable pub double_at : ℕ → J → Reading Double
  unfolding text_at ◌then◌
  double_at n j = text_at n j then json.stod

  -- `Candle::fromJson`, of an array.
  unfoldable pub candle_from_json : J → Reading (Candle Double)
  unfolding text_at double_at ◌then◌
  candle_from_json j = text_at 0 j then json.stoll then (λ start_time.
      double_at 1 j then (λ open_price. double_at 2 j then (λ high. double_at 3 j then (λ low.
        double_at 4 j then (λ close. double_at 5 j then (λ volume. double_at 6 j then (λ turnover.
          read (record {
            start_time = start_time;
            open_price = open_price;
            high = high;
            low = low;
            close = close;
            volume = volume;
            turnover = turnover;
          }))))))))

  -- `Candles::fromJson`, of the response's `result`: its list.
  unfoldable pub candles_from_json : J → Reading (List (Candle Double))
  unfolding candle_from_json read_rows list_rows ◌then◌
  candles_from_json result = list_rows json result then read_rows candle_from_json

  unfoldable pub funding_rate_fields : J → List (Field (FundingRate Double))
  unfolding into
  funding_rate_fields j =
      into (λ r m. record r { symbol = member_or r.symbol m }) (json.text j (codes "symbol"))
      ∷ into (λ r m. record r { funding_rate = member_or r.funding_rate m })
          (json.double j (codes "fundingRate"))
      ∷ into (λ r m. record r { funding_rate_timestamp = member_or r.funding_rate_timestamp m })
          (json.number j (codes "fundingRateTimestamp"))
      ∷ []

  -- `FundingRate::fromJson` of a new `FundingRate`.
  unfoldable pub funding_rate_from_json : J → Reading (FundingRate Double)
  unfolding funding_rate_fields fields
  funding_rate_from_json j =
      fields (funding_rate_fields j)
        (record { symbol = []; funding_rate = ds.zero; funding_rate_timestamp = 0 })

  -- `FundingRates::fromJson`, of the response's `result`: its list.
  unfoldable pub funding_rates_from_json : J → Reading (List (FundingRate Double))
  unfolding funding_rate_from_json read_rows list_rows ◌then◌
  funding_rates_from_json result = list_rows json result then read_rows funding_rate_from_json
