-- ===== src/Models/Json/Market.antt =====
-- The readers of positions and tickers.
use bybit_cpp_api.Base.{Bool, false, not, ◌&&◌, none, some, List, [], ◌∷◌, if◌then◌else◌}
use bybit_cpp_api.Text.{codes}
use bybit_cpp_api.Models.Enums.Casts.{side_cast, tp_sl_mode_cast, position_status_cast}
use bybit_cpp_api.Models.Orders.{Doubles}
use bybit_cpp_api.Models.Market.{Position, new_position}
use bybit_cpp_api.Models.Tickers.{Ticker, new_ticker}
use bybit_cpp_api.Models.Json.{
  Json, Reading, read, ◌then◌, Step, steps, Field, fields, into, member_or, read_rows, list_rows,
}

module _ (ds : Doubles) {J : Type 0} (json : Json J ds.Double) where
  open ds use {Double}

  -- `readDecimalValue` of the size into a decimal that is 0, and whether it is not 0 then.
  unfoldable pub decimal_size : J → Reading Bool
  decimal_size j = elim (json.find j (codes "size")) [
    | none ↦ read false
    | some size ↦ elim (json.as_text size) [
      | none ↦ read false
      | some [] ↦ read false
      | some (c ∷ digits) ↦ json.is_nonzero_decimal (c ∷ digits)
    ]
  ]

  -- The members before the size and those from it on.
  unfoldable pub position_head : J → List (Field (Position Double))
  unfolding into
  position_head j =
      into (λ r m. record r { position_idx = member_or r.position_idx m })
        (json.integer j (codes "positionIdx"))
      ∷ into (λ r m. record r { risk_id = member_or r.risk_id m }) (json.integer j (codes "riskId"))
      ∷ into (λ r m. record r { risk_limit_value = member_or r.risk_limit_value m })
          (json.double j (codes "riskLimitValue"))
      ∷ into (λ r m. record r { symbol = member_or r.symbol m }) (json.text j (codes "symbol"))
      ∷ into (λ r m. record r { side = member_or r.side m })
          (json.enumerator side_cast j (codes "side"))
      ∷ []

  unfoldable pub position_tail : J → List (Field (Position Double))
  unfolding into
  position_tail j =
      into (λ r m. record r { size = member_or r.size m }) (json.double j (codes "size"))
      ∷ into (λ r m. record r { avg_price = member_or r.avg_price m })
          (json.double j (codes "avgPrice"))
      ∷ into (λ r m. record r { position_value = member_or r.position_value m })
          (json.double j (codes "positionValue"))
      ∷ into (λ r m. record r { trade_mode = member_or r.trade_mode m })
          (json.integer j (codes "tradeMode"))
      ∷ into (λ r m. record r { position_status = member_or r.position_status m })
          (json.enumerator position_status_cast j (codes "positionStatus"))
      ∷ into (λ r m. record r { auto_add_margin = member_or r.auto_add_margin m })
          (json.integer j (codes "autoAddMargin"))
      ∷ into (λ r m. record r { adl_rank_indicator = member_or r.adl_rank_indicator m })
          (json.integer j (codes "adlRankIndicator"))
      ∷ into (λ r m. record r { leverage = member_or r.leverage m })
          (json.double j (codes "leverage"))
      ∷ into (λ r m. record r { position_balance = member_or r.position_balance m })
          (json.double j (codes "positionBalance"))
      ∷ into (λ r m. record r { mark_price = member_or r.mark_price m })
          (json.double j (codes "markPrice"))
      ∷ into (λ r m. record r { liq_price = member_or r.liq_price m })
          (json.double j (codes "liqPrice"))
      ∷ into (λ r m. record r { bust_price = member_or r.bust_price m })
          (json.double j (codes "bustPrice"))
      ∷ into (λ r m. record r { position_mm = member_or r.position_mm m })
          (json.double j (codes "positionMM"))
      ∷ into (λ r m. record r { position_im = member_or r.position_im m })
          (json.double j (codes "positionIM"))
      ∷ into (λ r m. record r { tp_sl_mode = member_or r.tp_sl_mode m })
          (json.enumerator tp_sl_mode_cast j (codes "tpSlMode"))
      ∷ into (λ r m. record r { stop_loss = member_or r.stop_loss m })
          (json.double j (codes "stopLoss"))
      ∷ into (λ r m. record r { take_profit = member_or r.take_profit m })
          (json.double j (codes "takeProfit"))
      ∷ into (λ r m. record r { trailing_stop = member_or r.trailing_stop m })
          (json.double j (codes "trailingStop"))
      ∷ into (λ r m. record r { unrealised_pnl = member_or r.unrealised_pnl m })
          (json.double j (codes "unrealisedPnl"))
      ∷ into (λ r m. record r { cum_realised_pnl = member_or r.cum_realised_pnl m })
          (json.double j (codes "cumRealisedPnl"))
      ∷ into (λ r m. record r { is_reduce_only = member_or r.is_reduce_only m })
          (json.flag j (codes "isReduceOnly"))
      ∷ into (λ r m. record r { created_time = member_or r.created_time m })
          (json.number j (codes "createdTime"))
      ∷ into (λ r m. record r { updated_time = member_or r.updated_time m })
          (json.number j (codes "updatedTime"))
      ∷ into (λ r m. record r { seq = member_or r.seq m }) (json.integer j (codes "seq"))
      ∷ into (λ r m. record r { mmr_sys_update_time = member_or r.mmr_sys_update_time m })
          (json.text j (codes "mmrSysUpdateTime"))
      ∷ into
          (λ r m. record r { leverage_sys_updated_time = member_or r.leverage_sys_updated_time m })
          (json.text j (codes "leverageSysUpdatedTime"))
      ∷ []

  -- Between them, the size is read as a decimal.
  unfoldable pub set_zero_size : J → Step (Position Double)
  unfolding decimal_size ◌then◌
  set_zero_size j r =
      decimal_size j then (λ nonzero. read (record r { zero_size = r.zero_size && not nonzero }))

  unfoldable pub position_steps : J → List (Step (Position Double))
  unfolding fields position_head set_zero_size position_tail
  position_steps j = fields (position_head j) ∷ set_zero_size j ∷ fields (position_tail j) ∷ []

  -- `Position::fromJson` of a new `Position`.
  unfoldable pub position_from_json : J → Reading (Position Double)
  unfolding position_steps steps
  position_from_json j = steps (position_steps j) (new_position ds)

  -- `Positions::fromJson`, of the response's `result`: its list.
  unfoldable pub positions_from_json : J → Reading (List (Position Double))
  unfolding position_from_json read_rows list_rows ◌then◌
  positions_from_json result = list_rows json result then read_rows position_from_json

  unfoldable pub ticker_fields : J → List (Field (Ticker Double))
  unfolding into
  ticker_fields j =
      into (λ r m. record r { symbol = member_or r.symbol m }) (json.text j (codes "symbol"))
      ∷ into (λ r m. record r { last_price = member_or r.last_price m })
          (json.double j (codes "lastPrice"))
      ∷ into (λ r m. record r { index_price = member_or r.index_price m })
          (json.double j (codes "indexPrice"))
      ∷ into (λ r m. record r { mark_price = member_or r.mark_price m })
          (json.double j (codes "markPrice"))
      ∷ into (λ r m. record r { prev_price24h = member_or r.prev_price24h m })
          (json.double j (codes "prevPrice24h"))
      ∷ into (λ r m. record r { price24h_pcnt = member_or r.price24h_pcnt m })
          (json.double j (codes "price24hPcnt"))
      ∷ into (λ r m. record r { high_price24h = member_or r.high_price24h m })
          (json.double j (codes "highPrice24h"))
      ∷ into (λ r m. record r { prev_price1h = member_or r.prev_price1h m })
          (json.double j (codes "prevPrice1h"))
      ∷ into (λ r m. record r { open_interest = member_or r.open_interest m })
          (json.number j (codes "openInterest"))
      ∷ into (λ r m. record r { open_interest_value = member_or r.open_interest_value m })
          (json.double j (codes "openInterestValue"))
      ∷ into (λ r m. record r { turnover24h = member_or r.turnover24h m })
          (json.double j (codes "turnover24h"))
      ∷ into (λ r m. record r { volume24h = member_or r.volume24h m })
          (json.double j (codes "volume24h"))
      ∷ into (λ r m. record r { funding_rate = member_or r.funding_rate m })
          (json.double j (codes "fundingRate"))
      ∷ into (λ r m. record r { next_funding_time = member_or r.next_funding_time m })
          (json.number j (codes "nextFundingTime"))
      ∷ into (λ r m. record r { ask1_size = member_or r.ask1_size m })
          (json.double j (codes "ask1Size"))
      ∷ into (λ r m. record r { bid1_price = member_or r.bid1_price m })
          (json.double j (codes "bid1Price"))
      ∷ into (λ r m. record r { ask1_price = member_or r.ask1_price m })
          (json.double j (codes "ask1Price"))
      ∷ into (λ r m. record r { bid1_size = member_or r.bid1_size m })
          (json.double j (codes "bid1Size"))
      ∷ []

  -- `Ticker::fromJson` of a new `Ticker`.
  unfoldable pub ticker_from_json : J → Reading (Ticker Double)
  unfolding ticker_fields fields
  ticker_from_json j = fields (ticker_fields j) (new_ticker ds)

  -- `Tickers::fromJson`, of the response's `result`: its list.
  unfoldable pub tickers_from_json : J → Reading (List (Ticker Double))
  unfolding ticker_from_json read_rows list_rows ◌then◌
  tickers_from_json result = list_rows json result then read_rows ticker_from_json
