-- ===== src/Models/Json/Instruments.antt =====
-- The readers of instruments.
use bybit_cpp_api.Base.{not, ◌&&◌, List, [], ◌∷◌, if◌then◌else◌}
use bybit_cpp_api.Text.{codes}
use bybit_cpp_api.Models.Enums.Casts.{contract_type_cast, contract_status_cast}
use bybit_cpp_api.Models.Orders.{Doubles}
use bybit_cpp_api.Models.Instruments.{
  PriceFilter, LeverageFilter, LotSizeFilter, Instrument, new_instrument,
}
use bybit_cpp_api.Models.Json.{
  Json, Reading, read, ◌then◌, Step, steps, Field, fields, into, member_or, read_rows, list_rows,
  member_of, only_if, has_member,
}

module _ (ds : Doubles) {J : Type 0} (json : Json J ds.Double) where
  open ds use {Double}

  unfoldable pub price_filter_fields : J → List (Field (PriceFilter Double))
  unfolding into
  price_filter_fields j =
      into (λ r m. record r { min_price = member_or r.min_price m })
        (json.double j (codes "minPrice"))
      ∷ into (λ r m. record r { max_price = member_or r.max_price m })
          (json.double j (codes "maxPrice"))
      ∷ into (λ r m. record r { tick_size = member_or r.tick_size m })
          (json.double j (codes "tickSize"))
      ∷ []

  unfoldable pub leverage_filter_fields : J → List (Field (LeverageFilter Double))
  unfolding into
  leverage_filter_fields j =
      into (λ r m. record r { min_leverage = member_or r.min_leverage m })
        (json.double j (codes "minLeverage"))
      ∷ into (λ r m. record r { max_leverage = member_or r.max_leverage m })
          (json.double j (codes "maxLeverage"))
      ∷ into (λ r m. record r { leverage_step = member_or r.leverage_step m })
          (json.double j (codes "leverageStep"))
      ∷ []

  unfoldable pub lot_size_filter_fields : J → List (Field (LotSizeFilter Double))
  unfolding into
  lot_size_filter_fields j =
      into (λ r m. record r { max_order_qty = member_or r.max_order_qty m })
        (json.double j (codes "maxOrderQty"))
      ∷ into (λ r m. record r { min_order_qty = member_or r.min_order_qty m })
          (json.double j (codes "minOrderQty"))
      ∷ into (λ r m. record r { qty_step = member_or r.qty_step m })
          (json.double j (codes "qtyStep"))
      ∷ into
          (λ r m. record r { post_only_max_trading_qty = member_or r.post_only_max_trading_qty m })
          (json.double j (codes "postOnlyMaxTradingQty"))
      ∷ into (λ r m. record r { min_notional_value = member_or r.min_notional_value m })
          (json.double j (codes "minNotionalValue"))
      ∷ []

  unfoldable pub instrument_steps : J → List (Step (Instrument Double))
  unfolding into fields only_if leverage_filter_fields price_filter_fields lot_size_filter_fields
      member_of ◌then◌
  instrument_steps j =
      fields (
        into (λ r m. record r { symbol = member_or r.symbol m }) (json.text j (codes "symbol"))
        ∷ into (λ r m. record r { contract_type = member_or r.contract_type m })
            (json.enumerator contract_type_cast j (codes "contractType"))
        ∷ into (λ r m. record r { contract_status = member_or r.contract_status m })
            (json.enumerator contract_status_cast j (codes "contractStatus"))
        ∷ [])
      ∷ only_if
          (not (has_member json (codes "contractStatus") j) && has_member json (codes "status") j)
          (fields (
            into (λ r m. record r { contract_status = member_or r.contract_status m })
              (json.enumerator contract_status_cast j (codes "status"))
            ∷ []))
      ∷ fields (
          into (λ r m. record r { base_coin = member_or r.base_coin m })
            (json.text j (codes "baseCoin"))
          ∷ into (λ r m. record r { quote_coin = member_or r.quote_coin m })
              (json.text j (codes "quoteCoin"))
          ∷ into (λ r m. record r { symbol_type = member_or r.symbol_type m })
              (json.text j (codes "symbolType"))
          ∷ into (λ r m. record r { launch_time = member_or r.launch_time m })
              (json.number j (codes "launchTime"))
          ∷ into (λ r m. record r { delivery_time = member_or r.delivery_time m })
              (json.number j (codes "deliveryTime"))
          ∷ into (λ r m. record r { delivery_fee_rate = member_or r.delivery_fee_rate m })
              (json.double j (codes "deliveryFeeRate"))
          ∷ into (λ r m. record r { price_scale = member_or r.price_scale m })
              (json.number j (codes "priceScale"))
          ∷ into (λ r m. record r { unified_margin_trade = member_or r.unified_margin_trade m })
              (json.flag j (codes "unifiedMarginTrade"))
          ∷ into (λ r m. record r { funding_interval = member_or r.funding_interval m })
              (json.integer j (codes "fundingInterval"))
          ∷ into (λ r m. record r { settle_coin = member_or r.settle_coin m })
              (json.text j (codes "settleCoin"))
          ∷ [])
      ∷ only_if (has_member json (codes "leverageFilter") j) (λ r.
        member_of json (codes "leverageFilter") j then (λ l.
          fields (leverage_filter_fields l) r.leverage_filter
          then (λ filter. read (record r { leverage_filter = filter }))))
      ∷ (λ r. member_of json (codes "priceFilter") j then (λ l.
          fields (price_filter_fields l) r.price_filter
          then (λ filter. read (record r { price_filter = filter }))))
      ∷ (λ r. member_of json (codes "lotSizeFilter") j then (λ l.
          fields (lot_size_filter_fields l) r.lot_size_filter
          then (λ filter. read (record r { lot_size_filter = filter }))))
      ∷ []

  -- `Instrument::fromJson` of a new `Instrument`.
  unfoldable pub instrument_from_json : J → Reading (Instrument Double)
  unfolding instrument_steps steps
  instrument_from_json j = steps (instrument_steps j) (new_instrument ds)

  -- `Instruments::fromJson`, of the response's `result`: its list.
  unfoldable pub instruments_from_json : J → Reading (List (Instrument Double))
  unfolding instrument_from_json read_rows list_rows ◌then◌
  instruments_from_json result = list_rows json result then read_rows instrument_from_json
