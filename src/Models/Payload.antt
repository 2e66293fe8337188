-- ===== src/Models/Payload.antt =====
-- What an order is sent as: include/stonky/bybit/bybit_models.h and src/bybit_models.cpp.
use bybit_cpp_api.Base.{
  ℕ, zero, suc, ℤ, ◌+◌, ◌≤◌, ◌≡◌, refl, Bool, true, false, not, List, [], ◌∷◌, ◌++◌, if◌then◌else◌,
  is_empty, arith,
}
use bybit_cpp_api.Text.{Text, codes}
use bybit_cpp_api.Models.Enums.{OrderType, TriggerPriceType}
use bybit_cpp_api.Models.Enums.Names
use bybit_cpp_api.Models.Orders.{Doubles, Order}

-- What the serialising code uses of the doubles besides.
pub record Decimals (D : Type 0) : Type 0 where
  pub ten : D
  pub pico : D  -- 1e-12
  pub times : D → D → D
  pub minus : D → D → D
  pub abs : D → D
  pub round : D → D  -- `llround`, as a double
  pub differs : D → D → Bool
  pub fixed : ℕ → D → Text  -- `formatDouble`

-- A member of a JSON object.
pub data Value : Type 0 where
  text : Text → Value
  flag : Bool → Value
  number : ℕ → Value
  integer : ℤ → Value

-- The members of an object, in the order they are set.
abbrev pub Payload : Type 0
Payload = List (Text × Value)

-- A member that is set under a condition.
abbrev pub set_if : Bool → Text → Value → Payload
set_if true key value = (key, value) ∷ []
set_if false key value = []

abbrev is_limit : OrderType → Bool
is_limit OrderType.limit = true
is_limit OrderType.market = false

abbrev pub is_last_price : TriggerPriceType → Bool
is_last_price TriggerPriceType.last_price = true
is_last_price _ = false

module _ (ds : Doubles) (dec : Decimals ds.Double) where
  open ds use {Double}

  abbrev is_fractional : Double → Bool
  is_fractional scaled =
      ds.less (ds.add (dec.times scaled ds.tiny) dec.pico)
        (dec.abs (dec.minus scaled (dec.round scaled)))

  -- The loop, with the number of places that are left to its limit.
  unfoldable pub count_places : ℕ → ℕ → Double → ℕ
  count_places zero places scaled = places
  count_places (suc left) places scaled =
      let rest = count_places left (suc places) (dec.times scaled dec.ten) in
      if is_fractional scaled then rest else places

  -- `decimalPlacesFromStep`.
  unfoldable pub decimal_places_from_step : Double → ℕ
  decimal_places_from_step step = if not (ds.less ds.zero step) then 0 else count_places 12 0 step

  -- `Order::toJson`.
  unfoldable pub to_json : Order Double → Payload
  to_json order =
      let price_precision = decimal_places_from_step order.price_step in
      ((codes "category", Value.text (Names.category order.category))
        ∷ (codes "side", Value.text (Names.side order.side))
        ∷ (codes "symbol", Value.text order.symbol)
        ∷ (codes "orderType", Value.text (Names.order_type order.order_type))
        ∷ (codes "timeInForce", Value.text (Names.time_in_force order.time_in_force))
        ∷ (codes "reduceOnly", Value.flag order.reduce_only)
        ∷ (codes "closeOnTrigger", Value.flag order.close_on_trigger)
        ∷ (codes "positionIdx", Value.number order.position_idx)
        ∷ [])
      ++ (set_if (not (is_empty order.order_link_id)) (codes "orderLinkId")
            (Value.text order.order_link_id)
          ++ ((
            codes "qty",
            Value.text (dec.fixed (decimal_places_from_step order.qty_step) order.qty),
          )
              ∷ (set_if (is_limit order.order_type) (codes "price")
                    (Value.text (dec.fixed price_precision order.price))
                  ++ (set_if (dec.differs order.take_profit ds.zero) (codes "takeProfit")
                        (Value.text (dec.fixed price_precision order.take_profit))
                      ++ (set_if (dec.differs order.stop_loss ds.zero) (codes "stopLoss")
                            (Value.text (dec.fixed price_precision order.stop_loss))
                          ++ (set_if (is_last_price order.tp_trigger_by) (codes "tpTriggerBy")
                                (Value.text (codes "LastPrice"))
                              ++ set_if (is_last_price order.sl_trigger_by) (codes "slTriggerBy")
                                  (Value.text (codes "LastPrice"))))))))

  count_places-le :
      (left places : ℕ) (scaled : Double) → count_places left places scaled ≤ places + left
  unfolding count_places
  count_places-le zero places scaled = omega arith
  count_places-le (suc left) places scaled =
      ground (arith, count_places-le left (suc places) (dec.times scaled dec.ten))

  -- No step asks for more than twelve decimal places.
  pub decimal_places_from_step-le : (step : Double) → decimal_places_from_step step ≤ 12
  unfolding decimal_places_from_step
  decimal_places_from_step-le step = ground (arith, count_places-le 12 0 step)

  -- Orders that differ only in what triggers their take profit and their stop loss are sent as the same
  -- members, if neither trigger is the last price: the mark price and the index price are not sent.
  pub to_json-trigger :
      (order : Order Double) (t u s v : TriggerPriceType)
      → is_last_price t ≡ false
      → is_last_price u ≡ false
      → is_last_price s ≡ false
      → is_last_price v ≡ false
      → to_json (record order { tp_trigger_by = t; sl_trigger_by = u })
        ≡ to_json (record order { tp_trigger_by = s; sl_trigger_by = v })
  unfolding to_json
  to_json-trigger order t u s v ht hu hs hv = rw (ht, hu, hs, hv) refl
