-- ===== src/Models/Json/Orders.antt =====
-- The readers of orders and funding rates.
use bybit_cpp_api.Base.{List, [], ◌∷◌, if◌then◌else◌}
use bybit_cpp_api.Text.{codes}
use bybit_cpp_api.Models.Enums.Casts.{
  side_cast, order_type_cast, order_status_cast, time_in_force_cast, trigger_price_type_cast,
}
use bybit_cpp_api.Models.Orders.{Doubles, OrderResponse, new_order_response}
use bybit_cpp_api.Models.Json.{
  Json, Reading, ◌then◌, Field, fields, into, member_or, read_rows, list_rows,
}

module _ (ds : Doubles) {J : Type 0} (json : Json J ds.Double) where
  open ds use {Double}

  unfoldable pub order_response_fields : J → List (Field (OrderResponse Double))
  unfolding into
  order_response_fields j =
      into (λ r m. record r { order_id = member_or r.order_id m }) (json.text j (codes "orderId"))
      ∷ into (λ r m. record r { order_link_id = member_or r.order_link_id m })
          (json.text j (codes "orderLinkId"))
      ∷ into (λ r m. record r { symbol = member_or r.symbol m }) (json.text j (codes "symbol"))
      ∷ into (λ r m. record r { side = member_or r.side m })
          (json.enumerator side_cast j (codes "side"))
      ∷ into (λ r m. record r { price = member_or r.price m }) (json.double j (codes "price"))
      ∷ into (λ r m. record r { qty = member_or r.qty m }) (json.double j (codes "qty"))
      ∷ into (λ r m. record r { position_idx = member_or r.position_idx m })
          (json.integer j (codes "positionIdx"))
      ∷ into (λ r m. record r { order_status = member_or r.order_status m })
          (json.enumerator order_status_cast j (codes "orderStatus"))
      ∷ into (λ r m. record r { reject_reason = member_or r.reject_reason m })
          (json.text j (codes "rejectReason"))
      ∷ into (λ r m. record r { avg_price = member_or r.avg_price m })
          (json.double j (codes "avgPrice"))
      ∷ into (λ r m. record r { cum_exec_qty = member_or r.cum_exec_qty m })
          (json.double j (codes "cumExecQty"))
      ∷ into (λ r m. record r { cum_exec_value = member_or r.cum_exec_value m })
          (json.double j (codes "cumExecValue"))
      ∷ into (λ r m. record r { cum_exec_fee = member_or r.cum_exec_fee m })
          (json.double j (codes "cumExecFee"))
      ∷ into (λ r m. record r { time_in_force = member_or r.time_in_force m })
          (json.enumerator time_in_force_cast j (codes "timeInForce"))
      ∷ into (λ r m. record r { order_type = member_or r.order_type m })
          (json.enumerator order_type_cast j (codes "orderType"))
      ∷ into (λ r m. record r { reduce_only = member_or r.reduce_only m })
          (json.flag j (codes "reduceOnly"))
      ∷ into (λ r m. record r { close_on_trigger = member_or r.close_on_trigger m })
          (json.flag j (codes "closeOnTrigger"))
      ∷ into (λ r m. record r { last_price_on_created = member_or r.last_price_on_created m })
          (json.double j (codes "lastPriceOnCreated"))
      ∷ into (λ r m. record r { created_time = member_or r.created_time m })
          (json.text j (codes "createdTime"))
      ∷ into (λ r m. record r { updated_time = member_or r.updated_time m })
          (json.text j (codes "updatedTime"))
      ∷ into (λ r m. record r { take_profit = member_or r.take_profit m })
          (json.double j (codes "takeProfit"))
      ∷ into (λ r m. record r { stop_loss = member_or r.stop_loss m })
          (json.double j (codes "stopLoss"))
      ∷ into (λ r m. record r { tp_trigger_by = member_or r.tp_trigger_by m })
          (json.enumerator trigger_price_type_cast j (codes "tpTriggerBy"))
      ∷ into (λ r m. record r { sl_trigger_by = member_or r.sl_trigger_by m })
          (json.enumerator trigger_price_type_cast j (codes "slTriggerBy"))
      ∷ []

  -- `OrderResponse::fromJson` of a new `OrderResponse`.
  unfoldable pub order_response_from_json : J → Reading (OrderResponse Double)
  unfolding order_response_fields fields
  order_response_from_json j = fields (order_response_fields j) (new_order_response ds)

  -- `OrdersResponse::fromJson`, of the response's `result`: its list.
  unfoldable pub orders_response_from_json : J → Reading (List (OrderResponse Double))
  unfolding order_response_from_json read_rows list_rows ◌then◌
  orders_response_from_json result = list_rows json result then read_rows order_response_from_json
