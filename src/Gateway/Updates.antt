-- ===== src/Gateway/Updates.antt =====
-- The handlers of the private stream's order and execution events.
pub mod Laws
pub mod Reading
use bybit_cpp_api.Base.{
  Bool, true, false, not, ◌&&◌, ◌||◌, Option, none, some, if◌then◌else◌, is_empty,
}
use bybit_cpp_api.Text.{Text}
use bybit_cpp_api.Errors.{
  RejectKind, benign_post_only_cross, min_notional, throttled, position_closed, permanent, hard,
}
use bybit_cpp_api.Models.Enums.{
  OrderStatus, created, new, rejected, partially_filled, partially_filled_canceled, filled,
  pending_cancel, cancelled, untriggered, deactivated, triggered, active, is_trade,
}
use bybit_cpp_api.Models.Orders.{EventOrderUpdate, EventExecution}
use bybit_cpp_api.Gateway.Interface.{Gateway, OrderState, OrderUpdate, FillEvent}
use bybit_cpp_api.Gateway.Reasons.{classify_reject_reason}
use bybit_cpp_api.Gateway.Cancel.{fill_of}

abbrev pub is_cross : RejectKind → Bool
is_cross benign_post_only_cross = true
is_cross _ = false

-- A cancelled order: a post-only cross is a benign reject, all else a cancel.
unfoldable pub cancelled_state : RejectKind → OrderState × Option RejectKind
cancelled_state kind =
    if is_cross kind
    then (OrderState.rejected, some benign_post_only_cross)
    else (OrderState.cancelled, none)

-- The `switch` over `orderStatus`; `none` is a return without an update.
unfoldable pub order_state : OrderStatus → Text → Option (OrderState × Option RejectKind)
unfolding cancelled_state
order_state created reason = some (OrderState.accepted, none)
order_state new reason = some (OrderState.accepted, none)
order_state partially_filled reason = some (OrderState.partially_filled, none)
order_state filled reason = some (OrderState.filled, none)
order_state pending_cancel reason = none
order_state cancelled reason = some (cancelled_state (classify_reject_reason reason))
order_state partially_filled_canceled reason =
    some (cancelled_state (classify_reject_reason reason))
order_state deactivated reason = some (cancelled_state (classify_reject_reason reason))
order_state rejected reason = some (OrderState.rejected, some (classify_reject_reason reason))
order_state untriggered reason = none
order_state triggered reason = none
order_state active reason = none

abbrev pub update_of :
    {D : Type 0}
    → EventOrderUpdate D
    → Option (OrderState × Option RejectKind)
    → Option (OrderUpdate D)
update_of event none = none
update_of event (some (state, kind)) = some (record {
  client_order_id = event.order_link_id;
  symbol = event.symbol;
  price = event.price;
  cum_filled_qty = event.cum_exec_qty;
  reason = event.reject_reason;
  state = state;
  reject_kind = kind;
})

-- The order update callback of the constructor: the update that is passed on, if any.
unfoldable pub on_order_update :
    {D : Type 0} → Gateway → EventOrderUpdate D → Option (OrderUpdate D)
on_order_update g event =
    if not g.has_order_cb || is_empty event.order_link_id
    then none
    else update_of event (order_state event.order_status event.reject_reason)

-- The execution callback of the constructor: the fill that is passed on, if any.
unfoldable pub on_execution : {D : Type 0} → Gateway → EventExecution D → Option (FillEvent D)
on_execution g event =
    if not g.has_fill_cb || not (is_trade event.exec_type) || is_empty event.order_link_id
    then none
    else some (fill_of event.order_link_id event.symbol event)
