-- ===== src/Gateway/Updates/Reading.antt =====
-- Order messages as the gateway reports them, from the JSON that the stream carries.
use bybit_cpp_api.Base.{◌≡◌, refl, true, false, none, some, [], is_empty}
use bybit_cpp_api.Text.{codes}
use bybit_cpp_api.Models.Enums.Casts.{order_status_cast}
use bybit_cpp_api.Models.Orders.{Doubles, EventOrderUpdate}
use bybit_cpp_api.Models.Streams.{Member}
use bybit_cpp_api.Models.Json.{Json, read, member_or}
use bybit_cpp_api.Models.Json.Events.{event_order_update_from_json}
use bybit_cpp_api.Models.Json.Events.Members.{
  order_members, is_whole, event_order_update_from_json-members,
}
use bybit_cpp_api.Gateway.Interface.{Gateway, OrderState, OrderUpdate}
use bybit_cpp_api.Gateway.Updates.{on_order_update, order_state}

module _ (ds : Doubles) {J : Type 0} (json : Json J ds.Double) where
  open ds use {Double}

  read_members :
      (j : J)
      → is_whole ds json j ≡ true
      → event_order_update_from_json ds json j ≡ read (order_members ds json j)
  read_members j h = rw (event_order_update_from_json-members ds json j, h) refl

  -- An order message that is read, has a link id and has no status that the reader knows is reported as
  -- accepted: its event keeps the status that a new event has.
  pub on_order_update-unread_status :
      (g : Gateway) (j : J)
      → g.has_order_cb ≡ true
      → is_whole ds json j ≡ true
      → json.enumerator order_status_cast j (codes "orderStatus") ≡ Member.absent
      → is_empty (member_or [] (json.text j (codes "orderLinkId"))) ≡ false
      → (event : EventOrderUpdate Double) × (update : OrderUpdate Double)
        × (event_order_update_from_json ds json j ≡ read event)
        × (on_order_update g event ≡ some update)
        × (update.state ≡ OrderState.accepted)
  unfolding on_order_update order_state
  on_order_update-unread_status g j cb w status id =
      let event = order_members ds json j in
      (
        event,
        record {
          client_order_id = event.order_link_id;
          symbol = event.symbol;
          price = event.price;
          cum_filled_qty = event.cum_exec_qty;
          reason = event.reject_reason;
          state = OrderState.accepted;
          reject_kind = none;
        },
        read_members j w,
        rw (cb, id, status) refl,
        refl,
      )
