-- ===== src/Models/Json/Events/Members.antt =====
-- Order events as they are read, member by member (src/bybit_event_models.cpp).
use bybit_cpp_api.Base.{◌≡◌, Bool, true, false, ◌&&◌, [], if◌then◌else◌}
use bybit_cpp_api.Text.{codes}
use bybit_cpp_api.Models.Enums.{Side, OrderType, OrderStatus, TimeInForce}
use bybit_cpp_api.Models.Enums.Casts.{
  side_cast, order_type_cast, order_status_cast, time_in_force_cast,
}
use bybit_cpp_api.Models.Orders.{Doubles, EventOrderUpdate}
use bybit_cpp_api.Models.Json.{Json, thrown, read, into, member_or, whole}
use bybit_cpp_api.Models.Json.Laws.{fields-updated}
use bybit_cpp_api.Models.Json.Events.{
  new_event_order_update, event_order_update_fields, event_order_update_from_json,
}

module _ (ds : Doubles) {J : Type 0} (json : Json J ds.Double) where
  open ds use {Double}

  -- The event with each member's value, or its initial one where the member is absent.
  abbrev pub order_members : J → EventOrderUpdate Double
  order_members j = record {
    category = member_or [] (json.text j (codes "category"));
    symbol = member_or [] (json.text j (codes "symbol"));
    order_id = member_or [] (json.text j (codes "orderId"));
    order_link_id = member_or [] (json.text j (codes "orderLinkId"));
    side = member_or Side.no_side (json.enumerator side_cast j (codes "side"));
    order_type = member_or OrderType.limit (json.enumerator order_type_cast j (codes "orderType"));
    order_status =
        member_or OrderStatus.created (json.enumerator order_status_cast j (codes "orderStatus"));
    reject_reason = member_or [] (json.text j (codes "rejectReason"));
    cancel_type = member_or [] (json.text j (codes "cancelType"));
    time_in_force =
        member_or TimeInForce.gtc (json.enumerator time_in_force_cast j (codes "timeInForce"));
    price = member_or ds.zero (json.double j (codes "price"));
    qty = member_or ds.zero (json.double j (codes "qty"));
    avg_price = member_or ds.zero (json.double j (codes "avgPrice"));
    leaves_qty = member_or ds.zero (json.double j (codes "leavesQty"));
    cum_exec_qty = member_or ds.zero (json.double j (codes "cumExecQty"));
    cum_exec_value = member_or ds.zero (json.double j (codes "cumExecValue"));
    reduce_only = member_or false (json.flag j (codes "reduceOnly"));
    created_time = member_or 0 (json.number j (codes "createdTime"));
    updated_time = member_or 0 (json.number j (codes "updatedTime"));
  }

  -- Whether no member has a type that its reader throws on.
  abbrev pub is_whole : J → Bool
  is_whole j =
      whole (json.text j (codes "category"))
      && (whole (json.text j (codes "symbol"))
          && (whole (json.text j (codes "orderId"))
              && (whole (json.text j (codes "orderLinkId"))
                  && (whole (json.enumerator side_cast j (codes "side"))
                      && (whole (json.enumerator order_type_cast j (codes "orderType"))
                          && (whole (json.enumerator order_status_cast j (codes "orderStatus"))
                              && (whole (json.text j (codes "rejectReason"))
                                  && (whole (json.text j (codes "cancelType"))
                                      && (whole (
                                            json.enumerator time_in_force_cast j
                                              (codes "timeInForce"))
                                          && (whole (json.double j (codes "price"))
                                              && (whole (json.double j (codes "qty"))
                                                  && (whole (json.double j (codes "avgPrice"))
                                                      && (whole (json.double j (codes "leavesQty"))
                                                          && (whole
                                                            (json.double j (codes "cumExecQty"))
                                                            && (whole
                                                            (json.double j (codes "cumExecValue"))
                                                            && (whole
                                                            (json.flag j (codes "reduceOnly"))
                                                            && (whole
                                                            (json.number j (codes "createdTime"))
                                                            && (whole
                                                            (json.number j (codes "updatedTime"))
                                                            && true))))))))))))))))))

  -- An order event is read as its members say, in full: a member that is there gives the field its value,
  -- an absent one leaves the field's initial value, and the reading throws if and only if some member is
  -- there with a type that its reader throws on.
  pub event_order_update_from_json-members :
      (j : J)
      → event_order_update_from_json ds json j
        ≡ (if is_whole j then read (order_members j) else thrown)
  unfolding event_order_update_from_json event_order_update_fields into
  event_order_update_from_json-members j =
      fields-updated (event_order_update_fields ds json j) (new_event_order_update ds)
