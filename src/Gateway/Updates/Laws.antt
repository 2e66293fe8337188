-- ===== src/Gateway/Updates/Laws.antt =====
-- What the events that the gateway passes on say.
use bybit_cpp_api.Base.{
  ◌≡◌, refl, ap, Bool, true, false, Option, none, some, ◌⊎◌, inl, inr, arith, is_empty,
}
use bybit_cpp_api.Text.{Text}
use bybit_cpp_api.Errors.{RejectKind, benign_post_only_cross}
use bybit_cpp_api.Models.Enums.{OrderStatus}
use bybit_cpp_api.Models.Orders.{EventOrderUpdate}
use bybit_cpp_api.Gateway.Interface.{Gateway, OrderState, OrderUpdate}
use bybit_cpp_api.Gateway.Reasons.{classify_reject_reason}
use bybit_cpp_api.Gateway.Updates.{cancelled_state, order_state, update_of, on_order_update}

-- A status that ends an order without a complete fill.
abbrev pub is_dead : OrderStatus → Bool
is_dead OrderStatus.cancelled = true
is_dead OrderStatus.partially_filled_canceled = true
is_dead OrderStatus.deactivated = true
is_dead OrderStatus.rejected = true
is_dead _ = false

-- An update is passed on with an order callback set, for an order with a client id, and it is made
-- of the event and of the state of its status.
update-some :
    {D : Type 0} (g : Gateway) (event : EventOrderUpdate D) (update : OrderUpdate D)
    → on_order_update g event ≡ some update
    → (g.has_order_cb ≡ true)
      × (is_empty event.order_link_id ≡ false)
      × (update_of event (order_state event.order_status event.reject_reason) ≡ some update)
unfolding on_order_update
update-some g event update h = ground arith

update_of-some :
    {D : Type 0} (event : EventOrderUpdate D) (o : Option (OrderState × Option RejectKind))
    (update : OrderUpdate D)
    → update_of event o ≡ some update
    → (o ≡ some (update.state, update.reject_kind))
      × (update.client_order_id ≡ event.order_link_id)
      × (update.symbol ≡ event.symbol)
      × (update.cum_filled_qty ≡ event.cum_exec_qty)
update_of-some event none update h = cc h
update_of-some event (some (state, kind)) update h = grind arith

order_state-cross :
    (s : OrderStatus) (reason : Text)
    → is_dead s ≡ true
    → classify_reject_reason reason ≡ benign_post_only_cross
    → order_state s reason ≡ some (OrderState.rejected, some benign_post_only_cross)
unfolding order_state cancelled_state
order_state-cross OrderStatus.cancelled reason d c = rw c refl
order_state-cross OrderStatus.partially_filled_canceled reason d c = rw c refl
order_state-cross OrderStatus.deactivated reason d c = rw c refl
order_state-cross OrderStatus.rejected reason d c = rw c refl
order_state-cross s reason d c = cc d

cancelled_state-cases :
    (kind : RejectKind)
    → (cancelled_state kind ≡ (OrderState.cancelled, none))
      ⊎ (cancelled_state kind ≡ (OrderState.rejected, some kind))
unfolding cancelled_state
cancelled_state-cases benign_post_only_cross = inr refl
cancelled_state-cases kind = inl refl

ended :
    (reason : Text)
    → (some (cancelled_state (classify_reject_reason reason)) ≡ some (OrderState.cancelled, none))
      ⊎ (some (cancelled_state (classify_reject_reason reason))
          ≡ some (OrderState.rejected, some (classify_reject_reason reason)))
ended reason = elim (cancelled_state-cases (classify_reject_reason reason)) [
  | inl e ↦ inl (ap some e)
  | inr e ↦ inr (ap some e)
]

order_state-dead :
    (s : OrderStatus) (reason : Text)
    → is_dead s ≡ true
    → (order_state s reason ≡ some (OrderState.cancelled, none))
      ⊎ (order_state s reason ≡ some (OrderState.rejected, some (classify_reject_reason reason)))
unfolding order_state
order_state-dead OrderStatus.cancelled reason d = ended reason
order_state-dead OrderStatus.partially_filled_canceled reason d = ended reason
order_state-dead OrderStatus.deactivated reason d = ended reason
order_state-dead OrderStatus.rejected reason d = inr refl
order_state-dead s reason d = cc d

-- An update is passed on only with an order callback set and for an order with a client id, and it
-- carries the client id, the symbol and the filled quantity of the venue's event.
pub on_order_update-some :
    {D : Type 0} (g : Gateway) (event : EventOrderUpdate D) (update : OrderUpdate D)
    → on_order_update g event ≡ some update
    → (g.has_order_cb ≡ true)
      × (is_empty event.order_link_id ≡ false)
      × (update.client_order_id ≡ event.order_link_id)
      × (update.symbol ≡ event.symbol)
      × (update.cum_filled_qty ≡ event.cum_exec_qty)
unfolding on_order_update
on_order_update-some g event update h =
    let r = update-some g event update h in
    let u = update_of-some event _ update r.2 in (r.0, r.1, u.1, u.2, u.3)

-- A post-only order that the venue refused to let cross is reported as a benign reject, on every
-- status that ends an order without a complete fill.
pub on_order_update-cross :
    {D : Type 0} (g : Gateway) (event : EventOrderUpdate D)
    → g.has_order_cb ≡ true
    → is_empty event.order_link_id ≡ false
    → is_dead event.order_status ≡ true
    → classify_reject_reason event.reject_reason ≡ benign_post_only_cross
    → (update : OrderUpdate D) × (on_order_update g event ≡ some update)
      × (update.state ≡ OrderState.rejected)
      × (update.reject_kind ≡ some benign_post_only_cross)
unfolding on_order_update
on_order_update-cross g event cb id dead cross =
    rw (cb, id, order_state-cross event.order_status event.reject_reason dead cross)
      (_, refl, refl, refl)

-- A venue status that says that an order ended is always passed on as an end: the update's state is
-- cancelled or rejected, and it is rejected if and only if it has a kind.
pub on_order_update-dead :
    {D : Type 0} (g : Gateway) (event : EventOrderUpdate D) (update : OrderUpdate D)
    → is_dead event.order_status ≡ true
    → on_order_update g event ≡ some update
    → ((update.state ≡ OrderState.cancelled) × (update.reject_kind ≡ none))
      ⊎ ((update.state ≡ OrderState.rejected)
          × (update.reject_kind ≡ some (classify_reject_reason event.reject_reason)))
on_order_update-dead g event update dead h =
    let u = update_of-some event _ update (update-some g event update h).2 in
    elim (order_state-dead event.order_status event.reject_reason dead) [
      | inl e ↦ inl (grind (arith, u.0, e))
      | inr e ↦ inr (grind (arith, u.0, e))
    ]
