-- ===== src/Client/Private/Messages.antt =====
-- The data callback of the private stream, from the JSON of a message to the events that it delivers.
use bybit_cpp_api.Base.{
  ◌≡◌, refl, ap, ◌∙◌, Bool, true, false, Option, none, some, List, [], ◌∷◌, map, if◌then◌else◌,
}
use bybit_cpp_api.Models.Orders.{Doubles, EventOrderUpdate, EventExecution}
use bybit_cpp_api.Models.Json.{Json, Reading, thrown, read}
use bybit_cpp_api.Models.Json.Stream.{StreamEvent}
use bybit_cpp_api.Models.Json.Events.{event_order_update_from_json, event_execution_from_json}
use bybit_cpp_api.Models.Json.Events.Members.{
  order_members, is_whole, event_order_update_from_json-members,
}
use bybit_cpp_api.Client.Private.{Route, route, dispatch_array, deliver}

-- What a callback is called with.
pub data Delivery (D : Type 0) : Type 0 where
  order : EventOrderUpdate D → Delivery D
  execution : EventExecution D → Delivery D

-- A `fromJson` in a `try` block.
unfoldable pub parsed : {A : Type 0} → Reading A → Option A
parsed (read a) = some a
parsed _ = none

module _ (ds : Doubles) {J : Type 0} (json : Json J ds.Double) where
  open ds use {Double}

  -- The items that `dispatchArray` goes through: none of data that are not an array.
  unfoldable pub data_items : StreamEvent J → List J
  data_items event = if json.is_array event.data_json then json.items event.data_json else []

  -- The data callback, with both callbacks set.
  unfoldable pub routed : Route → StreamEvent J → List (Delivery Double)
  unfolding data_items parsed
  routed Route.to_orders event =
      map (λ e. Delivery.order e)
        (dispatch_array (λ j. parsed (event_order_update_from_json ds json j)) (data_items event))
  routed Route.to_executions event =
      map (λ e. Delivery.execution e)
        (dispatch_array (λ j. parsed (event_execution_from_json ds json j)) (data_items event))
  routed Route.ignored event = []

  unfoldable pub on_private_event : StreamEvent J → List (Delivery Double)
  unfolding routed
  on_private_event event = routed (route event.topic) event

  -- The items of which no member has a type that its reader throws on.
  abbrev pub whole_items : List J → List J
  whole_items [] = []
  whole_items (j ∷ js) = if is_whole ds json j then j ∷ whole_items js else whole_items js

  deliver-members :
      (whole : Bool) (j : J) (rest : List (EventOrderUpdate Double)) (js : List J)
      → rest ≡ map (order_members ds json) js
      → deliver (parsed (if whole then read (order_members ds json j) else thrown)) rest
        ≡ map (order_members ds json) (if whole then j ∷ js else js)
  unfolding parsed
  deliver-members true j rest js e = ap (λ l. order_members ds json j ∷ l) e
  deliver-members false j rest js e = e

  dispatch_array-members :
      (js : List J)
      → dispatch_array (λ j. parsed (event_order_update_from_json ds json j)) js
        ≡ map (order_members ds json) (whole_items js)
  unfolding dispatch_array
  dispatch_array-members [] = refl
  dispatch_array-members (j ∷ js) =
      ap
        (λ r.
          deliver (parsed r)
            (dispatch_array (λ j. parsed (event_order_update_from_json ds json j)) js))
        (event_order_update_from_json-members ds json j)
      ∙ deliver-members (is_whole ds json j) j _ (whole_items js) (dispatch_array-members js)

  -- A message of an order topic delivers one event for each item of its array that is read, in the items'
  -- order, whatever the items between them are: an item is dropped alone, if and only if some member of
  -- it has a type that its reader throws on, and a delivered event has each member's value, or the initial
  -- value of a new event where the member is absent.
  pub on_private_event-orders :
      (event : StreamEvent J)
      → route event.topic ≡ Route.to_orders
      → json.is_array event.data_json ≡ true
      → on_private_event event
        ≡ map
            (λ e. Delivery.order e)
            (map (order_members ds json) (whole_items (json.items event.data_json)))
  unfolding on_private_event routed data_items
  on_private_event-orders event topic array =
      ap (λ r. routed r event) topic
      ∙ rw array
          (ap (map (λ e. Delivery.order e)) (dispatch_array-members (json.items event.data_json)))
