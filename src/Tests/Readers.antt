-- ===== src/Tests/Readers.antt =====
-- JSON values with members of text, read by the models' readers.
use bybit_cpp_api.Base.{
  true, Bool, ℕ, ◌≡◌, refl, false, not, Option, none, some, List, [], ◌∷◌, map, if◌then◌else◌,
}
use bybit_cpp_api.Text.{Text, codes, same_text, starts_with, drop_prefix}
use bybit_cpp_api.Models.Enums.{Category}
use bybit_cpp_api.Models.Enums.Casts.{order_status_cast}
use bybit_cpp_api.Models.Orders.{EventOrderUpdate, Order}
use bybit_cpp_api.Models.Streams.{Member}
use bybit_cpp_api.Models.Market.{Position, new_position}
use bybit_cpp_api.Models.Json.{Json, thrown, read, list_rows}
use bybit_cpp_api.Models.Json.Events.{event_order_update_from_json}
use bybit_cpp_api.Models.Json.Events.Members.{order_members}
use bybit_cpp_api.Models.Json.Stream.{StreamEvent, new_stream_event}
use bybit_cpp_api.Client.Private.{route}
use bybit_cpp_api.Client.Private.Messages.{
  Delivery, on_private_event, whole_items, on_private_event-orders,
}
use bybit_cpp_api.Models.Json.Market.{positions_from_json}
use bybit_cpp_api.Rest.Closing.{closing_orders}
use bybit_cpp_api.Rest.Closing.Reading.{row_symbol, open_rows, closing_orders-from_json}
use bybit_cpp_api.Gateway.Interface.{OrderState, OrderUpdate}
use bybit_cpp_api.Gateway.Updates.{on_order_update}
use bybit_cpp_api.Gateway.Updates.Reading.{on_order_update-unread_status}
use bybit_cpp_api.Tests.Venue.{lots, gateway}

-- A text, an object of texts, or a result that lists objects.
data Document : Type 0 where
  leaf : Text → Document
  object : List (Text × Text) → Document
  listing : List (List (Text × Text)) → Document

unfoldable look_up : List (Text × Text) → Text → Option Text
look_up [] key = none
look_up ((name, value) ∷ members) key =
    if same_text name key then some value else look_up members key

abbrev members_of : Document → List (Text × Text)
members_of (object members) = members
members_of _ = []

abbrev rows_of : Document → List Document
rows_of (listing rows) = map object rows
rows_of _ = []

abbrev is_listing : Document → Bool
is_listing (listing rows) = true
is_listing _ = false

abbrev leaf_text : Document → Option Text
leaf_text (leaf t) = some t
leaf_text _ = none

abbrev member_text : Document → Text → Member Text
member_text j key = elim (look_up (members_of j) key) [
  | none ↦ Member.absent
  | some t ↦ Member.given t
]

-- The first digit stands for a number.
abbrev member_number : Document → Text → Member ℕ
member_number j key = elim (look_up (members_of j) key) [
  | none ↦ Member.absent
  | some [] ↦ Member.malformed
  | some (c ∷ digits) ↦ Member.given c
]

abbrev member_enumerator : {E : Type 0} → (Text → Option E) → Document → Text → Member E
member_enumerator cast j key = elim (look_up (members_of j) key) [
  | none ↦ Member.absent
  | some t ↦ elim (cast t) [ none ↦ Member.absent | some e ↦ Member.given e ]
]

abbrev documents : Json Document ℕ
documents = record {
  null = object [];
  find = λ j key. elim (look_up (members_of j) key) [ none ↦ none | some t ↦ some (leaf t) ];
  find_or_null = λ j key. read j;
  at = λ j n. thrown;
  items = rows_of;
  is_array = is_listing;
  get_text = λ j. thrown;
  as_text = leaf_text;
  stoll = λ t. thrown;
  stod = λ t. thrown;
  is_nonzero_decimal = λ t. read (not (same_text t (codes "0")));
  text = member_text;
  flag = λ j key. Member.absent;
  integer = member_number;
  double = member_number;
  number = member_number;
  enumerator = member_enumerator;
}

-- An order message with a status that the enum does not have.
abbrev message : Document
message = object (
    (codes "orderLinkId", codes "leg-1")
    ∷ (codes "orderStatus", codes "Expired")
    ∷ (codes "symbol", codes "BTCUSDT")
    ∷ [])

-- Two orders, of which the first has a price that is not a number.
abbrev batch : StreamEvent Document
batch = record (new_stream_event documents) {
  topic = codes "order";
  data_json = listing (
      ((codes "orderLinkId", codes "leg-1") ∷ (codes "price", []) ∷ [])
      ∷ ((codes "orderLinkId", codes "leg-2") ∷ (codes "price", codes "7") ∷ [])
      ∷ []);
}

on_private_event-orders_example :
    on_private_event lots documents batch
    ≡ map
        (λ e. Delivery.order e)
        (map (order_members lots documents) (whole_items lots documents (rows_of batch.data_json)))
unfolding route same_text starts_with drop_prefix
on_private_event-orders_example = on_private_event-orders lots documents batch refl refl

on_order_update-unread_status_example :
    (event : EventOrderUpdate ℕ) × (update : OrderUpdate ℕ) × (event_order_update_from_json lots
        documents message
      ≡ read event)
    × (on_order_update gateway event ≡ some update)
    × (update.state ≡ OrderState.accepted)
unfolding look_up same_text order_status_cast
on_order_update-unread_status_example =
    on_order_update-unread_status lots documents gateway message refl refl refl refl

abbrev row : Text → Text → List (Text × Text)
row symbol size = (codes "symbol", symbol) ∷ (codes "size", size) ∷ []

-- An open position and a closed one.
abbrev answer : Document
answer = listing (row (codes "BTCUSDT") (codes "5") ∷ row (codes "ETHUSDT") (codes "0") ∷ [])

abbrev held : List (Position ℕ)
held =
    record (new_position lots) { symbol = codes "BTCUSDT"; size = b'5'; zero_size = false }
    ∷ record (new_position lots) { symbol = codes "ETHUSDT"; size = b'0' }
    ∷ []

closing_orders-from_json_example :
    map (λ (order : Order ℕ). order.symbol) (closing_orders lots Category.linear held)
    ≡ map (row_symbol lots documents) (open_rows lots documents (rows_of answer))
unfolding look_up same_text list_rows positions_from_json
closing_orders-from_json_example =
    closing_orders-from_json lots documents Category.linear answer (rows_of answer) held refl refl
