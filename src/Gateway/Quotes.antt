-- ===== src/Gateway/Quotes.antt =====
-- The gateway as it is made, its callbacks, and its quotes (src/bybit_execution_gateway.cpp).
use bybit_cpp_api.Base.{ℕ, Bool, false, Option, none, some, if◌then◌else◌}
use bybit_cpp_api.Text.{Text}
use bybit_cpp_api.Models.Enums.{Environment}
use bybit_cpp_api.Models.Streams.{EventTicker}
use bybit_cpp_api.Client.{Client}
use bybit_cpp_api.Client.Public.{Manager, new_manager, set_timeout}
use bybit_cpp_api.Gateway.Interface.{Gateway}
use bybit_cpp_api.Gateway.Specs.{Quote, to_quote}

-- The gateway of the constructor, without callbacks, and its public stream.
unfoldable pub new_gateway : ℕ → Gateway
new_gateway position_idx = record {
  position_idx = position_idx;
  has_order_cb = false;
  has_fill_cb = false;
}

unfoldable pub new_public_stream : {D : Type 0} → Environment → Client → Manager D
unfolding new_manager set_timeout
new_public_stream env c = set_timeout 1 (new_manager env c)

-- `setOrderUpdateCallback` and `setFillCallback`, with whether they are set.
unfoldable pub set_order_update_callback : Bool → Gateway → Gateway
set_order_update_callback given g = record g { has_order_cb = given }

unfoldable pub set_fill_callback : Bool → Gateway → Gateway
set_fill_callback given g = record g { has_fill_cb = given }

-- The ticker callback: what it hands to the quote callback, if that is set.
unfoldable pub on_quote : {D : Type 0} → Bool → EventTicker D → Option (Text × Quote D)
unfolding to_quote
on_quote has_quote_cb t = if has_quote_cb then some (t.symbol, to_quote t) else none
