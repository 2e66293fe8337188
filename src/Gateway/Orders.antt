-- ===== src/Gateway/Orders.antt =====
-- Operations that create or change orders.
use bybit_cpp_api.Base.{Bool, true, not, [], ◌++◌, if◌then◌else◌}
use bybit_cpp_api.Text.{Text, codes}
use bybit_cpp_api.Errors.{
  Error, Result, ok, err, transport_error, gateway_error, throttled, what, ◌>>=◌,
}
use bybit_cpp_api.Models.Enums.{Side, Category, OrderType, TimeInForce}
use bybit_cpp_api.Models.Orders.{Doubles, Order, new_order}
use bybit_cpp_api.Gateway.Interface.{RestApi, OrderSide, Gateway}
use bybit_cpp_api.Gateway.Reasons.{classify_reject_reason, is_ambiguous_outcome_reason}

-- `toSide` and `fromSide`.
unfoldable pub to_side : Side → OrderSide
to_side Side.buy = OrderSide.buy
to_side _ = OrderSide.sell

unfoldable pub from_side : OrderSide → Side
from_side OrderSide.buy = Side.buy
from_side OrderSide.sell = Side.sell

-- `requireEventStream`, with what `privateStream->isLive()` answers.
unfoldable pub require_event_stream : Bool → Text → Result (Unit {0})
require_event_stream live op =
    if not live
    then err (
        gateway_error throttled (
          codes "Bybit private stream not live — "
          ++ (op ++ codes " gated until order/execution events flow (fills would be lost)")))
    else ok tt

-- The second handler, `catch (std::exception &)`.
unfoldable pub reject : Error → Error
reject x =
    if is_ambiguous_outcome_reason (what x)
    then x
    else gateway_error (classify_reject_reason (what x)) (what x)

-- The handlers of the order operations: `catch (TransportError &)` rethrows.
unfoldable pub translate : Error → Error
unfolding reject
translate (transport_error m) = transport_error m
translate x = reject x

unfoldable pub guarded {ℓ} : {A : Type ℓ} → Result A → Result (Unit {0})
guarded (ok a) = ok tt
guarded (err x) = err (translate x)

module _ (ds : Doubles) where
  open ds use {Double}

  -- The order that `submitPostOnlyLimit` sends.
  unfoldable pub post_only_limit :
      Gateway → Text → Text → OrderSide → Double → Double → Bool → Order Double
  unfolding from_side
  post_only_limit g id symbol side qty price reduce_only = record (new_order ds) {
    category = Category.linear;
    symbol = symbol;
    side = from_side side;
    order_type = OrderType.limit;
    time_in_force = TimeInForce.post_only;
    qty = qty;
    price = price;
    reduce_only = reduce_only;
    order_link_id = id;
    position_idx = g.position_idx;
  }

  -- The order that `submitReduceOnlyMarket` sends.
  unfoldable pub reduce_only_market : Gateway → Text → Text → OrderSide → Double → Order Double
  unfolding from_side
  reduce_only_market g id symbol side qty = record (new_order ds) {
    category = Category.linear;
    symbol = symbol;
    side = from_side side;
    order_type = OrderType.market;
    time_in_force = TimeInForce.ioc;
    qty = qty;
    reduce_only = true;
    order_link_id = id;
    position_idx = g.position_idx;
  }

  -- `submitPostOnlyLimit`.
  unfoldable pub submit_post_only_limit :
      RestApi Double
      → Gateway
      → Bool
      → Text
      → Text
      → OrderSide
      → Double
      → Double
      → Bool
      → Result (Unit {0})
  submit_post_only_limit api g live id symbol side qty price reduce_only =
      require_event_stream live (codes "submit") >>= λ _.
      guarded (api.place_order (post_only_limit g id symbol side qty price reduce_only))

  -- `submitReduceOnlyMarket`, which closes a position and is not gated.
  unfoldable pub submit_reduce_only_market :
      RestApi Double → Gateway → Text → Text → OrderSide → Double → Result (Unit {0})
  submit_reduce_only_market api g id symbol side qty =
      guarded (api.place_order (reduce_only_market g id symbol side qty))

-- `amendPrice`.
unfoldable pub amend_price : {D : Type 0} → RestApi D → Bool → Text → Text → D → Result (Unit {0})
amend_price api live id symbol price = require_event_stream live (codes "amend") >>= λ _.
    guarded (api.amend_order Category.linear symbol [] id price)
