-- ===== src/Rest/Closing.antt =====
-- `closeAllPositions`: the orders that it places, in the order of the listed positions.
pub mod Reading
use bybit_cpp_api.Base.{◌≡◌, refl, false, not, List, [], ◌∷◌, if◌then◌else◌, All, if-elim}
use bybit_cpp_api.Models.Enums.{Side, Category, OrderType, TimeInForce}
use bybit_cpp_api.Models.Orders.{Doubles, Order, new_order}
use bybit_cpp_api.Models.Market.{Position}

abbrev pub closing_side : Side → Side
closing_side Side.buy = Side.sell
closing_side _ = Side.buy

module _ (ds : Doubles) where
  open ds use {Double}

  abbrev pub closing_order : Position Double → Order Double
  closing_order pos = record (new_order ds) {
    symbol = pos.symbol;
    side = closing_side pos.side;
    order_type = OrderType.market;
    qty = pos.size;
    time_in_force = TimeInForce.gtc;
  }

  -- The loop, whatever category its caller named.
  unfoldable pub closing_orders : Category → List (Position Double) → List (Order Double)
  closing_orders category [] = []
  closing_orders category (pos ∷ positions) =
      if not pos.zero_size
      then closing_order pos ∷ closing_orders category positions
      else closing_orders category positions

  -- Every order that closes positions goes to the linear category, whatever category was asked for,
  -- and none is marked as reducing only.
  pub closing_orders-category :
      (category : Category) (positions : List (Position Double))
      → All
          (λ (order : Order Double).
            (order.category ≡ Category.linear) × (order.reduce_only ≡ false))
          (closing_orders category positions)
  unfolding closing_orders
  closing_orders-category category [] = tt
  closing_orders-category category (pos ∷ positions) =
      if-elim
        (λ (l : List (Order Double)).
          All
            (λ (order : Order Double).
              (order.category ≡ Category.linear) × (order.reduce_only ≡ false))
            l)
        (not pos.zero_size) _ _ ((refl, refl), closing_orders-category category positions)
        (closing_orders-category category positions)
