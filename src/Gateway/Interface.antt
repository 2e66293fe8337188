-- ===== src/Gateway/Interface.antt =====
-- What the gateway works with: the REST client, and the events and results of its own interface
-- (`stonky/interface`, as the gateway uses them).
use bybit_cpp_api.Base.{ℕ, Bool, Option, List}
use bybit_cpp_api.Text.{Text}
use bybit_cpp_api.Errors.{Result, RejectKind}
use bybit_cpp_api.Models.Enums.{Category}
use bybit_cpp_api.Models.Orders.{Order, OrderResponse, EventExecution}

-- The REST client, as the answers that it gives while one operation of the gateway runs.
pub record RestApi (D : Type 0) : Type 0 where
  pub place_order : Order D → Result Text
  pub amend_order : Category → Text → Text → Text → D → Result Text
  pub cancel_order : Category → Text → Text → Text → Result Text
  pub get_executions : Category → Text → Text → Result (List (EventExecution D))
  pub get_order_history : Category → Text → Text → Text → Result (Option (OrderResponse D))
  pub get_open_orders : Category → Text → Text → Result (List (OrderResponse D))

pub data OrderSide : Type 0 where
  buy sell : OrderSide

pub data OrderState : Type 0 where
  accepted partially_filled filled cancelled rejected : OrderState

pub record OrderUpdate (D : Type 0) : Type 0 where
  pub client_order_id : Text
  pub symbol : Text
  pub price : D
  pub cum_filled_qty : D
  pub reason : Text
  pub state : OrderState
  pub reject_kind : Option RejectKind  -- `none` is the member's initialiser

pub record FillEvent (D : Type 0) : Type 0 where
  pub client_order_id : Text
  pub symbol : Text
  pub fill_id : Text
  pub qty : D
  pub price : D
  pub is_maker : Bool

-- The members of `BybitExecutionGateway::P` that the operations read.
pub record Gateway : Type 0 where
  pub position_idx : ℕ
  pub has_order_cb : Bool
  pub has_fill_cb : Bool

-- What an operation does: the fills that it hands to the callback, in order, and its result.
pub record Outcome (D A : Type 0) : Type 0 where
  pub fills : List (FillEvent D)
  pub result : Result A
