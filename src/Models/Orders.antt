-- ===== src/Models/Orders.antt =====
-- Orders, their states and their fills. `D` is the type of the doubles. Texts are code points.
use bybit_cpp_api.Base.{ℕ, Bool, false, []}
use bybit_cpp_api.Text.{Text}
use bybit_cpp_api.Models.Enums.{
  Side, OrderType, TriggerPriceType, OrderStatus, Category, TimeInForce, ExecType,
}

-- The doubles that the code computes with: what it uses of them.
pub record Doubles : Type 1 where
  pub Double : Type 0
  pub zero : Double
  pub add : Double → Double → Double
  pub less : Double → Double → Bool
  pub tiny : Double  -- 1e-9
  pub cent : Double  -- 0.01, the step before the lookup
  pub milli : Double  -- 0.001, the step of a new order
  pub show : Double → Text  -- fmt's text of a double

pub record Order (D : Type 0) : Type 0 where
  pub category : Category
  pub symbol : Text
  pub side : Side
  pub order_type : OrderType
  pub qty : D
  pub price : D
  pub time_in_force : TimeInForce
  pub position_idx : ℕ
  pub order_link_id : Text
  pub take_profit : D
  pub stop_loss : D
  pub tp_trigger_by : TriggerPriceType
  pub sl_trigger_by : TriggerPriceType
  pub reduce_only : Bool
  pub close_on_trigger : Bool
  pub price_step : D
  pub qty_step : D

-- An `Order` with its members' initialisers.
abbrev pub new_order : (ds : Doubles) → Order ds.Double
new_order ds = record {
  category = Category.linear;
  symbol = [];
  side = Side.buy;
  order_type = OrderType.market;
  qty = ds.zero;
  price = ds.zero;
  time_in_force = TimeInForce.gtc;
  position_idx = 0;
  order_link_id = [];
  take_profit = ds.zero;
  stop_loss = ds.zero;
  tp_trigger_by = TriggerPriceType.last_price;
  sl_trigger_by = TriggerPriceType.last_price;
  reduce_only = false;
  close_on_trigger = false;
  price_step = ds.milli;
  qty_step = ds.milli;
}

pub record OrderResponse (D : Type 0) : Type 0 where
  pub order_id : Text
  pub order_link_id : Text
  pub symbol : Text
  pub price : D
  pub qty : D
  pub side : Side
  pub position_idx : ℕ
  pub order_status : OrderStatus
  pub reject_reason : Text
  pub avg_price : D
  pub cum_exec_qty : D
  pub cum_exec_value : D
  pub cum_exec_fee : D
  pub time_in_force : TimeInForce
  pub order_type : OrderType
  pub reduce_only : Bool
  pub close_on_trigger : Bool
  pub last_price_on_created : D
  pub created_time : Text
  pub updated_time : Text
  pub take_profit : D
  pub stop_loss : D
  pub tp_trigger_by : TriggerPriceType
  pub sl_trigger_by : TriggerPriceType

-- An `OrderResponse` with its members' initialisers.
abbrev pub new_order_response : (ds : Doubles) → OrderResponse ds.Double
new_order_response ds = record {
  order_id = [];
  order_link_id = [];
  symbol = [];
  price = ds.zero;
  qty = ds.zero;
  side = Side.buy;
  position_idx = 0;
  order_status = OrderStatus.created;
  reject_reason = [];
  avg_price = ds.zero;
  cum_exec_qty = ds.zero;
  cum_exec_value = ds.zero;
  cum_exec_fee = ds.zero;
  time_in_force = TimeInForce.gtc;
  order_type = OrderType.market;
  reduce_only = false;
  close_on_trigger = false;
  last_price_on_created = ds.zero;
  created_time = [];
  updated_time = [];
  take_profit = ds.zero;
  stop_loss = ds.zero;
  tp_trigger_by = TriggerPriceType.last_price;
  sl_trigger_by = TriggerPriceType.last_price;
}

pub record EventOrderUpdate (D : Type 0) : Type 0 where
  pub category : Text
  pub symbol : Text
  pub order_id : Text
  pub order_link_id : Text
  pub side : Side
  pub order_type : OrderType
  pub order_status : OrderStatus
  pub reject_reason : Text
  pub cancel_type : Text
  pub time_in_force : TimeInForce
  pub price : D
  pub qty : D
  pub avg_price : D
  pub leaves_qty : D
  pub cum_exec_qty : D
  pub cum_exec_value : D
  pub reduce_only : Bool
  pub created_time : ℕ
  pub updated_time : ℕ

pub record EventExecution (D : Type 0) : Type 0 where
  pub category : Text
  pub symbol : Text
  pub order_id : Text
  pub order_link_id : Text
  pub exec_id : Text
  pub side : Side
  pub exec_type : ExecType
  pub exec_price : D
  pub exec_qty : D
  pub exec_value : D
  pub exec_fee : D
  pub fee_rate : D
  pub leaves_qty : D
  pub closed_size : D
  pub is_maker : Bool
  pub exec_time : ℕ
  pub seq : ℕ
