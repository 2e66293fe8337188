-- ===== src/Models/Json/Events.antt =====
-- The readers of the private stream's events and of candle events.
pub mod Members
use bybit_cpp_api.Base.{
  ℕ, Bool, true, false, not, ◌&&◌, Option, none, some, List, [], ◌∷◌, ◌++◌, is_some, is_empty,
  if◌then◌else◌,
}
use bybit_cpp_api.Text.{Text, codes}
use bybit_cpp_api.Models.Enums.{
  Side, OrderType, OrderStatus, TimeInForce, ExecType, Category, ResponseType, AccountType,
  TpSlMode, PositionStatus, ContractType, ContractStatus, TriggerPriceType,
}
use bybit_cpp_api.Models.Enums.Casts.{
  side_cast, category_cast, order_type_cast, order_status_cast, time_in_force_cast,
  trigger_price_type_cast, exec_type_cast, response_type_cast, account_type_cast, tp_sl_mode_cast,
  position_status_cast, contract_type_cast, contract_status_cast,
}
use bybit_cpp_api.Models.Orders.{
  Doubles, OrderResponse, new_order_response, EventOrderUpdate, EventExecution,
}
use bybit_cpp_api.Models.Market.{Position, new_position}
use bybit_cpp_api.Models.Candles.{Candle}
use bybit_cpp_api.Models.Streams.{Member, EventCandlestick}
use bybit_cpp_api.Models.Tickers.{Ticker, new_ticker}
use bybit_cpp_api.Models.Wallet.{Coin, new_coin, AccountBalance, new_account_balance}
use bybit_cpp_api.Models.Instruments.{
  PriceFilter, LeverageFilter, LotSizeFilter, Instrument, new_instrument,
}
use bybit_cpp_api.Models.Json.{
  Json, Reading, thrown, undefined, read, ◌then◌, Step, steps, Field, fields, into, member_or,
  read_rows, list_rows, member_of, only_if, has_member,
}

-- An `EventOrderUpdate` with its members' initialisers.
abbrev pub new_event_order_update : (ds : Doubles) → EventOrderUpdate ds.Double
new_event_order_update ds = record {
  category = [];
  symbol = [];
  order_id = [];
  order_link_id = [];
  side = Side.no_side;
  order_type = OrderType.limit;
  order_status = OrderStatus.created;
  reject_reason = [];
  cancel_type = [];
  time_in_force = TimeInForce.gtc;
  price = ds.zero;
  qty = ds.zero;
  avg_price = ds.zero;
  leaves_qty = ds.zero;
  cum_exec_qty = ds.zero;
  cum_exec_value = ds.zero;
  reduce_only = false;
  created_time = 0;
  updated_time = 0;
}

-- An `EventExecution` with its members' initialisers.
abbrev pub new_event_execution : (ds : Doubles) → EventExecution ds.Double
new_event_execution ds = record {
  category = [];
  symbol = [];
  order_id = [];
  order_link_id = [];
  exec_id = [];
  side = Side.no_side;
  exec_type = ExecType.unknown;
  exec_price = ds.zero;
  exec_qty = ds.zero;
  exec_value = ds.zero;
  exec_fee = ds.zero;
  fee_rate = ds.zero;
  leaves_qty = ds.zero;
  closed_size = ds.zero;
  is_maker = false;
  exec_time = 0;
  seq = 0;
}

-- An `EventCandlestick` with its members' initialisers.
abbrev pub new_event_candlestick : (ds : Doubles) → EventCandlestick ds.Double
new_event_candlestick ds = record {
  start = 0;
  end = 0;
  interval = [];
  open_price = ds.zero;
  high = ds.zero;
  low = ds.zero;
  close = ds.zero;
  volume = ds.zero;
  turnover = ds.zero;
  confirm = false;
  timestamp = 0;
}

module _ (ds : Doubles) {J : Type 0} (json : Json J ds.Double) where
  open ds use {Double}

  unfoldable pub event_order_update_fields : J → List (Field (EventOrderUpdate Double))
  unfolding into
  event_order_update_fields j =
      into (λ r m. record r { category = member_or r.category m }) (json.text j (codes "category"))
      ∷ into (λ r m. record r { symbol = member_or r.symbol m }) (json.text j (codes "symbol"))
      ∷ into (λ r m. record r { order_id = member_or r.order_id m }) (json.text j (codes "orderId"))
      ∷ into (λ r m. record r { order_link_id = member_or r.order_link_id m })
          (json.text j (codes "orderLinkId"))
      ∷ into (λ r m. record r { side = member_or r.side m })
          (json.enumerator side_cast j (codes "side"))
      ∷ into (λ r m. record r { order_type = member_or r.order_type m })
          (json.enumerator order_type_cast j (codes "orderType"))
      ∷ into (λ r m. record r { order_status = member_or r.order_status m })
          (json.enumerator order_status_cast j (codes "orderStatus"))
      ∷ into (λ r m. record r { reject_reason = member_or r.reject_reason m })
          (json.text j (codes "rejectReason"))
      ∷ into (λ r m. record r { cancel_type = member_or r.cancel_type m })
          (json.text j (codes "cancelType"))
      ∷ into (λ r m. record r { time_in_force = member_or r.time_in_force m })
          (json.enumerator time_in_force_cast j (codes "timeInForce"))
      ∷ into (λ r m. record r { price = member_or r.price m }) (json.double j (codes "price"))
      ∷ into (λ r m. record r { qty = member_or r.qty m }) (json.double j (codes "qty"))
      ∷ into (λ r m. record r { avg_price = member_or r.avg_price m })
          (json.double j (codes "avgPrice"))
      ∷ into (λ r m. record r { leaves_qty = member_or r.leaves_qty m })
          (json.double j (codes "leavesQty"))
      ∷ into (λ r m. record r { cum_exec_qty = member_or r.cum_exec_qty m })
          (json.double j (codes "cumExecQty"))
      ∷ into (λ r m. record r { cum_exec_value = member_or r.cum_exec_value m })
          (json.double j (codes "cumExecValue"))
      ∷ into (λ r m. record r { reduce_only = member_or r.reduce_only m })
          (json.flag j (codes "reduceOnly"))
      ∷ into (λ r m. record r { created_time = member_or r.created_time m })
          (json.number j (codes "createdTime"))
      ∷ into (λ r m. record r { updated_time = member_or r.updated_time m })
          (json.number j (codes "updatedTime"))
      ∷ []

  -- `EventOrderUpdate::fromJson` of a new `EventOrderUpdate`.
  unfoldable pub event_order_update_from_json : J → Reading (EventOrderUpdate Double)
  unfolding event_order_update_fields fields
  event_order_update_from_json j = fields (event_order_update_fields j) (new_event_order_update ds)

  unfoldable pub event_execution_fields : J → List (Field (EventExecution Double))
  unfolding into
  event_execution_fields j =
      into (λ r m. record r { category = member_or r.category m }) (json.text j (codes "category"))
      ∷ into (λ r m. record r { symbol = member_or r.symbol m }) (json.text j (codes "symbol"))
      ∷ into (λ r m. record r { order_id = member_or r.order_id m }) (json.text j (codes "orderId"))
      ∷ into (λ r m. record r { order_link_id = member_or r.order_link_id m })
          (json.text j (codes "orderLinkId"))
      ∷ into (λ r m. record r { exec_id = member_or r.exec_id m }) (json.text j (codes "execId"))
      ∷ into (λ r m. record r { side = member_or r.side m })
          (json.enumerator side_cast j (codes "side"))
      ∷ into (λ r m. record r { exec_type = member_or r.exec_type m })
          (json.enumerator exec_type_cast j (codes "execType"))
      ∷ into (λ r m. record r { exec_price = member_or r.exec_price m })
          (json.double j (codes "execPrice"))
      ∷ into (λ r m. record r { exec_qty = member_or r.exec_qty m })
          (json.double j (codes "execQty"))
      ∷ into (λ r m. record r { exec_value = member_or r.exec_value m })
          (json.double j (codes "execValue"))
      ∷ into (λ r m. record r { exec_fee = member_or r.exec_fee m })
          (json.double j (codes "execFee"))
      ∷ into (λ r m. record r { fee_rate = member_or r.fee_rate m })
          (json.double j (codes "feeRate"))
      ∷ into (λ r m. record r { leaves_qty = member_or r.leaves_qty m })
          (json.double j (codes "leavesQty"))
      ∷ into (λ r m. record r { closed_size = member_or r.closed_size m })
          (json.double j (codes "closedSize"))
      ∷ into (λ r m. record r { is_maker = member_or r.is_maker m }) (json.flag j (codes "isMaker"))
      ∷ into (λ r m. record r { exec_time = member_or r.exec_time m })
          (json.number j (codes "execTime"))
      ∷ into (λ r m. record r { seq = member_or r.seq m }) (json.integer j (codes "seq"))
      ∷ []

  -- `EventExecution::fromJson` of a new `EventExecution`.
  unfoldable pub event_execution_from_json : J → Reading (EventExecution Double)
  unfolding event_execution_fields fields
  event_execution_from_json j = fields (event_execution_fields j) (new_event_execution ds)

  unfoldable pub event_candlestick_fields : J → List (Field (EventCandlestick Double))
  unfolding into
  event_candlestick_fields j =
      into (λ r m. record r { start = member_or r.start m }) (json.integer j (codes "start"))
      ∷ into (λ r m. record r { end = member_or r.end m }) (json.integer j (codes "end"))
      ∷ into (λ r m. record r { interval = member_or r.interval m })
          (json.text j (codes "interval"))
      ∷ into (λ r m. record r { open_price = member_or r.open_price m })
          (json.double j (codes "open"))
      ∷ into (λ r m. record r { high = member_or r.high m }) (json.double j (codes "high"))
      ∷ into (λ r m. record r { low = member_or r.low m }) (json.double j (codes "low"))
      ∷ into (λ r m. record r { close = member_or r.close m }) (json.double j (codes "close"))
      ∷ into (λ r m. record r { volume = member_or r.volume m }) (json.double j (codes "volume"))
      ∷ into (λ r m. record r { turnover = member_or r.turnover m })
          (json.double j (codes "turnover"))
      ∷ into (λ r m. record r { confirm = member_or r.confirm m }) (json.flag j (codes "confirm"))
      ∷ into (λ r m. record r { timestamp = member_or r.timestamp m })
          (json.integer j (codes "timestamp"))
      ∷ []

  -- `EventCandlestick::fromJson` of a new `EventCandlestick`.
  unfoldable pub event_candlestick_from_json : J → Reading (EventCandlestick Double)
  unfolding event_candlestick_fields fields
  event_candlestick_from_json j = fields (event_candlestick_fields j) (new_event_candlestick ds)
