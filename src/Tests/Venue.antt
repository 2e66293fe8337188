-- ===== src/Tests/Venue.antt =====
-- A gateway and a venue with concrete answers. Quantities stand for the doubles.
use bybit_cpp_api.Base.{ℕ, ◌+◌, true, some, List, [], ◌∷◌, ltb}
use bybit_cpp_api.Text.{Text, codes}
use bybit_cpp_api.Errors.{Result, ok, err, order_not_found}
use bybit_cpp_api.Models.Enums.{Side, OrderStatus, ExecType}
use bybit_cpp_api.Models.Orders.{Doubles, OrderResponse, new_order_response, EventExecution}
use bybit_cpp_api.Rest.Responses.{Response, read_response}
use bybit_cpp_api.Gateway.Interface.{RestApi, FillEvent, Gateway}

abbrev pub lots : Doubles
lots = record {
  Double = ℕ;
  zero = 0;
  add = λ a b. a + b;
  less = ltb;
  tiny = 0;
  cent = 1;
  milli = 1;
  show = λ a. [];
}

abbrev pub gateway : Gateway
gateway = record { position_idx = 0; has_order_cb = true; has_fill_cb = true }

abbrev pub execution : EventExecution ℕ
execution = record {
  category = codes "linear";
  symbol = codes "BTCUSDT";
  order_id = codes "o-1";
  order_link_id = codes "leg-1";
  exec_id = codes "e-1";
  side = Side.buy;
  exec_type = ExecType.trade;
  exec_price = 100;
  exec_qty = 3;
  exec_value = 300;
  exec_fee = 0;
  fee_rate = 0;
  leaves_qty = 0;
  closed_size = 0;
  is_maker = true;
  exec_time = 1;
  seq = 1;
}

abbrev pub fill : FillEvent ℕ
fill = record {
  client_order_id = codes "leg-1";
  symbol = codes "BTCUSDT";
  fill_id = codes "e-1";
  qty = 3;
  price = 100;
  is_maker = true;
}

abbrev pub order_of : Text → OrderResponse ℕ
order_of id = record (new_order_response lots) {
  order_id = codes "o-1";
  order_link_id = id;
  symbol = codes "BTCUSDT";
  price = 100;
  qty = 3;
  order_status = OrderStatus.filled;
  avg_price = 100;
  cum_exec_qty = 3;
  cum_exec_value = 300;
}

abbrev pub listed : List (OrderResponse ℕ)
listed = order_of (codes "leg-1") ∷ order_of (codes "other") ∷ order_of (codes "leg-2") ∷ []

-- A venue on which the order is gone, with one fill of it.
abbrev pub venue : Result Text → Result Text → RestApi ℕ
venue placed cancelled = record {
  place_order = λ order. placed;
  amend_order = λ category symbol id link_id price. ok (codes "o-1");
  cancel_order = λ category symbol id link_id. cancelled;
  get_executions = λ category symbol link_id. ok (execution ∷ []);
  get_order_history = λ category symbol id link_id. ok (some (order_of (codes "leg-1")));
  get_open_orders = λ category symbol settle_coin. ok listed;
}

abbrev pub gone : Result Text
gone = err (order_not_found (codes "Bybit API error, code: 110001, msg: order not exists"))

abbrev pub answer : ℕ → ℕ → Text → Response Text
answer status code msg = record {
  status = status;
  body = codes "body";
  ret_code = code;
  ret_msg = msg;
  value = codes "o-1";
}

abbrev pub answering : Response Text → RestApi ℕ
answering r = venue (read_response r) gone
