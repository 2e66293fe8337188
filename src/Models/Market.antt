-- ===== src/Models/Market.antt =====
-- Positions. `D` is the type of the doubles.
use bybit_cpp_api.Base.{ℕ, Bool, true, false, []}
use bybit_cpp_api.Text.{Text}
use bybit_cpp_api.Models.Enums.{Side, PositionStatus, TpSlMode}
use bybit_cpp_api.Models.Orders.{Doubles}

pub record Position (D : Type 0) : Type 0 where
  pub position_idx : ℕ
  pub risk_id : ℕ
  pub risk_limit_value : D
  pub symbol : Text
  pub side : Side
  pub size : D
  pub avg_price : D
  pub position_value : D
  pub trade_mode : ℕ
  pub position_status : PositionStatus
  pub auto_add_margin : ℕ
  pub adl_rank_indicator : ℕ
  pub leverage : D
  pub position_balance : D
  pub mark_price : D
  pub liq_price : D
  pub bust_price : D
  pub position_mm : D
  pub position_im : D
  pub tp_sl_mode : TpSlMode
  pub stop_loss : D
  pub take_profit : D
  pub trailing_stop : D
  pub unrealised_pnl : D
  pub cum_realised_pnl : D
  pub is_reduce_only : Bool
  pub created_time : ℕ
  pub updated_time : ℕ
  pub seq : ℕ
  pub mmr_sys_update_time : Text
  pub leverage_sys_updated_time : Text
  pub zero_size : Bool

-- A `Position` with its members' initialisers.
abbrev pub new_position : (ds : Doubles) → Position ds.Double
new_position ds = record {
  position_idx = 0;
  risk_id = 0;
  risk_limit_value = ds.zero;
  symbol = [];
  side = Side.buy;
  size = ds.zero;
  avg_price = ds.zero;
  position_value = ds.zero;
  trade_mode = 0;
  position_status = PositionStatus.normal;
  auto_add_margin = 0;
  adl_rank_indicator = 0;
  leverage = ds.zero;
  position_balance = ds.zero;
  mark_price = ds.zero;
  liq_price = ds.zero;
  bust_price = ds.zero;
  position_mm = ds.zero;
  position_im = ds.zero;
  tp_sl_mode = TpSlMode.full;
  stop_loss = ds.zero;
  take_profit = ds.zero;
  trailing_stop = ds.zero;
  unrealised_pnl = ds.zero;
  cum_realised_pnl = ds.zero;
  is_reduce_only = false;
  created_time = 0;
  updated_time = 0;
  seq = 0;
  mmr_sys_update_time = [];
  leverage_sys_updated_time = [];
  zero_size = true;
}
