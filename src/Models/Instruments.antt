-- ===== src/Models/Instruments.antt =====
-- Instruments. `D` is the type of the doubles.
use bybit_cpp_api.Base.{ℕ, Bool, true, []}
use bybit_cpp_api.Text.{Text}
use bybit_cpp_api.Models.Enums.{ContractType, ContractStatus, linear_perpetual, trading}
use bybit_cpp_api.Models.Orders.{Doubles}

pub record PriceFilter (D : Type 0) : Type 0 where
  pub min_price : D
  pub max_price : D
  pub tick_size : D

pub record LeverageFilter (D : Type 0) : Type 0 where
  pub min_leverage : D
  pub max_leverage : D
  pub leverage_step : D

pub record LotSizeFilter (D : Type 0) : Type 0 where
  pub max_order_qty : D
  pub min_order_qty : D
  pub qty_step : D
  pub post_only_max_trading_qty : D
  pub min_notional_value : D

pub record Instrument (D : Type 0) : Type 0 where
  pub symbol : Text
  pub contract_type : ContractType
  pub contract_status : ContractStatus
  pub base_coin : Text
  pub quote_coin : Text
  pub symbol_type : Text
  pub launch_time : ℕ
  pub delivery_time : ℕ
  pub delivery_fee_rate : D
  pub price_scale : ℕ
  pub unified_margin_trade : Bool
  pub funding_interval : ℕ
  pub settle_coin : Text
  pub leverage_filter : LeverageFilter D
  pub price_filter : PriceFilter D
  pub lot_size_filter : LotSizeFilter D

-- An `Instrument` with its members' initialisers.
abbrev pub new_instrument : (ds : Doubles) → Instrument ds.Double
new_instrument ds = record {
  symbol = [];
  contract_type = linear_perpetual;
  contract_status = trading;
  base_coin = [];
  quote_coin = [];
  symbol_type = [];
  launch_time = 0;
  delivery_time = 0;
  delivery_fee_rate = ds.zero;
  price_scale = 0;
  unified_margin_trade = true;
  funding_interval = 0;
  settle_coin = [];
  leverage_filter = record {
    min_leverage = ds.zero;
    max_leverage = ds.zero;
    leverage_step = ds.zero;
  };
  price_filter = record { min_price = ds.zero; max_price = ds.zero; tick_size = ds.zero };
  lot_size_filter = record {
    max_order_qty = ds.zero;
    min_order_qty = ds.zero;
    qty_step = ds.zero;
    post_only_max_trading_qty = ds.zero;
    min_notional_value = ds.zero;
  };
}
