-- ===== src/Models/Wallet.antt =====
-- Balances. `D` is the type of the doubles.
use bybit_cpp_api.Base.{ℕ, Bool, true, List, []}
use bybit_cpp_api.Text.{Text}
use bybit_cpp_api.Models.Enums.{AccountType}
use bybit_cpp_api.Models.Orders.{Doubles}

pub record Coin (D : Type 0) : Type 0 where
  pub accrued_interest : D
  pub available_to_borrow : D
  pub available_to_withdraw : D
  pub bonus : D
  pub borrow_amount : D
  pub coin : Text
  pub collateral_switch : Bool
  pub cum_realised_pnl : D
  pub equity : D
  pub locked : D
  pub margin_collateral : Bool
  pub total_order_im : D
  pub total_position_im : D
  pub total_position_mm : D
  pub unrealised_pnl : D
  pub usd_value : D
  pub wallet_balance : D

-- A `Coin` with its members' initialisers.
abbrev pub new_coin : (ds : Doubles) → Coin ds.Double
new_coin ds = record {
  accrued_interest = ds.zero;
  available_to_borrow = ds.zero;
  available_to_withdraw = ds.zero;
  bonus = ds.zero;
  borrow_amount = ds.zero;
  coin = [];
  collateral_switch = true;
  cum_realised_pnl = ds.zero;
  equity = ds.zero;
  locked = ds.zero;
  margin_collateral = true;
  total_order_im = ds.zero;
  total_position_im = ds.zero;
  total_position_mm = ds.zero;
  unrealised_pnl = ds.zero;
  usd_value = ds.zero;
  wallet_balance = ds.zero;
}

pub record AccountBalance (D : Type 0) : Type 0 where
  pub account_im_rate : D
  pub account_ltv : D
  pub account_mm_rate : D
  pub account_type : AccountType
  pub total_available_balance : D
  pub total_equity : D
  pub total_initial_margin : D
  pub total_maintenance_margin : D
  pub total_margin_balance : D
  pub total_perp_upl : D
  pub total_wallet_balance : D
  pub coins : List (Coin D)

-- An `AccountBalance` with its members' initialisers.
abbrev pub new_account_balance : (ds : Doubles) → AccountBalance ds.Double
new_account_balance ds = record {
  account_im_rate = ds.zero;
  account_ltv = ds.zero;
  account_mm_rate = ds.zero;
  account_type = AccountType.unified;
  total_available_balance = ds.zero;
  total_equity = ds.zero;
  total_initial_margin = ds.zero;
  total_maintenance_margin = ds.zero;
  total_margin_balance = ds.zero;
  total_perp_upl = ds.zero;
  total_wallet_balance = ds.zero;
  coins = [];
}

pub record ServerTime : Type 0 where
  pub time_second : ℕ
  pub time_nano : ℕ
