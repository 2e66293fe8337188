-- ===== src/Models/Enums.antt =====
-- include/stonky/bybit/bybit_enums.h. An enumerator that begins with `_` is spelled without it.
pub mod Names
pub mod Casts
use bybit_cpp_api.Base.{Bool, true, false}

pub data CandleInterval : Type 0 where
  m1 m3 m5 m15 m30 m60 m120 m240 m360 m720 d mo w : CandleInterval

pub data Side : Type 0 where
  buy sell no_side : Side

pub data OrderType : Type 0 where
  limit market : OrderType

pub data TriggerPriceType : Type 0 where
  last_price index_price mark_price unknown : TriggerPriceType

pub data OrderStatus : Type 0 where
  created new rejected partially_filled partially_filled_canceled filled : OrderStatus
  pending_cancel cancelled untriggered deactivated triggered active : OrderStatus

pub data Category : Type 0 where
  spot linear inverse option : Category

pub data TimeInForce : Type 0 where
  gtc ioc fok post_only : TimeInForce

pub data Environment : Type 0 where
  mainnet testnet demo : Environment

pub data ExecType : Type 0 where
  trade adl_trade funding bust_trade delivery settle block_trade move_position : ExecType
  future_spread unknown : ExecType

abbrev pub is_trade : ExecType → Bool
is_trade ExecType.trade = true
is_trade _ = false

pub data ContractType : Type 0 where
  inverse_perpetual linear_perpetual linear_futures inverse_futures : ContractType

pub data ContractStatus : Type 0 where
  pre_launch trading settling delivering closed : ContractStatus

pub data TpSlMode : Type 0 where
  full partial : TpSlMode

pub data AccountType : Type 0 where
  contract unified fund spot_account option_account : AccountType

pub data PositionStatus : Type 0 where
  normal liq adl : PositionStatus

pub data PositionMode : Type 0 where
  merged_single both_sides : PositionMode

pub data ResponseType : Type 0 where
  snapshot delta : ResponseType
