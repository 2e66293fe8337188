-- ===== src/Models/Enums/Names.antt =====
-- `magic_enum::enum_name` of the enums: the enumerator's own spelling.
use bybit_cpp_api.Base.{String}
use bybit_cpp_api.Text.{Text, codes}
use bybit_cpp_api.Models.Enums.{
  CandleInterval, Category, Side, OrderType, TimeInForce, TriggerPriceType, OrderStatus, ExecType,
  ContractType, ContractStatus, TpSlMode, AccountType, PositionStatus, ResponseType,
}

abbrev pub category : Category → Text
category Category.spot = codes "spot"
category Category.linear = codes "linear"
category Category.inverse = codes "inverse"
category Category.option = codes "option"

abbrev pub side : Side → Text
side Side.buy = codes "Buy"
side Side.sell = codes "Sell"
side Side.no_side = codes "None"

abbrev pub order_type : OrderType → Text
order_type OrderType.limit = codes "Limit"
order_type OrderType.market = codes "Market"

abbrev pub time_in_force : TimeInForce → Text
time_in_force TimeInForce.gtc = codes "GTC"
time_in_force TimeInForce.ioc = codes "IOC"
time_in_force TimeInForce.fok = codes "FOK"
time_in_force TimeInForce.post_only = codes "PostOnly"

abbrev pub interval_name : CandleInterval → String
interval_name CandleInterval.m1 = "1"
interval_name CandleInterval.m3 = "3"
interval_name CandleInterval.m5 = "5"
interval_name CandleInterval.m15 = "15"
interval_name CandleInterval.m30 = "30"
interval_name CandleInterval.m60 = "60"
interval_name CandleInterval.m120 = "120"
interval_name CandleInterval.m240 = "240"
interval_name CandleInterval.m360 = "360"
interval_name CandleInterval.m720 = "720"
interval_name CandleInterval.d = "D"
interval_name CandleInterval.mo = "M"
interval_name CandleInterval.w = "W"

abbrev pub interval : CandleInterval → Text
interval i = codes (interval_name i)

abbrev pub trigger_price_type : TriggerPriceType → Text
trigger_price_type TriggerPriceType.last_price = codes "LastPrice"
trigger_price_type TriggerPriceType.index_price = codes "IndexPrice"
trigger_price_type TriggerPriceType.mark_price = codes "MarkPrice"
trigger_price_type TriggerPriceType.unknown = codes "UNKNOWN"

abbrev pub order_status : OrderStatus → Text
order_status OrderStatus.created = codes "Created"
order_status OrderStatus.new = codes "New"
order_status OrderStatus.rejected = codes "Rejected"
order_status OrderStatus.partially_filled = codes "PartiallyFilled"
order_status OrderStatus.partially_filled_canceled = codes "PartiallyFilledCanceled"
order_status OrderStatus.filled = codes "Filled"
order_status OrderStatus.pending_cancel = codes "PendingCancel"
order_status OrderStatus.cancelled = codes "Cancelled"
order_status OrderStatus.untriggered = codes "Untriggered"
order_status OrderStatus.deactivated = codes "Deactivated"
order_status OrderStatus.triggered = codes "Triggered"
order_status OrderStatus.active = codes "Active"

abbrev pub exec_type : ExecType → Text
exec_type ExecType.trade = codes "Trade"
exec_type ExecType.adl_trade = codes "AdlTrade"
exec_type ExecType.funding = codes "Funding"
exec_type ExecType.bust_trade = codes "BustTrade"
exec_type ExecType.delivery = codes "Delivery"
exec_type ExecType.settle = codes "Settle"
exec_type ExecType.block_trade = codes "BlockTrade"
exec_type ExecType.move_position = codes "MovePosition"
exec_type ExecType.future_spread = codes "FutureSpread"
exec_type ExecType.unknown = codes "UNKNOWN"

abbrev pub contract_type : ContractType → Text
contract_type ContractType.inverse_perpetual = codes "InversePerpetual"
contract_type ContractType.linear_perpetual = codes "LinearPerpetual"
contract_type ContractType.linear_futures = codes "LinearFutures"
contract_type ContractType.inverse_futures = codes "InverseFutures"

abbrev pub contract_status : ContractStatus → Text
contract_status ContractStatus.pre_launch = codes "PreLaunch"
contract_status ContractStatus.trading = codes "Trading"
contract_status ContractStatus.settling = codes "Settling"
contract_status ContractStatus.delivering = codes "Delivering"
contract_status ContractStatus.closed = codes "Closed"

abbrev pub tp_sl_mode : TpSlMode → Text
tp_sl_mode TpSlMode.full = codes "Full"
tp_sl_mode TpSlMode.partial = codes "Partial"

abbrev pub account_type : AccountType → Text
account_type AccountType.contract = codes "CONTRACT"
account_type AccountType.unified = codes "UNIFIED"
account_type AccountType.fund = codes "FUND"
account_type AccountType.spot_account = codes "SPOT"
account_type AccountType.option_account = codes "OPTION"

abbrev pub position_status : PositionStatus → Text
position_status PositionStatus.normal = codes "Normal"
position_status PositionStatus.liq = codes "Liq"
position_status PositionStatus.adl = codes "Adl"

abbrev pub response_type : ResponseType → Text
response_type ResponseType.snapshot = codes "snapshot"
response_type ResponseType.delta = codes "delta"
