-- ===== src/Models/Enums/Casts.antt =====
-- `magic_enum::enum_cast`: the enumerator of a name.
use bybit_cpp_api.Base.{◌≡◌, refl, Option, none, some, List, [], ◌∷◌, if◌then◌else◌}
use bybit_cpp_api.Text.{Text, same_text}
use bybit_cpp_api.Models.Enums.{
  TriggerPriceType, OrderStatus, ExecType, ContractType, ContractStatus, TpSlMode, AccountType,
  PositionStatus, ResponseType, Category, Side, OrderType, TimeInForce, CandleInterval,
}
use bybit_cpp_api.Models.Enums.Names.{
  trigger_price_type, order_status, exec_type, contract_type, contract_status, tp_sl_mode,
  account_type, position_status, response_type, category, side, order_type, time_in_force, interval,
}

-- The first of the enumerators that has the name.
unfoldable pub named : {E : Type 0} → (E → Text) → List E → Text → Option E
named name_of [] name = none
named name_of (e ∷ es) name = if same_text (name_of e) name then some e else named name_of es name

unfoldable pub trigger_price_type_cast : Text → Option TriggerPriceType
unfolding named
trigger_price_type_cast = named trigger_price_type (
    TriggerPriceType.last_price ∷ TriggerPriceType.index_price ∷ TriggerPriceType.mark_price
    ∷ TriggerPriceType.unknown ∷ [])

pub trigger_price_type_cast-trigger_price_type :
    (e : TriggerPriceType) → trigger_price_type_cast (trigger_price_type e) ≡ some e
unfolding trigger_price_type_cast same_text
trigger_price_type_cast-trigger_price_type TriggerPriceType.last_price = refl
trigger_price_type_cast-trigger_price_type TriggerPriceType.index_price = refl
trigger_price_type_cast-trigger_price_type TriggerPriceType.mark_price = refl
trigger_price_type_cast-trigger_price_type TriggerPriceType.unknown = refl

unfoldable pub order_status_cast : Text → Option OrderStatus
unfolding named
order_status_cast = named order_status (
    OrderStatus.created ∷ OrderStatus.new ∷ OrderStatus.rejected ∷ OrderStatus.partially_filled
    ∷ OrderStatus.partially_filled_canceled ∷ OrderStatus.filled ∷ OrderStatus.pending_cancel
    ∷ OrderStatus.cancelled ∷ OrderStatus.untriggered ∷ OrderStatus.deactivated
    ∷ OrderStatus.triggered ∷ OrderStatus.active ∷ [])

pub order_status_cast-order_status : (e : OrderStatus) → order_status_cast (order_status e) ≡ some e
unfolding order_status_cast same_text
order_status_cast-order_status OrderStatus.created = refl
order_status_cast-order_status OrderStatus.new = refl
order_status_cast-order_status OrderStatus.rejected = refl
order_status_cast-order_status OrderStatus.partially_filled = refl
order_status_cast-order_status OrderStatus.partially_filled_canceled = refl
order_status_cast-order_status OrderStatus.filled = refl
order_status_cast-order_status OrderStatus.pending_cancel = refl
order_status_cast-order_status OrderStatus.cancelled = refl
order_status_cast-order_status OrderStatus.untriggered = refl
order_status_cast-order_status OrderStatus.deactivated = refl
order_status_cast-order_status OrderStatus.triggered = refl
order_status_cast-order_status OrderStatus.active = refl

unfoldable pub exec_type_cast : Text → Option ExecType
unfolding named
exec_type_cast = named exec_type (
    ExecType.trade ∷ ExecType.adl_trade ∷ ExecType.funding ∷ ExecType.bust_trade ∷ ExecType.delivery
    ∷ ExecType.settle ∷ ExecType.block_trade ∷ ExecType.move_position ∷ ExecType.future_spread
    ∷ ExecType.unknown ∷ [])

pub exec_type_cast-exec_type : (e : ExecType) → exec_type_cast (exec_type e) ≡ some e
unfolding exec_type_cast same_text
exec_type_cast-exec_type ExecType.trade = refl
exec_type_cast-exec_type ExecType.adl_trade = refl
exec_type_cast-exec_type ExecType.funding = refl
exec_type_cast-exec_type ExecType.bust_trade = refl
exec_type_cast-exec_type ExecType.delivery = refl
exec_type_cast-exec_type ExecType.settle = refl
exec_type_cast-exec_type ExecType.block_trade = refl
exec_type_cast-exec_type ExecType.move_position = refl
exec_type_cast-exec_type ExecType.future_spread = refl
exec_type_cast-exec_type ExecType.unknown = refl

unfoldable pub contract_type_cast : Text → Option ContractType
unfolding named
contract_type_cast = named contract_type (
    ContractType.inverse_perpetual ∷ ContractType.linear_perpetual ∷ ContractType.linear_futures
    ∷ ContractType.inverse_futures ∷ [])

pub contract_type_cast-contract_type :
    (e : ContractType) → contract_type_cast (contract_type e) ≡ some e
unfolding contract_type_cast same_text
contract_type_cast-contract_type ContractType.inverse_perpetual = refl
contract_type_cast-contract_type ContractType.linear_perpetual = refl
contract_type_cast-contract_type ContractType.linear_futures = refl
contract_type_cast-contract_type ContractType.inverse_futures = refl

unfoldable pub contract_status_cast : Text → Option ContractStatus
unfolding named
contract_status_cast = named contract_status (
    ContractStatus.pre_launch ∷ ContractStatus.trading ∷ ContractStatus.settling
    ∷ ContractStatus.delivering ∷ ContractStatus.closed ∷ [])

pub contract_status_cast-contract_status :
    (e : ContractStatus) → contract_status_cast (contract_status e) ≡ some e
unfolding contract_status_cast same_text
contract_status_cast-contract_status ContractStatus.pre_launch = refl
contract_status_cast-contract_status ContractStatus.trading = refl
contract_status_cast-contract_status ContractStatus.settling = refl
contract_status_cast-contract_status ContractStatus.delivering = refl
contract_status_cast-contract_status ContractStatus.closed = refl

unfoldable pub tp_sl_mode_cast : Text → Option TpSlMode
unfolding named
tp_sl_mode_cast = named tp_sl_mode (TpSlMode.full ∷ TpSlMode.partial ∷ [])

pub tp_sl_mode_cast-tp_sl_mode : (e : TpSlMode) → tp_sl_mode_cast (tp_sl_mode e) ≡ some e
unfolding tp_sl_mode_cast same_text
tp_sl_mode_cast-tp_sl_mode TpSlMode.full = refl
tp_sl_mode_cast-tp_sl_mode TpSlMode.partial = refl

unfoldable pub account_type_cast : Text → Option AccountType
unfolding named
account_type_cast = named account_type (
    AccountType.contract ∷ AccountType.unified ∷ AccountType.fund ∷ AccountType.spot_account
    ∷ AccountType.option_account ∷ [])

pub account_type_cast-account_type : (e : AccountType) → account_type_cast (account_type e) ≡ some e
unfolding account_type_cast same_text
account_type_cast-account_type AccountType.contract = refl
account_type_cast-account_type AccountType.unified = refl
account_type_cast-account_type AccountType.fund = refl
account_type_cast-account_type AccountType.spot_account = refl
account_type_cast-account_type AccountType.option_account = refl

unfoldable pub position_status_cast : Text → Option PositionStatus
unfolding named
position_status_cast =
    named position_status (PositionStatus.normal ∷ PositionStatus.liq ∷ PositionStatus.adl ∷ [])

pub position_status_cast-position_status :
    (e : PositionStatus) → position_status_cast (position_status e) ≡ some e
unfolding position_status_cast same_text
position_status_cast-position_status PositionStatus.normal = refl
position_status_cast-position_status PositionStatus.liq = refl
position_status_cast-position_status PositionStatus.adl = refl

unfoldable pub response_type_cast : Text → Option ResponseType
unfolding named
response_type_cast = named response_type (ResponseType.snapshot ∷ ResponseType.delta ∷ [])

pub response_type_cast-response_type :
    (e : ResponseType) → response_type_cast (response_type e) ≡ some e
unfolding response_type_cast same_text
response_type_cast-response_type ResponseType.snapshot = refl
response_type_cast-response_type ResponseType.delta = refl

unfoldable pub category_cast : Text → Option Category
unfolding named
category_cast =
    named category (Category.spot ∷ Category.linear ∷ Category.inverse ∷ Category.option ∷ [])

pub category_cast-category : (e : Category) → category_cast (category e) ≡ some e
unfolding category_cast same_text
category_cast-category Category.spot = refl
category_cast-category Category.linear = refl
category_cast-category Category.inverse = refl
category_cast-category Category.option = refl

unfoldable pub side_cast : Text → Option Side
unfolding named
side_cast = named side (Side.buy ∷ Side.sell ∷ Side.no_side ∷ [])

pub side_cast-side : (e : Side) → side_cast (side e) ≡ some e
unfolding side_cast same_text
side_cast-side Side.buy = refl
side_cast-side Side.sell = refl
side_cast-side Side.no_side = refl

unfoldable pub order_type_cast : Text → Option OrderType
unfolding named
order_type_cast = named order_type (OrderType.limit ∷ OrderType.market ∷ [])

pub order_type_cast-order_type : (e : OrderType) → order_type_cast (order_type e) ≡ some e
unfolding order_type_cast same_text
order_type_cast-order_type OrderType.limit = refl
order_type_cast-order_type OrderType.market = refl

unfoldable pub time_in_force_cast : Text → Option TimeInForce
unfolding named
time_in_force_cast =
    named time_in_force
      (TimeInForce.gtc ∷ TimeInForce.ioc ∷ TimeInForce.fok ∷ TimeInForce.post_only ∷ [])

pub time_in_force_cast-time_in_force :
    (e : TimeInForce) → time_in_force_cast (time_in_force e) ≡ some e
unfolding time_in_force_cast same_text
time_in_force_cast-time_in_force TimeInForce.gtc = refl
time_in_force_cast-time_in_force TimeInForce.ioc = refl
time_in_force_cast-time_in_force TimeInForce.fok = refl
time_in_force_cast-time_in_force TimeInForce.post_only = refl

unfoldable pub interval_cast : Text → Option CandleInterval
unfolding named
interval_cast = named interval (
    CandleInterval.m1 ∷ CandleInterval.m3 ∷ CandleInterval.m5 ∷ CandleInterval.m15
    ∷ CandleInterval.m30 ∷ CandleInterval.m60 ∷ CandleInterval.m120 ∷ CandleInterval.m240
    ∷ CandleInterval.m360 ∷ CandleInterval.m720 ∷ CandleInterval.d ∷ CandleInterval.mo
    ∷ CandleInterval.w ∷ [])

pub interval_cast-interval : (e : CandleInterval) → interval_cast (interval e) ≡ some e
unfolding interval_cast same_text
interval_cast-interval CandleInterval.m1 = refl
interval_cast-interval CandleInterval.m3 = refl
interval_cast-interval CandleInterval.m5 = refl
interval_cast-interval CandleInterval.m15 = refl
interval_cast-interval CandleInterval.m30 = refl
interval_cast-interval CandleInterval.m60 = refl
interval_cast-interval CandleInterval.m120 = refl
interval_cast-interval CandleInterval.m240 = refl
interval_cast-interval CandleInterval.m360 = refl
interval_cast-interval CandleInterval.m720 = refl
interval_cast-interval CandleInterval.d = refl
interval_cast-interval CandleInterval.mo = refl
interval_cast-interval CandleInterval.w = refl
