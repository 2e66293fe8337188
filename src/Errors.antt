-- ===== src/Errors.antt =====
-- The exceptions of the client (include/stonky/bybit/bybit_http_session.h), the `GatewayError` of the
-- execution interface, and fallible results.
use bybit_cpp_api.Base.{Bool, true, false}
use bybit_cpp_api.Text.{Text}

-- `RejectKind` of the execution interface, with the enumerators that the gateway names.
pub data RejectKind : Type 0 where
  benign_post_only_cross min_notional throttled position_closed permanent hard : RejectKind

-- An exception with its `what()`. The first two are the `UnknownOutcomeError`s.
pub data Error : Type 0 where
  transport_error : Text → Error
  execution_unknown : Text → Error
  order_not_found : Text → Error
  runtime_error : Text → Error
  gateway_error : RejectKind → Text → Error

abbrev pub what : Error → Text
what (transport_error m) = m
what (execution_unknown m) = m
what (order_not_found m) = m
what (runtime_error m) = m
what (gateway_error kind m) = m

-- The outcome of the request is unknown: it may or may not have been executed.
abbrev pub is_unknown_outcome : Error → Bool
is_unknown_outcome (transport_error m) = true
is_unknown_outcome (execution_unknown m) = true
is_unknown_outcome _ = false

pub data Result {ℓ} (A : Type ℓ) : Type ℓ where
  ok : A → Result A
  err : Error → Result A

-- A failure passes over what follows.
infixl 5 ◌>>=◌
abbrev pub ◌>>=◌ {ℓ κ} : {A : Type ℓ} {B : Type κ} → Result A → (A → Result B) → Result B
err failure >>= next = err failure
ok value >>= next = next value
