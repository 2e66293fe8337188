-- ===== src/Tests/Cancels.antt =====
-- The theorems on cancels, fills and sweeps at concrete answers.
use mathlib.Core.List.{Memᴰ}
use bybit_cpp_api.Base.{◌≡◌, refl, true, [], ◌∷◌, All, length, if◌then◌else◌}
use bybit_cpp_api.Text.{
  Text, codes, starts_with, drop_prefix, has_part, after_part, to_lower, to_lower_char,
}
use bybit_cpp_api.Errors.{RejectKind, Result, ok, err, runtime_error, gateway_error}
use bybit_cpp_api.Models.Enums.{Category}
use bybit_cpp_api.Gateway.Reasons.{
  extract_ret_code, classify_text, classify_reject_reason, is_order_gone_reason,
  is_ambiguous_outcome_reason,
}
use bybit_cpp_api.Gateway.Orders.{reject}
use bybit_cpp_api.Gateway.Cancel.{
  CancelRequest, cancel_call, cancel_asked, ask_cancel, swept_with, cancel, cancel_answered,
  cancel_failed, emitted, cancel_stray_orders, sweep_listed, sweep, swept_first,
}
use bybit_cpp_api.Gateway.Fills.{cancel-no_fills, emitted-on_execution}
use bybit_cpp_api.Gateway.Sweeps.{
  strays, IsGranted, cancel_stray_orders-prefix, cancel_stray_orders-ok,
}
use bybit_cpp_api.Gateway.Updates.{on_execution}
use bybit_cpp_api.Tests.Venue.{lots, gateway, execution, fill, listed, venue, gone}

cancel-no_fills_example :
    (cancel lots
      (venue gone (err (runtime_error (codes "refused"))))
      gateway
      (codes "leg-1")
      (codes "BTCUSDT")).fills
    ≡ []
unfolding cancel cancel_call cancel_asked ask_cancel cancel_answered cancel_failed
    is_order_gone_reason extract_ret_code has_part after_part drop_prefix to_lower to_lower_char
    is_ambiguous_outcome_reason classify_reject_reason classify_text reject
cancel-no_fills_example =
    cancel-no_fills lots (venue gone (err (runtime_error (codes "refused")))) gateway
      (codes "leg-1") (codes "BTCUSDT") (gateway_error RejectKind.hard (codes "refused")) refl

emitted-on_execution_example :
    Memᴰ fill (emitted (codes "leg-1") (codes "BTCUSDT") (execution ∷ []))
unfolding on_execution
emitted-on_execution_example =
    emitted-on_execution gateway execution (execution ∷ []) fill refl refl (Memᴰ.head refl)

-- A venue that refuses to cancel what does not carry the prefix.
abbrev refusing : Category → Text → Text → Text → Result Text
refusing category symbol order_id id =
    if starts_with (codes "leg") id then gone else err (runtime_error (codes "refused"))

refusing-same :
    (symbol id : Text)
    → starts_with (codes "leg") id ≡ true
    → refusing Category.linear symbol [] id
      ≡ (venue gone gone).cancel_order Category.linear symbol [] id
refusing-same symbol id h = rw h refl

stray-prefix_example :
    All
      (λ (r : CancelRequest). starts_with (codes "leg") r.order_link_id ≡ true)
      (cancel_stray_orders lots (venue gone gone) gateway (codes "leg") (codes "USDT")).requested
    × (cancel_stray_orders lots
          (record (venue gone gone) { cancel_order = refusing })
          gateway
          (codes "leg")
          (codes "USDT")
        ≡ cancel_stray_orders lots (venue gone gone) gateway (codes "leg") (codes "USDT"))
stray-prefix_example =
    cancel_stray_orders-prefix lots (venue gone gone) gateway (codes "leg") refusing refusing-same
      (codes "USDT")

stray-ok_example :
    let v = venue gone (ok (codes "o")) in
    let swept = cancel_stray_orders lots v gateway (codes "leg") (codes "USDT") in
    (swept.requested ≡ strays lots v gateway (codes "leg") listed)
    × (2 ≡ length (strays lots v gateway (codes "leg") listed))
    × All (IsGranted lots v gateway (codes "leg")) swept.requested
unfolding cancel_stray_orders sweep_listed sweep swept_first swept_with starts_with drop_prefix
    cancel_call cancel_asked ask_cancel cancel_answered
stray-ok_example =
    cancel_stray_orders-ok lots (venue gone (ok (codes "o"))) gateway (codes "leg") (codes "USDT") 2
      listed refl refl
