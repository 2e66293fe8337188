-- ===== src/Tests/Orders.antt =====
-- The theorems on submits and on reject texts at concrete answers.
use bybit_cpp_api.Base.{◌≡◌, refl, true, false, [], arith}
use bybit_cpp_api.Text.{Text, codes, drop_prefix, has_part, after_part, to_lower, to_lower_char}
use bybit_cpp_api.Text.Decimal.{digits}
use bybit_cpp_api.Errors.{ok, err, execution_unknown, gateway_error, min_notional}
use bybit_cpp_api.Rest.Responses.{api_error, bad_response, read_response}
use bybit_cpp_api.Gateway.Interface.{OrderSide}
use bybit_cpp_api.Gateway.Reasons.{
  kind_of_code, classify_reject_reason, is_ambiguous_outcome_reason,
}
use bybit_cpp_api.Gateway.Orders.{
  post_only_limit, submit_post_only_limit, require_event_stream, guarded,
}
use bybit_cpp_api.Gateway.Submits.{
  submit-ok, submit-server_fault, submit-rejected, submit-backend_timeout,
}
use bybit_cpp_api.Tests.Venue.{lots, gateway, venue, gone, answer, answering}

submit-ok_example :
    (true ≡ true)
    × (order_id : Text) × ((venue (ok (codes "o-1")) gone).place_order
          (post_only_limit lots gateway (codes "leg-1") (codes "BTCUSDT") OrderSide.buy 3 100 false)
        ≡ ok order_id)
unfolding submit_post_only_limit require_event_stream guarded
submit-ok_example =
    submit-ok lots (venue (ok (codes "o-1")) gone) gateway true (codes "leg-1") (codes "BTCUSDT")
      OrderSide.buy 3 100 false refl

submit-server_fault_example :
    submit_post_only_limit lots
      (answering (answer 503 0 []))
      gateway
      true
      (codes "leg-1")
      (codes "BTCUSDT")
      OrderSide.buy
      3
      100
      false
    ≡ err (execution_unknown (bad_response 503 (codes "body")))
submit-server_fault_example =
    submit-server_fault lots (answering (answer 503 0 [])) gateway (codes "leg-1") (codes "BTCUSDT")
      OrderSide.buy 3 100 false (answer 503 0 []) refl (omega arith) (omega arith)

submit-rejected_example :
    submit_post_only_limit lots
      (answering (answer 200 110094 (codes "rate limit")))
      gateway
      true
      (codes "leg-1")
      (codes "BTCUSDT")
      OrderSide.buy
      3
      100
      false
    ≡ err (gateway_error min_notional (api_error 110094 (codes "rate limit")))
unfolding kind_of_code is_ambiguous_outcome_reason has_part after_part drop_prefix to_lower
    to_lower_char digits
submit-rejected_example =
    submit-rejected lots (answering (answer 200 110094 (codes "rate limit"))) gateway
      (codes "leg-1") (codes "BTCUSDT") OrderSide.buy 3 100 false
      (answer 200 110094 (codes "rate limit")) refl min_notional refl (omega arith) refl refl

submit-backend_timeout_example :
    (read_response (answer 200 170007 (codes "Timeout"))
      ≡ err (execution_unknown (api_error 170007 (codes "Timeout"))))
    × (submit_post_only_limit lots
          (answering (answer 200 170007 (codes "Timeout")))
          gateway
          true
          (codes "leg-1")
          (codes "BTCUSDT")
          OrderSide.buy
          3
          100
          false
        ≡ err (
            gateway_error
              (classify_reject_reason (api_error 170007 (codes "Timeout")))
              (api_error 170007 (codes "Timeout"))))
unfolding is_ambiguous_outcome_reason has_part after_part drop_prefix to_lower to_lower_char
submit-backend_timeout_example =
    submit-backend_timeout lots (answering (answer 200 170007 (codes "Timeout"))) gateway
      (codes "leg-1") (codes "BTCUSDT") OrderSide.buy 3 100 false
      (answer 200 170007 (codes "Timeout")) refl (codes "Timeout") refl refl refl refl
