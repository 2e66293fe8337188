-- ===== src/Gateway/Reasons/Laws.antt =====
-- The gateway reads back the code that the REST client wrote.
use bybit_cpp_api.Base.{ℕ, ◌+◌, ◌/◌, ◌≤◌, ◌<◌, ◌≡◌, refl, true, false, some, ◌++◌, arith}
use bybit_cpp_api.Text.{Text, codes, after_part, has_part, to_lower}
use bybit_cpp_api.Text.Decimal.{digits, strtol-digits, digits-hundreds, long_max}
use bybit_cpp_api.Errors.{RejectKind}
use bybit_cpp_api.Rest.Responses.{api_error, bad_response}
use bybit_cpp_api.Gateway.Reasons.{
  extract_ret_code, kind_of_code, classify_reject_reason, is_gone_code, is_order_gone_reason,
  is_ambiguous_outcome_reason,
}

after_code :
    (rest : Text)
    → after_part (codes "code: ") (codes "Bybit API error, code: " ++ rest) ≡ some rest
unfolding after_part
after_code rest = refl

-- The code of an API error is read back, whatever the venue's message says.
pub extract-api_error :
    (c : ℕ) (msg : Text) → c ≤ long_max → extract_ret_code (api_error c msg) ≡ some (false, c)
unfolding extract_ret_code
extract-api_error c msg h = rw (
  after_code (digits c ++ (codes ", msg: " ++ msg)),
  strtol-digits c b',' (codes " msg: " ++ msg) h refl,
)

-- An API error with a known code is classified by that code alone, whatever its message says.
pub classify-api_error :
    (c : ℕ) (msg : Text) (kind : RejectKind)
    → c ≤ long_max
    → kind_of_code (false, c) ≡ some kind
    → classify_reject_reason (api_error c msg) ≡ kind
unfolding classify_reject_reason
classify-api_error c msg kind h k = rw (extract-api_error c msg h, k)

-- An API error of a cancel or amend names a gone order if its code is one of the three.
pub is_order_gone-api_error :
    (c : ℕ) (msg : Text)
    → c ≤ long_max
    → is_gone_code (some (false, c)) ≡ true
    → is_order_gone_reason (api_error c msg) ≡ true
unfolding is_order_gone_reason
is_order_gone-api_error c msg h k = rw (extract-api_error c msg h, k)

-- The server timeout and the internal server error are ambiguous, whatever their message says.
pub ambiguous-server_timeout :
    (msg : Text) → is_ambiguous_outcome_reason (api_error 10000 msg) ≡ true
unfolding is_ambiguous_outcome_reason has_part digits to_lower
ambiguous-server_timeout msg = refl

pub ambiguous-server_error : (msg : Text) → is_ambiguous_outcome_reason (api_error 10016 msg) ≡ true
unfolding is_ambiguous_outcome_reason has_part digits to_lower
ambiguous-server_error msg = ground arith

-- A backend timeout, which the REST client holds for unknown too, is not ambiguous to the gateway,
-- unless the message alone is.
pub ambiguous-backend_timeout :
    (msg : Text)
    → is_ambiguous_outcome_reason (api_error 170007 msg) ≡ is_ambiguous_outcome_reason msg
unfolding is_ambiguous_outcome_reason has_part digits to_lower
ambiguous-backend_timeout msg = refl

-- An HTTP answer of the 5xx family is ambiguous, whatever its body says.
pub ambiguous-bad_response :
    (status : ℕ) (body : Text)
    → 500 ≤ status
    → status < 600
    → is_ambiguous_outcome_reason (bad_response status body) ≡ true
unfolding is_ambiguous_outcome_reason has_part to_lower
ambiguous-bad_response status body l h =
    let five : b'0' + status / 100 ≡ b'5' = omega arith in
    rw (digits-hundreds status (omega arith) (omega arith), five) (ground arith)
