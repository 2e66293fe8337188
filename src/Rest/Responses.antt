-- ===== src/Rest/Responses.antt =====
-- How the REST client reads an answer: the HTTP status first, then the venue's `retCode`.
use bybit_cpp_api.Base.{ℕ, Bool, not, ◌||◌, ◌++◌, ◌==◌, leb, if◌then◌else◌}
use bybit_cpp_api.Text.{Text, codes}
use bybit_cpp_api.Text.Decimal.{digits}
use bybit_cpp_api.Errors.{Result, ok, err, execution_unknown, order_not_found, runtime_error, ◌>>=◌}

-- An HTTP response, its body parsed: `retCode`, which is not negative, `retMsg` and the rest.
pub record Response (A : Type 0) : Type 0 where
  pub status : ℕ
  pub body : Text
  pub ret_code : ℕ
  pub ret_msg : Text
  pub value : A

unfoldable pub is_execution_unknown_code : ℕ → Bool
is_execution_unknown_code c = c == 10000 || c == 10016 || c == 170007

unfoldable pub is_order_not_found_code : ℕ → Bool
is_order_not_found_code c = c == 110001 || c == 170213

-- The message of `handleBybitResponse`.
abbrev pub api_error : ℕ → Text → Text
api_error c msg = codes "Bybit API error, code: " ++ (digits c ++ (codes ", msg: " ++ msg))

-- The message of `checkResponse`.
abbrev pub bad_response : ℕ → Text → Text
bad_response status body =
    codes "Bad response, code " ++ (digits status ++ (codes ", msg: " ++ body))

-- `handleBybitResponse`.
unfoldable pub handle_bybit_response : {A : Type 0} → Response A → Result A
handle_bybit_response r =
    if not (r.ret_code == 0)
    then (if is_execution_unknown_code r.ret_code
        then err (execution_unknown (api_error r.ret_code r.ret_msg))
        else if is_order_not_found_code r.ret_code
        then err (order_not_found (api_error r.ret_code r.ret_msg))
        else err (runtime_error (api_error r.ret_code r.ret_msg)))
    else ok r.value

-- `checkResponse`, without the rate limiter's update.
unfoldable pub check_response : {A : Type 0} → Response A → Result (Response A)
check_response r =
    if not (r.status == 200)
    then (if leb 500 r.status
        then err (execution_unknown (bad_response r.status r.body))
        else err (runtime_error (bad_response r.status r.body)))
    else ok r

-- The two in turn, as each endpoint applies them.
unfoldable pub read_response : {A : Type 0} → Response A → Result A
unfolding check_response handle_bybit_response
read_response r = check_response r >>= handle_bybit_response
