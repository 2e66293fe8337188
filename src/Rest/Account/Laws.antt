-- ===== src/Rest/Account/Laws.antt =====
-- What the account endpoints make of an answer, and what the sessions keep.
use bybit_cpp_api.Base.{ℕ, ◌≡◌, refl, false, ◌||◌, ◌&&◌, if◌then◌else◌, ◌==◌, is_empty, arith}
use bybit_cpp_api.Text.{Text, codes, same_text}
use bybit_cpp_api.Errors.{Result, ok}
use bybit_cpp_api.Models.Enums.{Category, PositionMode, Environment}
use bybit_cpp_api.Models.Payload.{Payload}
use bybit_cpp_api.Rest.Responses.{Response, check_response, handle_bybit_response}
use bybit_cpp_api.Rest.Account.{
  RawResponse, ModeOutcome, mode_is_set, read_mode, position_mode_payload, set_position_mode,
  new_rest_sessions, rest_set_credentials, rest_set_request_timeout,
}

mode_is_set-code :
    {A : Type 0} (r : Response A)
    → mode_is_set r
      ≡ (r.ret_code == 0 || same_text r.ret_msg (codes "Position mode is not modified"))
unfolding mode_is_set handle_bybit_response
mode_is_set-code r = ground arith

check_response-ok : {A : Type 0} (r : Response A) → r.status ≡ 200 → check_response r ≡ ok r
unfolding check_response
check_response-ok r h = ground arith

read_mode-code :
    {A : Type 0} (raw : RawResponse A)
    → read_mode raw ≡ (
        if raw.parses
        then ModeOutcome.answered (
            raw.response.ret_code == 0
            || same_text raw.response.ret_msg (codes "Position mode is not modified"))
        else ModeOutcome.unparsable)
unfolding read_mode
read_mode-code raw = rw (mode_is_set-code raw.response) refl

-- An answer of status 200 whose body parses ends `setPositionMode` with a Boolean, whatever the venue's
-- code: it is true for the code 0 and for a mode that is already set, and false for every other code, the
-- codes of an unknown outcome included. One whose body does not parse ends it with the parser's exception.
pub set_position_mode-answered :
    {A : Type 0} (post : Payload → Result (RawResponse A)) (c : Category) (symbol coin : Text)
    (mode : PositionMode) (raw : RawResponse A)
    → (is_empty symbol && is_empty coin) ≡ false
    → post (position_mode_payload c symbol coin mode) ≡ ok raw
    → raw.response.status ≡ 200
    → set_position_mode post c symbol coin mode ≡ (
        if raw.parses
        then ModeOutcome.answered (
            raw.response.ret_code == 0
            || same_text raw.response.ret_msg (codes "Position mode is not modified"))
        else ModeOutcome.unparsable)
unfolding set_position_mode
set_position_mode-answered post c symbol coin mode raw given sent status =
    rw (given, sent, check_response-ok raw.response status) (read_mode-code raw)

-- A new session asks the host of the environment, before and after new credentials; the credentials are
-- the ones that were set last, and a timeout that was set before them is gone.
pub rest_set_credentials_lem :
    (key secret new_key new_secret : Text) (env : Environment) (timeout : ℕ)
    → let started = new_rest_sessions key secret env in
      let renewed =
        rest_set_credentials new_key new_secret (rest_set_request_timeout timeout started) in
      (renewed.http_session ≡ (new_rest_sessions new_key new_secret env).http_session)
      × (renewed.public_session ≡ started.public_session)
unfolding new_rest_sessions rest_set_credentials rest_set_request_timeout
rest_set_credentials_lem key secret new_key new_secret env timeout = (refl, refl)
