-- ===== src/Rest/Account.antt =====
-- The account endpoints of the REST client, and its sessions.
pub mod Laws
use bybit_cpp_api.Base.{
  ℕ, ◌/◌, Bool, true, false, not, ◌&&◌, Option, none, some, List, [], ◌∷◌, ◌++◌, map, if◌then◌else◌,
  is_empty,
}
use bybit_cpp_api.Text.{Text, codes, same_text}
use bybit_cpp_api.Errors.{Error, Result, ok, err, ◌>>=◌}
use bybit_cpp_api.Http.{HttpSession, new_http_session}
use bybit_cpp_api.Http.Request.{set_request_timeout}
use bybit_cpp_api.Models.Enums.{Category, AccountType, PositionMode, Environment}
use bybit_cpp_api.Models.Enums.Names.{category, account_type}
use bybit_cpp_api.Models.Orders.{Doubles}
use bybit_cpp_api.Models.Payload.{Payload, Value}
use bybit_cpp_api.Models.Wallet.{AccountBalance, ServerTime}
use bybit_cpp_api.Models.Json.{
  Json, Reading, undefined, read, ◌then◌, fields, Field, into, member_or, read_rows, member_of,
}
use bybit_cpp_api.Models.Json.Wallet.{wallet_balance_from_json, server_time_from_json}
use bybit_cpp_api.Rest.Parameters.{Parameters, set_parameter, set_given}
use bybit_cpp_api.Rest.Responses.{Response, check_response, handle_bybit_response, read_response}

-- `setPositionMode`: the parameters, and what is posted.
unfoldable pub position_mode_parameters : Category → Text → Text → Parameters
unfolding set_parameter set_given
position_mode_parameters c symbol coin =
    set_given (codes "coin") coin
      (set_given (codes "symbol") symbol (set_parameter (codes "category") (category c) []))

abbrev pub mode_number : PositionMode → ℕ
mode_number PositionMode.merged_single = 0
mode_number PositionMode.both_sides = 3

unfoldable pub position_mode_payload : Category → Text → Text → PositionMode → Payload
unfolding position_mode_parameters
position_mode_payload c symbol coin mode =
    map (λ (p : Text × Text). (p.0, Value.text p.1)) (position_mode_parameters c symbol coin)
    ++ ((codes "mode", Value.number (mode_number mode)) ∷ [])

-- An answer whose body may not be JSON with a code and a message; `response` is what one that parses says.
pub record RawResponse (A : Type 0) : Type 0 where
  pub parses : Bool
  pub response : Response A

-- How `setPositionMode` ends: `std::invalid_argument`, an exception of the transport or the status, the
-- parser's exception, or a Boolean.
pub data ModeOutcome : Type 0 where
  invalid_argument unparsable : ModeOutcome
  failed : Error → ModeOutcome
  answered : Bool → ModeOutcome

-- What the body of an answer says of the mode.
unfoldable pub mode_is_set : {A : Type 0} → Response A → Bool
unfolding handle_bybit_response
mode_is_set response = elim (handle_bybit_response response) [
  | ok value ↦ true
  | err failure ↦ same_text response.ret_msg (codes "Position mode is not modified")
]

-- The `try` and its `catch`, which parses the body again.
unfoldable pub read_mode : {A : Type 0} → RawResponse A → ModeOutcome
unfolding mode_is_set
read_mode raw =
    if raw.parses then ModeOutcome.answered (mode_is_set raw.response) else ModeOutcome.unparsable

unfoldable pub set_position_mode :
    {A : Type 0}
    → (Payload → Result (RawResponse A))
    → Category
    → Text
    → Text
    → PositionMode
    → ModeOutcome
unfolding read_mode check_response position_mode_payload
set_position_mode post c symbol coin mode =
    if is_empty symbol && is_empty coin
    then ModeOutcome.invalid_argument
    else elim (post (position_mode_payload c symbol coin mode)) [
      | err failure ↦ ModeOutcome.failed failure
      | ok raw ↦ elim (check_response raw.response) [
        | err failure ↦ ModeOutcome.failed failure
        | ok response ↦ read_mode raw
      ]
    ]

unfoldable pub wallet_balance_parameters : AccountType → Text → Parameters
unfolding set_parameter set_given
wallet_balance_parameters account coin =
    set_given (codes "coin") coin (set_parameter (codes "accountType") (account_type account) [])

unfoldable pub cancel_all_parameters : Category → Text → Parameters
unfolding set_parameter set_given
cancel_all_parameters c symbol =
    set_given (codes "symbol") symbol (set_parameter (codes "category") (category c) [])

-- `OrderId`.
pub record OrderId : Type 0 where
  pub order_id : Text
  pub order_link_id : Text

module _ (ds : Doubles) {J : Type 0} (json : Json J ds.Double) where
  open ds use {Double}

  -- `getWalletBalance`, of the answer's `result`.
  unfoldable pub get_wallet_balance :
      (Parameters → Response J)
      → AccountType
      → Text
      → Result (Reading (List (AccountBalance Double)))
  unfolding read_response wallet_balance_parameters
  get_wallet_balance get account coin =
      read_response (get (wallet_balance_parameters account coin))
      >>= (λ result. ok (wallet_balance_from_json ds json result))

  -- `getServerTime`, in milliseconds.
  unfoldable pub get_server_time : (Parameters → Response J) → Result (Reading ℕ)
  unfolding read_response ◌then◌
  get_server_time get = read_response (get []) >>= (λ result.
      ok (server_time_from_json ds json result then (λ time. read (time.time_nano / 1000000))))

  unfoldable pub order_id_fields : J → List (Field OrderId)
  unfolding into
  order_id_fields result =
      into (λ r m. record r { order_id = member_or r.order_id m })
        (json.text result (codes "orderId"))
      ∷ into (λ r m. record r { order_link_id = member_or r.order_link_id m })
          (json.text result (codes "orderLinkId"))
      ∷ []

  -- `OrderId::fromJson`, of its `result`.
  unfoldable pub order_id_from_json : J → Reading OrderId
  unfolding order_id_fields fields
  order_id_from_json result =
      fields (order_id_fields result) (record { order_id = []; order_link_id = [] })

  -- `cancelAllOrders`: the ids of the orders that the answer's list names.
  unfoldable pub cancel_all_orders :
      (Parameters → Response J) → Category → Text → Result (Reading (List OrderId))
  unfolding read_response cancel_all_parameters member_of read_rows order_id_from_json ◌then◌
  cancel_all_orders post c symbol =
      read_response (post (cancel_all_parameters c symbol)) >>= (λ result. ok (
        member_of json (codes "list") result
        then (λ l. read_rows order_id_from_json (json.items l))))

-- `restHostForEnvironment`; the session has a host of its own for an empty one.
unfoldable pub rest_host_for_environment : Environment → Text
rest_host_for_environment Environment.testnet = codes "api-testnet.bybit.com"
rest_host_for_environment Environment.demo = codes "api-demo.bybit.com"
rest_host_for_environment Environment.mainnet = []

-- The host and the sessions of `P`.
pub record RestSessions : Type 0 where
  pub host : Text
  pub http_session : HttpSession
  pub public_session : HttpSession

-- The constructor.
unfoldable pub new_rest_sessions : Text → Text → Environment → RestSessions
unfolding new_http_session rest_host_for_environment
new_rest_sessions api_key api_secret env = record {
  host = rest_host_for_environment env;
  http_session = new_http_session api_key api_secret (rest_host_for_environment env);
  public_session = new_http_session [] [] (codes "public.bybit.com");
}

-- `setCredentials`.
unfoldable pub rest_set_credentials : Text → Text → RestSessions → RestSessions
unfolding new_http_session
rest_set_credentials api_key api_secret r = record r {
  http_session = new_http_session api_key api_secret r.host;
}

-- `setRequestTimeout`, of a timeout that is not negative.
unfoldable pub rest_set_request_timeout : ℕ → RestSessions → RestSessions
unfolding set_request_timeout
rest_set_request_timeout timeout r = record r {
  http_session = set_request_timeout timeout r.http_session;
}
