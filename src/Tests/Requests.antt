-- ===== src/Tests/Requests.antt =====
-- The theorems on the HTTP session at concrete requests.
use bybit_cpp_api.Base.{◌≡◌, refl, inl, inr, true, false, none, some, List, [], ◌∷◌, ◌++◌}
use bybit_cpp_api.Text.{Text, codes, after_part, drop_prefix}
use bybit_cpp_api.Text.Decimal.{digits}
use bybit_cpp_api.Errors.{Result}
use bybit_cpp_api.Http.{HttpSession, new_http_session}
use bybit_cpp_api.Http.Clock.{TimeAnswer, Asking, signing_timestamp}
use bybit_cpp_api.Http.Signing.Parsing.{is_free, parse_query, parse_query-create_query_str}
use bybit_cpp_api.Http.Signing.{
  create_query_str, signed_digits, joined, final_path, authenticate_non_post,
}
use bybit_cpp_api.Http.Signing.Query.{authenticate_non_post-headers}
use bybit_cpp_api.Http.Timed.{Handler}
use bybit_cpp_api.Http.Request.{Network, ComesTo, request, request_lem}

abbrev session : HttpSession
session = new_http_session (codes "key") (codes "secret") []

-- The venue's clock is five seconds ahead.
abbrev asking : Asking
asking = record {
  answer = TimeAnswer.time_nano 1005000000000;
  responded = some 1000000;
  clock = 1000000;
}

abbrev hmac : Text → Text → Text
hmac secret text = secret ++ text

abbrev parameters : List (Text × Text)
parameters = (codes "category", codes "linear") ∷ (codes "symbol", codes "BTCUSDT") ∷ []

authenticate_non_post-headers_example :
    (authenticate_non_post hmac 999990 1000010 asking
      (final_path (codes "/v5/order/realtime") parameters)
      session).1.headers
    ≡ (codes "X-BAPI-API-KEY", session.api_key)
      ∷ (
        codes "X-BAPI-SIGN",
        hmac session.api_secret (
            signed_digits (signing_timestamp 999990 1000010 asking session).1
            ++ (session.api_key ++ (digits session.receive_window ++ joined parameters))),
      )
      ∷ (codes "X-BAPI-SIGN-TYPE", codes "2")
      ∷ (
        codes "X-BAPI-TIMESTAMP",
        signed_digits (signing_timestamp 999990 1000010 asking session).1,
      )
      ∷ (codes "X-BAPI-RECV-WINDOW", digits session.receive_window)
      ∷ []
unfolding new_http_session after_part drop_prefix
authenticate_non_post-headers_example =
    authenticate_non_post-headers hmac 999990 1000010 asking (codes "/v5/order/realtime") parameters
      session refl refl

parse_query-create_query_str_example : parse_query (create_query_str parameters) ≡ parameters
unfolding is_free
parse_query-create_query_str_example =
    parse_query-create_query_str (codes "category", codes "linear")
      ((codes "symbol", codes "BTCUSDT") ∷ []) ((refl, refl, refl), ((refl, refl, refl), tt))

abbrev done : List Handler
done = Handler.completed none ∷ Handler.timer true ∷ []

-- A request whose second read times out.
abbrev network : Network Text
network = record {
  sni_error = none;
  resolve = done;
  connect = done;
  handshake = done;
  write = done;
  reads =
      record { handlers = done; is_done = false }
      ∷ record {
        handlers = Handler.timer false ∷ Handler.completed (some (codes "aborted")) ∷ [];
        is_done = true;
      }
      ∷ [];
  response = codes "{}";
  clock = 1000020;
}

request_lem_example :
    (r : HttpSession × Result Text) × (request (codes "/v5/order/create") network session ≡ some r)
    × ComesTo (codes "/v5/order/create") network session r
request_lem_example = request_lem (codes "/v5/order/create") network session refl (inr (inl refl))
