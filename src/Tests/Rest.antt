-- ===== src/Tests/Rest.antt =====
-- The theorems on the REST client and on decimal texts at concrete answers.
use bybit_cpp_api.Base.{
  true, ℕ, ◌+◌, ◌≤◌, ◌≡◌, refl, false, List, [], ◌∷◌, arith, ◌||◌, ltb, All, ◌==◌, if◌then◌else◌,
}
use bybit_cpp_api.Text.{Text, codes, same_text}
use bybit_cpp_api.Errors.{ok}
use bybit_cpp_api.Models.Enums.{Side, Category, PositionMode}
use bybit_cpp_api.Models.Orders.{Doubles, Order}
use bybit_cpp_api.Rest.Responses.{Response, read_response, check_response, handle_bybit_response}
use bybit_cpp_api.Rest.Executions.{
  Page, Listing, last, more, max_pages, get_executions, list_pages, next_page, get_executions-ok,
  get_executions_complete,
}
use bybit_cpp_api.Models.Payload.{Payload}
use bybit_cpp_api.Rest.Account.{ModeOutcome, set_position_mode}
use bybit_cpp_api.Rest.Account.Laws.{set_position_mode-answered}
use bybit_cpp_api.Models.Market.{new_position}
use bybit_cpp_api.Rest.Closing.{closing_orders, closing_orders-category}

abbrev page : List ℕ → Text → Response (Page ℕ)
page xs next = record {
  status = 200;
  body = [];
  ret_code = 0;
  ret_msg = codes "OK";
  value = record { executions = xs; next_cursor = next };
}

-- A listing of two pages.
abbrev fetch : ℕ → Text → Response (Page ℕ)
fetch n cursor = if n == 0 then page (1 ∷ 2 ∷ []) (codes "next") else page (3 ∷ []) []

get_executions-ok_example :
    (pages : ℕ) × (pages ≤ max_pages) × Listing fetch pages 0 [] (1 ∷ 2 ∷ 3 ∷ [])
unfolding get_executions list_pages next_page read_response check_response handle_bybit_response
    same_text
get_executions-ok_example = get_executions-ok fetch (1 ∷ 2 ∷ 3 ∷ []) refl

two_pages : Listing fetch 2 0 [] (1 ∷ 2 ∷ 3 ∷ [])
unfolding read_response check_response handle_bybit_response same_text
two_pages =
    more {p = record { executions = 1 ∷ 2 ∷ []; next_cursor = codes "next" }} refl refl refl
      (last {p = record { executions = 3 ∷ []; next_cursor = [] }} refl refl)

get_executions_complete_example : get_executions fetch ≡ ok (1 ∷ 2 ∷ 3 ∷ [])
get_executions_complete_example =
    get_executions_complete fetch 2 (1 ∷ 2 ∷ 3 ∷ []) (omega arith) two_pages

abbrev lots : Doubles
lots = record {
  Double = ℕ;
  zero = 0;
  add = λ a b. a + b;
  less = ltb;
  tiny = 0;
  cent = 1;
  milli = 1;
  show = λ a. [];
}

-- The venue does not know whether it switched the mode.
abbrev backend_timeout : Payload → Response Unit
backend_timeout payload = record {
  status = 200;
  body = [];
  ret_code = 10000;
  ret_msg = codes "Server Timeout";
  value = tt;
}

set_position_mode-answered_example :
    set_position_mode
      (λ payload. ok (record { parses = true; response = backend_timeout payload }))
      Category.linear
      (codes "BTCUSDT")
      []
      PositionMode.both_sides
    ≡ ModeOutcome.answered
        (10000 == 0 || same_text (codes "Server Timeout") (codes "Position mode is not modified"))
set_position_mode-answered_example =
    set_position_mode-answered
      (λ payload. ok (record { parses = true; response = backend_timeout payload })) Category.linear
      (codes "BTCUSDT") [] PositionMode.both_sides
      (record { parses = true; response = backend_timeout [] }) refl refl refl

closing_orders-category_example :
    All
      (λ (order : Order ℕ). (order.category ≡ Category.linear) × (order.reduce_only ≡ false))
      (closing_orders lots Category.inverse (
        record (new_position lots) {
          symbol = codes "BTCUSD";
          side = Side.buy;
          size = 3;
          zero_size = false;
        }
        ∷ []))
closing_orders-category_example = closing_orders-category lots Category.inverse (
    record (new_position lots) {
      symbol = codes "BTCUSD";
      side = Side.buy;
      size = 3;
      zero_size = false;
    }
    ∷ [])
