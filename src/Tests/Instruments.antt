-- ===== src/Tests/Instruments.antt =====
-- The theorems on instruments, their steps and the start of the gateway at a concrete venue.
use bybit_cpp_api.Base.{ℕ, ◌-◌, ◌*◌, ◌≡◌, refl, not, some, [], ◌∷◌, ◌==◌}
use bybit_cpp_api.Text.{Text, codes, same_text}
use bybit_cpp_api.Errors.{Result, ok}
use bybit_cpp_api.Models.Enums.{Category, Side}
use bybit_cpp_api.Models.Orders.{Order, new_order}
use bybit_cpp_api.Models.Payload.{Decimals, Payload}
use bybit_cpp_api.Models.Instruments.{Instrument, new_instrument}
use bybit_cpp_api.Rest.Responses.{Response, read_response, check_response, handle_bybit_response}
use bybit_cpp_api.Rest.Pages.{gathered, gather}
use bybit_cpp_api.Rest.Instruments.{Venue, find_steps, find_instrument}
use bybit_cpp_api.Rest.Instruments.Cache.{Primed, find_steps-Primed}
use bybit_cpp_api.Gateway.Specs.{refresh_instruments, instrument_spec, spec_of}
use bybit_cpp_api.Gateway.Specs.Kept.{instrument_spec-refresh_instruments}
use bybit_cpp_api.Tests.Venue.{lots}

abbrev btc : Instrument ℕ
btc = record (new_instrument lots) { symbol = codes "BTCUSDT"; launch_time = 7 }

-- A venue with one instrument.
abbrev listing : Venue ℕ
listing = record {
  instruments = λ category symbol status n cursor. record {
    status = 200;
    body = [];
    ret_code = 0;
    ret_msg = [];
    value = record { rows = btc ∷ []; next_page_cursor = [] };
  };
  public_symbols = [];
  fuel = 1;
}

-- Quantities stand for the doubles, and all are whole.
abbrev whole : Decimals ℕ
whole = record {
  ten = 10;
  pico = 0;
  times = λ a b. a * b;
  minus = λ a b. a - b;
  abs = λ a. a;
  round = λ a. a;
  differs = λ a b. not (a == b);
  fixed = λ places a. codes "1";
}

abbrev taken : Payload → Result (Response Text)
taken payload =
    ok (record { status = 200; body = []; ret_code = 0; ret_msg = []; value = codes "o-1" })

find_steps-Primed_example :
    Primed lots listing [] Category.linear
      (find_steps lots listing [] Category.linear (codes "BTCUSDT")).cache
find_steps-Primed_example = find_steps-Primed lots listing [] Category.linear (codes "BTCUSDT") refl

abbrev order : Order ℕ
order = record (new_order lots) { symbol = codes "BTCUSDT"; side = Side.sell; qty = 3 }

instrument_spec-refresh_instruments_example :
    (instrument_spec lots listing
      (codes "BTCUSDT")
      (refresh_instruments lots listing
        (record { instruments = []; spec_cache = [] })).specs).result
    ≡ some (ok (spec_of (codes "BTCUSDT") btc))
unfolding gather gathered read_response check_response handle_bybit_response find_instrument
    same_text
instrument_spec-refresh_instruments_example =
    instrument_spec-refresh_instruments lots listing listing (codes "BTCUSDT")
      (record { instruments = []; spec_cache = [] }) btc btc [] refl refl
