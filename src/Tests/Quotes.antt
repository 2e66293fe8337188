-- ===== src/Tests/Quotes.antt =====
-- The theorems on the public stream at a concrete manager.
use bybit_cpp_api.Base.{
  ℕ, zero, suc, ◌+◌, ◌≡◌, refl, true, false, some, List, [], ◌∷◌, ◌==◌, length, arith,
}
use bybit_cpp_api.Text.{Text, codes}
use bybit_cpp_api.Errors.{ok}
use bybit_cpp_api.Models.Tickers.{new_ticker}
use bybit_cpp_api.Models.Streams.{TickerData, Member}
use bybit_cpp_api.Client.Public.{
  Utilities, Manager, Asked, Snapshots, on_ticker, read_symbol_from_filter,
}
use bybit_cpp_api.Client.Public.Tickers.{Caches, on_ticker-Caches}
use bybit_cpp_api.Client.Public.Reading.{Poll, read_event_ticker, IsUsable}
use bybit_cpp_api.Client.Public.Fresh.{Ticks, read_event_ticker_lem}
use bybit_cpp_api.Session.State.{new}
use bybit_cpp_api.Tests.Venue.{lots}

-- A splitter at points.
abbrev split_off : ℕ → Text → List Text
split_off point [] = [] ∷ []
split_off point (c ∷ t) = elim (c == point) [
  | true ↦ [] ∷ split_off point t
  | false ↦ elim (split_off point t) [ [] ↦ (c ∷ []) ∷ [] | part ∷ parts ↦ (c ∷ part) ∷ parts ]
]

abbrev utilities : Utilities ℕ
utilities = record {
  split = λ t point. split_off point t;
  to_upper = λ t. t;
  non_positive = λ a. a == 0;
}

abbrev manager : Manager ℕ
manager = record {
  client = record {
    host = "h";
    port = "p";
    path = "/";
    api_key = "";
    api_secret = "";
    sign = λ secret expires. secret;
    has_data_cb = true;
    session = some (new (λ secret expires. secret));
    posted = [];
  };
  tickers = [];
  candlesticks = [];
  timeout = 1;
  max_tick_age = 60;
  has_ticker_cb = true;
}

abbrev message : TickerData ℕ
message = record {
  symbol = Member.absent;
  ask1_price = Member.given 101;
  ask1_size = Member.given 1;
  bid1_price = Member.given 100;
  bid1_size = Member.given 1;
  last_price = Member.absent;
}

on_ticker-Caches_example :
    Caches lots utilities
      (utilities.to_upper (read_symbol_from_filter lots utilities (codes "tickers.BTCUSDT")))
      7
      manager
      (on_ticker lots utilities (codes "tickers.BTCUSDT") message 7 manager)
on_ticker-Caches_example =
    on_ticker-Caches lots utilities (codes "tickers.BTCUSDT") message 7 manager

-- The venue's snapshot.
abbrev snapshots : Snapshots ℕ
snapshots = some (λ symbol. ok (
    (record (new_ticker lots) {
      last_price = 100;
      ask1_size = 1;
      bid1_price = 100;
      ask1_price = 101;
      bid1_size = 1;
    })
    ∷ []))

-- Turns at which no ticker is there, from a time on.
abbrev turns : ℕ → ℕ → List (Poll ℕ)
turns zero at = []
turns (suc n) at = record { manager = manager; read_at = at; checked_at = at } ∷ turns n (at + 3)

turns-Ticks : (n at : ℕ) → Ticks at (turns n at)
turns-Ticks zero at = tt
turns-Ticks (suc n) at = (omega arith, turns-Ticks n (at + 3))

length-turns : (n at : ℕ) → length (turns n at) ≡ n
length-turns zero at = refl
length-turns (suc n) at = omega (arith, length-turns n (at + 3))

read_event_ticker_lem_example :
    (a : Asked ℕ) × (read_event_ticker lots utilities snapshots 9
        (codes "BTCUSDT")
        1
        0
        (turns 335 0)
      ≡ some a)
    × IsUsable lots utilities snapshots (codes "BTCUSDT") 9 (turns 335 0) a.ticker
read_event_ticker_lem_example =
    read_event_ticker_lem lots utilities snapshots 9 (codes "BTCUSDT") 1 0 (turns 335 0)
      (turns-Ticks 335 0) (omega (arith, length-turns 335 0))
