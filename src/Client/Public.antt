-- ===== src/Client/Public.antt =====
-- The public stream (src/bybit_ws_stream_manager.cpp): its caches, and the calls that fill them.
pub mod Tickers
pub mod Reading
pub mod Fresh
pub mod Subscribing
pub mod Candles
use Prim.Native.String
use bybit_cpp_api.Base.{
  ℕ, ◌+◌, ◌-◌, ◌*◌, ◌≡◌, refl, String, Bool, true, false, not, ◌&&◌, ◌||◌, Option, none, some, List,
  [], ◌∷◌, if◌then◌else◌, ltb, leb, ◌==◌, lookup, insert_or_assign, erase,
}
use bybit_cpp_api.Text.{Text, codes, has_part, same_text}
use bybit_cpp_api.Errors.{Result, ok, err}
use bybit_cpp_api.Models.Enums.{CandleInterval, Environment}
use bybit_cpp_api.Models.Enums.Names
use bybit_cpp_api.Models.Orders.{Doubles}
use bybit_cpp_api.Models.Tickers.{Ticker}
use bybit_cpp_api.Models.Streams.{
  EventTicker, new_event_ticker, TickerData, Loading, load_event_data, EventCandlestick,
}
use bybit_cpp_api.Client.{Client, client_is_subscribed, subscribe, unsubscribe, set_endpoint}

-- What the manager uses of other libraries: `splitString`, `to_upper_copy` and `<= 0.0`.
pub record Utilities (D : Type 0) : Type 0 where
  pub split : Text → ℕ → List Text
  pub to_upper : Text → Text
  pub non_positive : D → Bool

abbrev pub same_interval : CandleInterval → CandleInterval → Bool
same_interval i j = same_text (Names.interval i) (Names.interval j)

-- `P`. A `maxTickAge` that is not positive is 0, and times are in milliseconds.
pub record Manager (D : Type 0) : Type 0 where
  pub client : Client
  pub tickers : List (Text × EventTicker D)
  pub candlesticks : List (Text × List (CandleInterval × EventCandlestick D))
  pub timeout : ℕ
  pub max_tick_age : ℕ
  pub has_ticker_cb : Bool

-- The manager after a call, how many times the call asked the REST client, and the ticker it returns.
pub record Asked (D : Type 0) : Type 0 where
  pub manager : Manager D
  pub requests : ℕ
  pub ticker : Option (EventTicker D)

-- The REST client's answer for tickers of a symbol, or `none` if the REST client is gone.
abbrev pub Snapshots : Type 0 → Type 0
Snapshots D = Option (Text → Result (List (Ticker D)))

-- `readSymbolFromFilter`'s `records.back()`.
unfoldable pub last_or_empty : List Text → Text
last_or_empty [] = []
last_or_empty (t ∷ []) = t
last_or_empty (t ∷ u ∷ ts) = last_or_empty (u ∷ ts)

-- The constructor.
unfoldable pub new_manager : {D : Type 0} → Environment → Client → Manager D
new_manager env c = record {
  client = elim env [
    | Environment.testnet ↦ set_endpoint "stream-testnet.bybit.com" "443" "/v5/public/linear" c
    | Environment.mainnet ↦ c
    | Environment.demo ↦ c
  ];
  tickers = [];
  candlesticks = [];
  timeout = 5;
  max_tick_age = 60;
  has_ticker_cb = false;
}

module _ (ds : Doubles) (u : Utilities ds.Double) where
  open ds use {Double}

  unfoldable pub read_symbol_from_filter : Text → Text
  unfolding last_or_empty
  read_symbol_from_filter filter = last_or_empty (u.split filter b'.')

  unfoldable pub is_stale : Manager Double → ℕ → EventTicker Double → Bool
  is_stale m now t =
      if m.max_tick_age == 0
      then false
      else t.received_timestamp == 0 || ltb (m.max_tick_age * 1000) (now - t.received_timestamp)

  -- The ticker that a snapshot makes.
  abbrev pub seeded : Text → ℕ → Ticker Double → EventTicker Double
  seeded symbol now s = record {
    symbol = symbol;
    ask1_price = s.ask1_price;
    ask1_size = s.ask1_size;
    bid1_price = s.bid1_price;
    bid1_size = s.bid1_size;
    last_price = s.last_price;
    received_timestamp = now;
  }

  -- What `refreshTickerFromREST` makes of the answer.
  unfoldable pub refreshed :
      Manager Double → Text → ℕ → Result (List (Ticker Double)) → Asked Double
  refreshed m symbol now (err x) = record { manager = m; requests = 1; ticker = none }
  refreshed m symbol now (ok []) = record { manager = m; requests = 1; ticker = none }
  refreshed m symbol now (ok (s ∷ ss)) =
      if u.non_positive s.ask1_price || u.non_positive s.bid1_price
      then record { manager = m; requests = 1; ticker = none }
      else record {
        manager = record m {
          tickers = insert_or_assign same_text symbol (seeded symbol now s) m.tickers;
        };
        requests = 1;
        ticker = some (seeded symbol now s);
      }

  -- `refreshTickerFromREST`, at the time of the answer.
  unfoldable pub refresh_ticker_from_rest :
      Snapshots Double → ℕ → Text → Manager Double → Asked Double
  unfolding refreshed
  refresh_ticker_from_rest none now symbol m = record { manager = m; requests = 0; ticker = none }
  refresh_ticker_from_rest (some get_tickers) now symbol m =
      refreshed m symbol now (get_tickers symbol)

  -- The entry that a ticker message is read into.
  abbrev pub entry_of : Option (EventTicker Double) → EventTicker Double
  entry_of none = new_event_ticker ds
  entry_of (some t) = t

  -- A message that was read to its end is stored and passed on. One that throws leaves no new entry,
  -- but what it read before the throw stays in an entry that was there.
  unfoldable pub stored :
      Manager Double → Text → ℕ → Option (EventTicker Double) → Loading Double → Asked Double
  stored m symbol now old l =
      let t = record l.ticker { symbol = symbol; received_timestamp = now } in
      if l.whole
      then record {
        manager = record m { tickers = insert_or_assign same_text symbol t m.tickers };
        requests = 0;
        ticker = if m.has_ticker_cb then some t else none;
      }
      else record {
        manager = elim old [
          | none ↦ m
          | some t ↦ record m { tickers = insert_or_assign same_text symbol l.ticker m.tickers }
        ];
        requests = 0;
        ticker = none;
      }

  -- The data callback on a ticker topic: the ticker is the one that the update callback is given.
  unfoldable pub on_ticker : Text → TickerData Double → ℕ → Manager Double → Asked Double
  unfolding stored load_event_data read_symbol_from_filter
  on_ticker topic message now m =
      let symbol = u.to_upper (read_symbol_from_filter topic) in
      let old = lookup same_text symbol m.tickers in
      stored m symbol now old (load_event_data message (entry_of old))

  -- `subscribeTickerStream`, without the start of the io thread. Where `subscribe` throws, nothing is seeded.
  unfoldable pub subscribe_ticker_stream :
      Snapshots Double → ℕ → String → Manager Double → Asked Double
  unfolding refresh_ticker_from_rest
  subscribe_ticker_stream rest now pair m =
      let topic = String.◌++◌ "tickers." pair in
      let s = subscribe topic m.client in
      let m' = record m { client = s.0 } in
      let seed = refresh_ticker_from_rest rest now (u.to_upper (codes pair)) m' in
      if client_is_subscribed m.client topic
      then record { manager = m; requests = 0; ticker = none }
      else if s.1
      then seed
      else record { manager = m'; requests = 0; ticker = none }

  unfoldable pub unsubscribe_ticker_stream : String → Manager Double → Manager Double
  unsubscribe_ticker_stream pair m = record m {
    client = unsubscribe (String.◌++◌ "tickers." pair) m.client;
    tickers = erase same_text (u.to_upper (codes pair)) m.tickers;
  }

module _ {D : Type 0} where
  -- `setTimeout` and `setMaxTickAge`, of numbers that are not negative.
  unfoldable pub set_timeout : ℕ → Manager D → Manager D
  set_timeout seconds m = record m { timeout = seconds }

  unfoldable pub set_max_tick_age : ℕ → Manager D → Manager D
  set_max_tick_age seconds m = record m { max_tick_age = seconds }

  -- What the destructor leaves to the readers: they poll on the timeout.
  unfoldable pub released_manager : Manager D → Manager D
  released_manager m = record m { timeout = 0 }
