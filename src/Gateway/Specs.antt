-- ===== src/Gateway/Specs.antt =====
-- Instrument specifications, quotes and the start of the gateway (src/bybit_execution_gateway.cpp).
pub mod Kept
use bybit_cpp_api.Base.{
  ℕ, zero, suc, ◌≡◌, refl, Bool, true, false, Option, none, some, List, [], ◌∷◌, ◌++◌,
  if◌then◌else◌, lookup, insert_or_assign,
}
use bybit_cpp_api.Text.{Text, codes, same_text}
use bybit_cpp_api.Errors.{Error, Result, ok, err, runtime_error}
use bybit_cpp_api.Models.Enums.{Category}
use bybit_cpp_api.Models.Orders.{Doubles}
use bybit_cpp_api.Models.Instruments.{Instrument}
use bybit_cpp_api.Models.Streams.{EventTicker}
use bybit_cpp_api.Rest.Instruments.{Venue, Fetched, find_instrument, get_instruments_info}
use bybit_cpp_api.Client.{Client, client_is_authenticated}
use bybit_cpp_api.Client.Private.{connect, is_live}
use bybit_cpp_api.Client.Public.{Asked}

-- `InstrumentSpec` of the gateway's interface, as the gateway fills it.
pub record InstrumentSpec (D : Type 0) : Type 0 where
  pub symbol : Text
  pub tick_size : D
  pub qty_step : D
  pub min_qty : D
  pub max_qty : D
  pub min_notional : D

-- `Quote`, with the time in milliseconds.
pub record Quote (D : Type 0) : Type 0 where
  pub bid : D
  pub ask : D
  pub received_at : ℕ

-- The REST client's instruments, and the specifications that the gateway keeps.
pub record Specs (D : Type 0) : Type 0 where
  pub instruments : List (Instrument D)
  pub spec_cache : List (Text × InstrumentSpec D)

-- A call on them, whose result is `none` if the fuel of the instruments ran out.
pub record Called (D A : Type 0) : Type 0 where
  pub specs : Specs D
  pub result : Option (Result A)

module _ {D : Type 0} where
  unfoldable pub to_quote : EventTicker D → Quote D
  to_quote t = record { bid = t.bid1_price; ask = t.ask1_price; received_at = t.received_timestamp }

  -- `lastQuote`, behind `readEventTicker`.
  unfoldable pub last_quote : Asked D → Option (Quote D)
  unfolding to_quote
  last_quote a = elim a.ticker [ none ↦ none | some t ↦ some (to_quote t) ]

  unfoldable pub spec_of : Text → Instrument D → InstrumentSpec D
  spec_of symbol i = record {
    symbol = symbol;
    tick_size = i.price_filter.tick_size;
    qty_step = i.lot_size_filter.qty_step;
    min_qty = i.lot_size_filter.min_order_qty;
    max_qty = i.lot_size_filter.max_order_qty;
    min_notional = i.lot_size_filter.min_notional_value;
  }

  abbrev pub known_or :
      Specs D
      → Called D (InstrumentSpec D)
      → Option (InstrumentSpec D)
      → Called D (InstrumentSpec D)
  known_or s searched (some spec) = record { specs = s; result = some (ok spec) }
  known_or s searched none = searched

  -- An instrument that was found: its specification is kept.
  abbrev pub keep :
      Text
      → Instrument D
      → List (Instrument D)
      → List (Text × InstrumentSpec D)
      → Called D (InstrumentSpec D)
  keep symbol i instruments spec_cache = record {
    specs = record {
      instruments = instruments;
      spec_cache = insert_or_assign same_text symbol (spec_of symbol i) spec_cache;
    };
    result = some (ok (spec_of symbol i));
  }

  -- What one pass makes of an instrument that it found, or of none.
  abbrev pub keep_or :
      Text
      → List (Instrument D)
      → List (Text × InstrumentSpec D)
      → (List (Instrument D) → Called D (InstrumentSpec D))
      → Option (Instrument D)
      → Called D (InstrumentSpec D)
  keep_or symbol instruments spec_cache next none = next instruments
  keep_or symbol instruments spec_cache next (some i) = keep symbol i instruments spec_cache

  -- A pass over a listing: the first instrument of the symbol, or what comes next.
  abbrev pub pass :
      Text
      → List (Instrument D)
      → List (Text × InstrumentSpec D)
      → (List (Instrument D) → Called D (InstrumentSpec D))
      → Option (Result (List (Instrument D)))
      → Called D (InstrumentSpec D)
  pass symbol instruments spec_cache next none = record {
    specs = record { instruments = instruments; spec_cache = spec_cache };
    result = none;
  }
  pass symbol instruments spec_cache next (some (err x)) = record {
    specs = record { instruments = instruments; spec_cache = spec_cache };
    result = some (err x);
  }
  pass symbol instruments spec_cache next (some (ok listing)) =
      keep_or symbol instruments spec_cache next (find_instrument listing symbol)

module _ (ds : Doubles) (v : Venue ds.Double) where
  open ds use {Double}

  abbrev unknown_instrument :
      Text
      → List (Text × InstrumentSpec Double)
      → List (Instrument Double)
      → Called Double (InstrumentSpec Double)
  unknown_instrument symbol spec_cache instruments = record {
    specs = record { instruments = instruments; spec_cache = spec_cache };
    result = some (err (runtime_error (codes "Bybit: unknown instrument " ++ symbol)));
  }

  -- The second pass, with `force`.
  unfoldable pub forced_pass :
      Text
      → List (Text × InstrumentSpec Double)
      → List (Instrument Double)
      → Called Double (InstrumentSpec Double)
  forced_pass symbol spec_cache instruments =
      let f = get_instruments_info ds v instruments Category.linear symbol true [] in
      pass symbol f.cache spec_cache (unknown_instrument symbol spec_cache) f.result

  -- `instrumentSpec`.
  unfoldable pub instrument_spec : Text → Specs Double → Called Double (InstrumentSpec Double)
  unfolding forced_pass
  instrument_spec symbol s =
      let f = get_instruments_info ds v s.instruments Category.linear symbol false [] in
      let searched = pass symbol f.cache s.spec_cache (forced_pass symbol s.spec_cache) f.result in
      known_or s searched (lookup same_text symbol s.spec_cache)

  abbrev pub forget :
      Specs Double
      → List (Instrument Double)
      → Option (Result (List (Instrument Double)))
      → Called Double Unit
  forget s cache none = record { specs = record s { instruments = cache }; result = none }
  forget s cache (some (err x)) = record {
    specs = record s { instruments = cache };
    result = some (err x);
  }
  forget s cache (some (ok listing)) = record {
    specs = record { instruments = cache; spec_cache = [] };
    result = some (ok tt);
  }

  -- `refreshInstruments`: a listing that throws keeps the specifications.
  unfoldable pub refresh_instruments : Specs Double → Called Double Unit
  refresh_instruments s =
      let f = get_instruments_info ds v s.instruments Category.linear [] true [] in
      forget s f.cache f.result

-- The end of a call that returns nothing.
abbrev pub Done : Type 0
Done = Result Unit

-- The turns of the wait for a live stream, 100 ms apart, in which the rest of the program works on the
-- client.
unfoldable pub await_live : ℕ → (ℕ → Client → Client) → Client → Client × Done
await_live zero between c = (
  c,
  err (
      runtime_error (
        if client_is_authenticated c
        then codes "BybitExecutionGateway: order/execution subscribe not acknowledged within 10 s"
        else codes "BybitExecutionGateway: private stream auth timeout (10 s)")),
)
await_live (suc n) between c =
    let asked = is_live c in
    let rest = await_live n between (between n asked.0) in
    if asked.1 then (asked.0, ok tt) else rest

module _ (ds : Doubles) (v : Venue ds.Double) (between : ℕ → Client → Client) where
  -- What `start` does behind its listing: a listing that throws connects nothing.
  abbrev pub started_with :
      Client → Option (Result (List (Instrument ds.Double))) → Option (Client × Done)
  started_with c none = none
  started_with c (some (err x)) = some (c, err x)
  started_with c (some (ok listing)) = some (await_live 100 between (connect c))

  -- `start`.
  unfoldable pub start :
      List (Instrument ds.Double) → Client → List (Instrument ds.Double) × Option (Client × Done)
  unfolding await_live
  start cache c =
      let f = get_instruments_info ds v cache Category.linear [] true [] in
      (f.cache, started_with c f.result)
