-- ===== src/Client/Public/Tickers.antt =====
-- What the calls do to the cache of tickers.
use bybit_cpp_api.Base.{
  ℕ, ◌≡◌, refl, String, Bool, true, false, ◌||◌, Bool-cases, inl, inr, Option, none, some, List, [],
  ◌∷◌, if◌then◌else◌, if-elim, lookup, insert_or_assign, lookup-insert_or_assign,
  lookup-insert_or_assign_ne, lookup-erase, lookup-erase_ne,
}
use bybit_cpp_api.Text.{Text, codes, same_text, same_text-IsEquality}
use bybit_cpp_api.Errors.{Result, ok, err}
use bybit_cpp_api.Models.Orders.{Doubles}
use bybit_cpp_api.Models.Tickers.{Ticker}
use bybit_cpp_api.Models.Streams.{EventTicker, TickerData, Loading, load_event_data}
use bybit_cpp_api.Client.Public.{
  Utilities, Manager, Asked, Snapshots, read_symbol_from_filter, seeded, refreshed,
  refresh_ticker_from_rest, entry_of, stored, on_ticker, unsubscribe_ticker_stream,
}

module _ (ds : Doubles) (u : Utilities ds.Double) where
  open ds use {Double}

  abbrev pub quote : Text → Manager Double → Option (EventTicker Double)
  quote symbol m = lookup same_text symbol m.tickers

  -- A ticker stands in the cache for the symbol, with the symbol and the time.
  abbrev pub IsCached : Text → ℕ → Manager Double → Option (EventTicker Double) → Type 0
  IsCached symbol now m none = Unit
  IsCached symbol now m (some t) =
      (quote symbol m ≡ some t) × (t.symbol ≡ symbol) × (t.received_timestamp ≡ now)

  -- A ticker that a call returns stands in the cache afterwards, with the time of the call, and the call
  -- changes no other symbol's entry.
  abbrev pub Caches : Text → ℕ → Manager Double → Asked Double → Type 0
  Caches symbol now m a =
      IsCached symbol now a.manager a.ticker
      × ((other : Text) → same_text symbol other ≡ false → quote other a.manager ≡ quote other m)

  abbrev assign : Text → EventTicker Double → Manager Double → Manager Double
  assign symbol t m = record m { tickers = insert_or_assign same_text symbol t m.tickers }

  -- Nothing is stored, a ticker is stored and not returned, and a ticker is stored and may be returned.
  unchanged-Caches :
      (symbol : Text) (now : ℕ) (m : Manager Double) (requests : ℕ)
      → Caches symbol now m (record { manager = m; requests = requests; ticker = none })
  unchanged-Caches symbol now m requests = (tt, λ other h. refl)

  silent-Caches :
      (symbol : Text) (now : ℕ) (m : Manager Double) (requests : ℕ) (t : EventTicker Double)
      → Caches symbol now m
          (record { manager = assign symbol t m; requests = requests; ticker = none })
  silent-Caches symbol now m requests t = (
    tt,
    λ other e. lookup-insert_or_assign_ne same_text same_text-IsEquality symbol other t m.tickers e,
  )

  assigned-Caches :
      (symbol : Text) (now : ℕ) (m : Manager Double) (requests : ℕ) (t : EventTicker Double)
      → t.symbol ≡ symbol
      → t.received_timestamp ≡ now
      → (b : Bool)
      → Caches symbol now m (record {
        manager = assign symbol t m;
        requests = requests;
        ticker = if b then some t else none;
      })
  assigned-Caches symbol now m requests t h k true = (
    (lookup-insert_or_assign same_text same_text-IsEquality symbol t m.tickers, h, k),
    λ other e. lookup-insert_or_assign_ne same_text same_text-IsEquality symbol other t m.tickers e,
  )
  assigned-Caches symbol now m requests t h k false = silent-Caches symbol now m requests t

  refreshed-Caches :
      (symbol : Text) (now : ℕ) (m : Manager Double) (answer : Result (List (Ticker Double)))
      → Caches symbol now m (refreshed ds u m symbol now answer)
  unfolding refreshed
  refreshed-Caches symbol now m (err x) = unchanged-Caches symbol now m 1
  refreshed-Caches symbol now m (ok []) = unchanged-Caches symbol now m 1
  refreshed-Caches symbol now m (ok (s ∷ ss)) =
      if-elim (Caches symbol now m) (u.non_positive s.ask1_price || u.non_positive s.bid1_price)
        (record { manager = m; requests = 1; ticker = none })
        (record {
          manager = assign symbol (seeded ds u symbol now s) m;
          requests = 1;
          ticker = some (seeded ds u symbol now s);
        })
        (unchanged-Caches symbol now m 1)
        (assigned-Caches symbol now m 1 (seeded ds u symbol now s) refl refl true)

  -- `refreshTickerFromREST`: what it returns is cached, and it changes no other symbol's entry.
  pub refresh_ticker_from_rest-Caches :
      (rest : Snapshots Double) (now : ℕ) (symbol : Text) (m : Manager Double)
      → Caches symbol now m (refresh_ticker_from_rest ds u rest now symbol m)
  unfolding refresh_ticker_from_rest
  refresh_ticker_from_rest-Caches none now symbol m = unchanged-Caches symbol now m 0
  refresh_ticker_from_rest-Caches (some get_tickers) now symbol m =
      refreshed-Caches symbol now m (get_tickers symbol)

  stored-Caches :
      (m : Manager Double) (symbol : Text) (now : ℕ) (old : Option (EventTicker Double))
      (l : Loading Double)
      → Caches symbol now m (stored ds u m symbol now old l)
  unfolding stored
  stored-Caches m symbol now old l = elim (Bool-cases l.whole) [
    | inl b ↦ rw b (
        assigned-Caches symbol now m 0
          (record l.ticker { symbol = symbol; received_timestamp = now }) refl refl m.has_ticker_cb)
    | inr b ↦
        rw b
          (elim old
            as (λ o. Caches symbol now m (record {
              manager = elim o [ none ↦ m | some t ↦ assign symbol l.ticker m ];
              requests = 0;
              ticker = none;
            })) [
              | none ↦ unchanged-Caches symbol now m 0
              | some t ↦ silent-Caches symbol now m 0 l.ticker
            ])
  ]

  -- The data callback on a ticker topic: the ticker that it passes on is cached for the topic's symbol, with
  -- the time of receipt, and it changes no other symbol's entry.
  pub on_ticker-Caches :
      (topic : Text) (message : TickerData Double) (now : ℕ) (m : Manager Double)
      → Caches
          (u.to_upper (read_symbol_from_filter ds u topic))
          now
          m
          (on_ticker ds u topic message now m)
  unfolding on_ticker
  on_ticker-Caches topic message now m =
      stored-Caches m (u.to_upper (read_symbol_from_filter ds u topic)) now
        (lookup same_text (u.to_upper (read_symbol_from_filter ds u topic)) m.tickers)
        (load_event_data message (
          entry_of ds u
            (lookup same_text (u.to_upper (read_symbol_from_filter ds u topic)) m.tickers)))

  -- `unsubscribeTickerStream`: the pair has no entry afterwards, and every other symbol keeps its own.
  pub unsubscribe_ticker_stream_lem :
      (pair : String) (m : Manager Double)
      → (quote (u.to_upper (codes pair)) (unsubscribe_ticker_stream ds u pair m) ≡ none)
        × ((other : Text)
            → same_text (u.to_upper (codes pair)) other ≡ false
            → quote other (unsubscribe_ticker_stream ds u pair m) ≡ quote other m)
  unfolding unsubscribe_ticker_stream
  unsubscribe_ticker_stream_lem pair m = (
    lookup-erase same_text (u.to_upper (codes pair)) m.tickers,
    λ other h.
        lookup-erase_ne same_text same_text-IsEquality (u.to_upper (codes pair)) other m.tickers h,
  )
