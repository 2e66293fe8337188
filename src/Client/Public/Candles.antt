-- ===== src/Client/Public/Candles.antt =====
-- The candlesticks of the public stream.
use Prim.Native.String
use bybit_cpp_api.Base.{
  ℕ, ◌+◌, ◌*◌, ◌≡◌, refl, String, Bool, true, false, not, Option, none, some, List, [], ◌∷◌,
  if◌then◌else◌, ◌==◌, lookup, insert_or_assign, lookup-insert_or_assign,
  lookup-insert_or_assign_ne, IsEquality,
}
use bybit_cpp_api.Text.{Text, same_text, same_text-IsEquality}
use bybit_cpp_api.Models.Enums.{CandleInterval}
use bybit_cpp_api.Models.Enums.Names
use bybit_cpp_api.Models.Enums.Casts.{interval_cast, interval_cast-interval}
use bybit_cpp_api.Models.Orders.{Doubles}
use bybit_cpp_api.Models.Streams.{EventCandlestick}
use bybit_cpp_api.Client.{client_is_subscribed, subscribe}
use bybit_cpp_api.Client.Public.{Utilities, Manager, same_interval, read_symbol_from_filter}
use bybit_cpp_api.Client.Public.Reading.{Poll, Left, at_deadline}

-- What the data callback makes of the data of a candle message. `undefined` where the language leaves it
-- open what happens: the first element of an empty array, or the value of an interval that has no name.
pub data Reaction (A : Type 0) : Type 0 where
  undefined : Reaction A
  defined : A → Reaction A

-- The interval's own map of a symbol, which a missing symbol gets empty.
abbrev pub or_empty : {A : Type 0} → Option (List A) → List A
or_empty none = []
or_empty (some m) = m

module _ (ds : Doubles) (u : Utilities ds.Double) where
  open ds use {Double}

  abbrev pub candle : Text → CandleInterval → Manager Double → Option (EventCandlestick Double)
  candle symbol interval m =
      lookup same_interval interval (or_empty (lookup same_text symbol m.candlesticks))

  abbrev pub with_candle :
      Text → CandleInterval → EventCandlestick Double → Manager Double → Manager Double
  with_candle symbol interval c m = record m {
    candlesticks =
        insert_or_assign same_text symbol
          (insert_or_assign same_interval interval c
            (or_empty (lookup same_text symbol m.candlesticks)))
          m.candlesticks;
  }

  -- The first candle, by the interval that it names.
  abbrev pub keyed_candle :
      Text
      → EventCandlestick Double
      → Manager Double
      → Option CandleInterval
      → Reaction (Manager Double)
  keyed_candle symbol c m none = Reaction.undefined
  keyed_candle symbol c m (some interval) = Reaction.defined (with_candle symbol interval c m)

  -- The data callback on a candle topic. An element is `none` where reading it throws.
  unfoldable pub on_candle :
      Text → List (Option (EventCandlestick Double)) → Manager Double → Reaction (Manager Double)
  unfolding read_symbol_from_filter interval_cast
  on_candle topic [] m = Reaction.undefined
  on_candle topic (none ∷ rest) m = Reaction.defined m
  on_candle topic (some c ∷ rest) m =
      keyed_candle (u.to_upper (read_symbol_from_filter ds u topic)) c m (interval_cast c.interval)

  -- `subscribeCandlestickStream`, with `false` where `subscribe` throws.
  unfoldable pub subscribe_candlestick_stream :
      String → CandleInterval → Manager Double → Manager Double × Bool
  subscribe_candlestick_stream pair interval m =
      let topic =
        String.◌++◌ "kline." (String.◌++◌ (Names.interval_name interval) (String.◌++◌ "." pair)) in
      let s = subscribe topic m.client in
      if not (client_is_subscribed m.client topic)
      then (record m { client = s.0 }, s.1)
      else (m, true)

  abbrev pub candle_turn :
      ℕ
      → Poll Double
      → Option (EventCandlestick Double)
      → Left Double (EventCandlestick Double)
      → Left Double (EventCandlestick Double)
  candle_turn deadline p none rest = at_deadline deadline p rest
  candle_turn deadline p (some c) rest = Left.served p.manager c

  -- The loop of `readEventCandlestick`.
  unfoldable pub poll_candle :
      Text → CandleInterval → ℕ → List (Poll Double) → Left Double (EventCandlestick Double)
  poll_candle symbol interval deadline [] = Left.waiting
  poll_candle symbol interval deadline (p ∷ ps) =
      let rest = poll_candle symbol interval deadline ps in
      if p.manager.timeout == 0
      then Left.released p.manager
      else candle_turn deadline p (candle symbol interval p.manager) rest

  abbrev pub candle_left :
      Left Double (EventCandlestick Double) → Option (Option (EventCandlestick Double))
  candle_left Left.waiting = none
  candle_left (Left.released m) = some none
  candle_left (Left.empty m) = some none
  candle_left (Left.served m c) = some (some c)

  -- `readEventCandlestick`, whose result is `none` if the turns that are given do not end it.
  unfoldable pub read_event_candlestick :
      Text → CandleInterval → ℕ → ℕ → List (Poll Double) → Option (Option (EventCandlestick Double))
  unfolding poll_candle
  read_event_candlestick pair interval timeout start polls =
      candle_left (poll_candle (u.to_upper pair) interval (start + timeout * 1000) polls)

  pub same_interval-IsEquality : IsEquality same_interval
  same_interval-IsEquality = (
    λ i. same_text-IsEquality.0 (Names.interval i),
    λ i j k. same_text-IsEquality.1 (Names.interval i) (Names.interval j) (Names.interval k),
  )

  with_candle-own :
      (symbol : Text) (i : CandleInterval) (c : EventCandlestick Double) (m : Manager Double)
      → candle symbol i (with_candle symbol i c m) ≡ some c
  with_candle-own symbol i c m =
      rw
        (lookup-insert_or_assign same_text same_text-IsEquality symbol
          (insert_or_assign same_interval i c (or_empty (lookup same_text symbol m.candlesticks)))
          m.candlesticks)
        (lookup-insert_or_assign same_interval same_interval-IsEquality i c
          (or_empty (lookup same_text symbol m.candlesticks)))

  with_candle-symbol :
      (symbol other : Text) (i j : CandleInterval) (c : EventCandlestick Double)
      (m : Manager Double)
      → same_text symbol other ≡ false
      → candle other j (with_candle symbol i c m) ≡ candle other j m
  with_candle-symbol symbol other i j c m h =
      rw
        (lookup-insert_or_assign_ne same_text same_text-IsEquality symbol other
          (insert_or_assign same_interval i c (or_empty (lookup same_text symbol m.candlesticks)))
          m.candlesticks h)
        refl

  with_candle-interval :
      (symbol : Text) (i j : CandleInterval) (c : EventCandlestick Double) (m : Manager Double)
      → same_interval i j ≡ false
      → candle symbol j (with_candle symbol i c m) ≡ candle symbol j m
  with_candle-interval symbol i j c m h =
      rw
        (lookup-insert_or_assign same_text same_text-IsEquality symbol
          (insert_or_assign same_interval i c (or_empty (lookup same_text symbol m.candlesticks)))
          m.candlesticks)
        (lookup-insert_or_assign_ne same_interval same_interval-IsEquality i j c
          (or_empty (lookup same_text symbol m.candlesticks)) h)

  -- A candle whose interval has a name is stored for the topic's symbol and that interval; every other
  -- candle stays.
  pub on_candle_lem :
      (topic : Text) (c : EventCandlestick Double) (rest : List (Option (EventCandlestick Double)))
      (m : Manager Double) (i : CandleInterval)
      → c.interval ≡ Names.interval i
      → let symbol = u.to_upper (read_symbol_from_filter ds u topic) in
        (m' : Manager Double) × (on_candle topic (some c ∷ rest) m ≡ Reaction.defined m')
        × (candle symbol i m' ≡ some c)
        × ((other : Text) (j : CandleInterval)
            → same_text symbol other ≡ false
            → candle other j m' ≡ candle other j m)
        × ((j : CandleInterval)
            → same_interval i j ≡ false
            → candle symbol j m' ≡ candle symbol j m)
  unfolding on_candle
  on_candle_lem topic c rest m i h =
      let symbol = u.to_upper (read_symbol_from_filter ds u topic) in
      (
        with_candle symbol i c m,
        rw (h, interval_cast-interval i) refl,
        with_candle-own symbol i c m,
        λ other j e. with_candle-symbol symbol other i j c m e,
        λ j e. with_candle-interval symbol i j c m e,
      )
