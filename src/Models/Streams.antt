-- ===== src/Models/Streams.antt =====
-- What the public stream carries. `D` is the type of the doubles.
use bybit_cpp_api.Base.{ℕ, Bool, true, false, []}
use bybit_cpp_api.Text.{Text}
use bybit_cpp_api.Models.Orders.{Doubles}

pub record EventTicker (D : Type 0) : Type 0 where
  pub symbol : Text
  pub ask1_price : D
  pub ask1_size : D
  pub bid1_price : D
  pub bid1_size : D
  pub last_price : D
  pub received_timestamp : ℕ

abbrev pub new_event_ticker : (ds : Doubles) → EventTicker ds.Double
new_event_ticker ds = record {
  symbol = [];
  ask1_price = ds.zero;
  ask1_size = ds.zero;
  bid1_price = ds.zero;
  bid1_size = ds.zero;
  last_price = ds.zero;
  received_timestamp = 0;
}

-- What the reader of a member finds: nothing, a value, or a member that it throws on.
pub data Member (A : Type 0) : Type 0 where
  absent malformed : Member A
  given : A → Member A

-- The data of a ticker message.
pub record TickerData (D : Type 0) : Type 0 where
  pub symbol : Member Text
  pub ask1_price : Member D
  pub ask1_size : Member D
  pub bid1_price : Member D
  pub bid1_size : Member D
  pub last_price : Member D

-- A ticker that is being read into, and whether no member has thrown yet.
pub record Loading (D : Type 0) : Type 0 where
  pub ticker : EventTicker D
  pub whole : Bool

module _ {D : Type 0} where
  -- One member: an absent one leaves the ticker as it is, and a throw ends the reading.
  unfoldable pub read_into :
      {A : Type 0} → (EventTicker D → A → EventTicker D) → Member A → Loading D → Loading D
  read_into set Member.absent l = l
  read_into set Member.malformed l = record l { whole = false }
  read_into set (Member.given a) l = elim l.whole [
    | true ↦ record l { ticker = set l.ticker a }
    | false ↦ l
  ]

  -- `EventTicker::fromJson`, which `loadEventData` calls for snapshots and deltas alike.
  unfoldable pub load_event_data : TickerData D → EventTicker D → Loading D
  unfolding read_into
  load_event_data d t =
      read_into (λ t p. record t { last_price = p }) d.last_price
        (read_into (λ t p. record t { bid1_size = p }) d.bid1_size
          (read_into (λ t p. record t { bid1_price = p }) d.bid1_price
            (read_into (λ t p. record t { ask1_size = p }) d.ask1_size
              (read_into (λ t p. record t { ask1_price = p }) d.ask1_price
                (read_into (λ t s. record t { symbol = s }) d.symbol
                  (record { ticker = t; whole = true }))))))

pub record EventCandlestick (D : Type 0) : Type 0 where
  pub start : ℕ
  pub end : ℕ
  pub interval : Text
  pub open_price : D
  pub high : D
  pub low : D
  pub close : D
  pub volume : D
  pub turnover : D
  pub confirm : Bool
  pub timestamp : ℕ
