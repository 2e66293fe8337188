-- ===== src/Client/Public/Reading.antt =====
-- The polls of `readEventTicker` and `readEventCandlestick`, and the candles.
use bybit_cpp_api.Base.{
  ℕ, ◌+◌, ◌*◌, ◌≡◌, refl, ◌⊎◌, inl, inr, if-elim, Bool-cases, Bool, true, false, not, Option, none,
  some, List, [], ◌∷◌, if◌then◌else◌, leb, ◌==◌, lookup,
}
use bybit_cpp_api.Text.{Text, same_text}
use bybit_cpp_api.Models.Orders.{Doubles}
use bybit_cpp_api.Errors.{Result, ok}
use bybit_cpp_api.Models.Tickers.{Ticker}
use bybit_cpp_api.Models.Streams.{EventTicker}
use bybit_cpp_api.Client.Public.{
  Utilities, Manager, Asked, Snapshots, is_stale, refresh_ticker_from_rest,
}

-- What a turn of a polling loop meets: the manager as the other threads left it, the time it reads for
-- the age of an entry, and the time it compares with the deadline.
pub record Poll (D : Type 0) : Type 0 where
  pub manager : Manager D
  pub read_at : ℕ
  pub checked_at : ℕ

-- How a loop leaves, with the manager it met last: nothing to wait for, an entry, or no usable entry.
-- It is `waiting` if the turns that are given have not ended it.
pub data Left (D A : Type 0) : Type 0 where
  released empty : Manager D → Left D A
  served : Manager D → A → Left D A
  waiting : Left D A

abbrev pub is_waiting : {D A : Type 0} → Left D A → Bool
is_waiting Left.waiting = true
is_waiting _ = false

-- A turn that found no entry ends at the deadline.
abbrev pub at_deadline : {D A : Type 0} → ℕ → Poll D → Left D A → Left D A
at_deadline deadline p rest = if leb deadline p.checked_at then Left.empty p.manager else rest

module _ (ds : Doubles) (u : Utilities ds.Double) where
  open ds use {Double}

  -- A turn of the loop that found the entry, or none.
  abbrev pub ticker_turn :
      ℕ
      → Poll Double
      → Option (EventTicker Double)
      → Left Double (EventTicker Double)
      → Left Double (EventTicker Double)
  ticker_turn deadline p none rest = at_deadline deadline p rest
  ticker_turn deadline p (some t) rest =
      if not (is_stale ds u p.manager p.read_at t)
      then Left.served p.manager t
      else Left.empty p.manager

  -- The loop of `readEventTicker`.
  unfoldable pub poll_ticker : Text → ℕ → List (Poll Double) → Left Double (EventTicker Double)
  poll_ticker symbol deadline [] = Left.waiting
  poll_ticker symbol deadline (p ∷ ps) =
      let rest = poll_ticker symbol deadline ps in
      if p.manager.timeout == 0
      then Left.released p.manager
      else ticker_turn deadline p (lookup same_text symbol p.manager.tickers) rest

  -- What `readEventTicker` does behind its loop: without a usable entry it goes to the REST client.
  abbrev pub read_from :
      Snapshots Double → ℕ → Text → Left Double (EventTicker Double) → Option (Asked Double)
  read_from rest now symbol Left.waiting = none
  read_from rest now symbol (Left.released m) =
      some (record { manager = m; requests = 0; ticker = none })
  read_from rest now symbol (Left.served m t) =
      some (record { manager = m; requests = 0; ticker = some t })
  read_from rest now symbol (Left.empty m) = some (refresh_ticker_from_rest ds u rest now symbol m)

  -- `readEventTicker`, which starts at `start` with this timeout. Its result is `none` if the turns that
  -- are given do not end it.
  unfoldable pub read_event_ticker :
      Snapshots Double → ℕ → Text → ℕ → ℕ → List (Poll Double) → Option (Asked Double)
  unfolding poll_ticker
  read_event_ticker rest now pair timeout start polls =
      let symbol = u.to_upper pair in
      read_from rest now symbol (poll_ticker symbol (start + timeout * 1000) polls)

  -- The entry was in the cache at one of the turns, and not stale then.
  abbrev pub ServedFrom : Text → EventTicker Double → List (Poll Double) → Type 0
  ServedFrom symbol t [] = ⊥
  ServedFrom symbol t (p ∷ ps) =
      ((lookup same_text symbol p.manager.tickers ≡ some t)
        × (is_stale ds u p.manager p.read_at t ≡ false))
      ⊎ ServedFrom symbol t ps

  -- The REST client answered for the symbol with this snapshot before any other, and with prices.
  abbrev pub IsAnswer : Snapshots Double → Text → Ticker Double → Type 0
  IsAnswer rest symbol s =
      (get_tickers : Text → Result (List (Ticker Double))) × (more : List (Ticker Double)) × (rest
        ≡ some get_tickers)
      × (get_tickers symbol ≡ ok (s ∷ more))
      × (u.non_positive s.ask1_price ≡ false)
      × (u.non_positive s.bid1_price ≡ false)

  -- The ticker says what the snapshot says.
  abbrev pub SameQuote : EventTicker Double → Ticker Double → Type 0
  SameQuote t s =
      (t.ask1_price ≡ s.ask1_price)
      × (t.ask1_size ≡ s.ask1_size)
      × (t.bid1_price ≡ s.bid1_price)
      × (t.bid1_size ≡ s.bid1_size)
      × (t.last_price ≡ s.last_price)

  -- What may be returned: an entry of the cache that is not stale, or the REST client's answer, under the
  -- symbol and with the time of the answer.
  abbrev pub IsUsable :
      Snapshots Double → Text → ℕ → List (Poll Double) → Option (EventTicker Double) → Type 0
  IsUsable rest symbol now polls none = Unit
  IsUsable rest symbol now polls (some t) =
      ServedFrom symbol t polls
      ⊎ ((s : Ticker Double) × IsAnswer rest symbol s
          × SameQuote t s
          × (t.symbol ≡ symbol)
          × (t.received_timestamp ≡ now))

  abbrev pub LeftWith : Text → List (Poll Double) → Left Double (EventTicker Double) → Type 0
  LeftWith symbol polls (Left.served m t) = ServedFrom symbol t polls
  LeftWith symbol polls _ = Unit

  later :
      (symbol : Text) (p : Poll Double) (ps : List (Poll Double))
      (l : Left Double (EventTicker Double))
      → LeftWith symbol ps l
      → LeftWith symbol (p ∷ ps) l
  later symbol p ps (Left.served m t) h = inr h
  later symbol p ps (Left.released m) h = tt
  later symbol p ps (Left.empty m) h = tt
  later symbol p ps Left.waiting h = tt

  ticker_turn-LeftWith :
      (symbol : Text) (deadline : ℕ) (p : Poll Double) (ps : List (Poll Double))
      (o : Option (EventTicker Double)) (rest : Left Double (EventTicker Double))
      → lookup same_text symbol p.manager.tickers ≡ o
      → LeftWith symbol ps rest
      → LeftWith symbol (p ∷ ps) (ticker_turn deadline p o rest)
  ticker_turn-LeftWith symbol deadline p ps none rest e h =
      if-elim (LeftWith symbol (p ∷ ps)) (leb deadline p.checked_at) (Left.empty p.manager) rest tt
        (later symbol p ps rest h)
  ticker_turn-LeftWith symbol deadline p ps (some t) rest e h =
      elim (Bool-cases (is_stale ds u p.manager p.read_at t)) [
        | inl b ↦ rw b tt
        | inr b ↦ rw b (inl (e, b))
      ]

  pub poll_ticker-LeftWith :
      (symbol : Text) (deadline : ℕ) (polls : List (Poll Double))
      → LeftWith symbol polls (poll_ticker symbol deadline polls)
  unfolding poll_ticker
  poll_ticker-LeftWith symbol deadline [] = tt
  poll_ticker-LeftWith symbol deadline (p ∷ ps) =
      if-elim (LeftWith symbol (p ∷ ps)) (p.manager.timeout == 0) (Left.released p.manager) _ tt (
        ticker_turn-LeftWith symbol deadline p ps (lookup same_text symbol p.manager.tickers)
          (poll_ticker symbol deadline ps) refl (poll_ticker-LeftWith symbol deadline ps))
