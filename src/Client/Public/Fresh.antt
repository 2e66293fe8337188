-- ===== src/Client/Public/Fresh.antt =====
-- What `readEventTicker` returns, and that it returns.
use bybit_cpp_api.Base.{
  ℕ, ◌+◌, ◌*◌, ◌≤◌, ◌<◌, ◌≡◌, refl, inl, inr, if-elim, Bool-cases, true, false, not, Option, none,
  some, is_some, List, [], ◌∷◌, ◌==◌, lookup, length, arith,
}
use bybit_cpp_api.Text.{Text, same_text}
use bybit_cpp_api.Errors.{Result, ok, err}
use bybit_cpp_api.Models.Orders.{Doubles}
use bybit_cpp_api.Models.Tickers.{Ticker}
use bybit_cpp_api.Models.Streams.{EventTicker}
use bybit_cpp_api.Client.Public.{
  Utilities, Manager, Asked, Snapshots, is_stale, refresh_ticker_from_rest, refreshed,
}
use bybit_cpp_api.Client.Public.Reading.{
  Poll, Left, ticker_turn, poll_ticker, at_deadline, is_waiting, read_from, read_event_ticker,
  IsUsable, LeftWith, poll_ticker-LeftWith,
}

-- Two turns are at least the poll interval of 3 ms apart, and none is before `at`.
abbrev pub Ticks : {D : Type 0} → ℕ → List (Poll D) → Type 0
Ticks at [] = Unit
Ticks at (p ∷ ps) = (at ≤ p.checked_at) × Ticks (p.checked_at + 3) ps

module _ (ds : Doubles) (u : Utilities ds.Double) where
  open ds use {Double}

  refreshed-IsUsable :
      (get_tickers : Text → Result (List (Ticker Double))) (symbol : Text) (now : ℕ)
      (polls : List (Poll Double)) (m : Manager Double) (answer : Result (List (Ticker Double)))
      → get_tickers symbol ≡ answer
      → IsUsable ds u
          (some get_tickers)
          symbol
          now
          polls
          (refreshed ds u m symbol now answer).ticker
  unfolding refreshed
  refreshed-IsUsable get_tickers symbol now polls m (err x) e = tt
  refreshed-IsUsable get_tickers symbol now polls m (ok []) e = tt
  refreshed-IsUsable get_tickers symbol now polls m (ok (s ∷ ss)) e =
      elim (Bool-cases (u.non_positive s.ask1_price)) [
        | inl a ↦ rw a tt
        | inr a ↦ elim (Bool-cases (u.non_positive s.bid1_price)) [
          | inl b ↦ rw (a, b) tt
          | inr b ↦
              rw (a, b)
                (inr
                  (s, (get_tickers, ss, refl, e, a, b), (refl, refl, refl, refl, refl), refl, refl))
        ]
      ]

  refresh-IsUsable :
      (rest : Snapshots Double) (symbol : Text) (now : ℕ) (polls : List (Poll Double))
      (m : Manager Double)
      → IsUsable ds u rest symbol now polls (refresh_ticker_from_rest ds u rest now symbol m).ticker
  unfolding refresh_ticker_from_rest
  refresh-IsUsable none symbol now polls m = tt
  refresh-IsUsable (some get_tickers) symbol now polls m =
      refreshed-IsUsable get_tickers symbol now polls m (get_tickers symbol) refl

  -- What a call returned.
  abbrev Returned :
      Snapshots Double → Text → ℕ → List (Poll Double) → Option (Asked Double) → Type 0
  Returned rest symbol now polls none = Unit
  Returned rest symbol now polls (some a) = IsUsable ds u rest symbol now polls a.ticker

  read_from-Returned :
      (rest : Snapshots Double) (now : ℕ) (symbol : Text) (polls : List (Poll Double))
      (l : Left Double (EventTicker Double))
      → LeftWith ds u symbol polls l
      → Returned rest symbol now polls (read_from ds u rest now symbol l)
  read_from-Returned rest now symbol polls Left.waiting h = tt
  read_from-Returned rest now symbol polls (Left.released m) h = tt
  read_from-Returned rest now symbol polls (Left.served m t) h = inl h
  read_from-Returned rest now symbol polls (Left.empty m) h =
      refresh-IsUsable rest symbol now polls m

  read_event_ticker-Returned :
      (rest : Snapshots Double) (now : ℕ) (pair : Text) (timeout start : ℕ)
      (polls : List (Poll Double))
      → Returned rest
          (u.to_upper pair)
          now
          polls
          (read_event_ticker ds u rest now pair timeout start polls)
  unfolding read_event_ticker
  read_event_ticker-Returned rest now pair timeout start polls =
      read_from-Returned rest now (u.to_upper pair) polls
        (poll_ticker ds u (u.to_upper pair) (start + timeout * 1000) polls)
        (poll_ticker-LeftWith ds u (u.to_upper pair) (start + timeout * 1000) polls)

  at_deadline-ends :
      {A : Type 0} (deadline : ℕ) (p : Poll Double) (rest : Left Double A)
      → (p.checked_at < deadline → is_waiting rest ≡ false)
      → is_waiting (at_deadline deadline p rest) ≡ false
  at_deadline-ends deadline p rest h = ground (arith, h)

  ticker_turn-ends :
      (deadline : ℕ) (p : Poll Double) (o : Option (EventTicker Double))
      (rest : Left Double (EventTicker Double))
      → (p.checked_at < deadline → is_waiting rest ≡ false)
      → is_waiting (ticker_turn ds u deadline p o rest) ≡ false
  ticker_turn-ends deadline p none rest h = at_deadline-ends deadline p rest h
  ticker_turn-ends deadline p (some t) rest h =
      if-elim (λ (l : Left Double (EventTicker Double)). is_waiting l ≡ false)
        (not (is_stale ds u p.manager p.read_at t)) (Left.served p.manager t) (Left.empty p.manager)
        refl refl

  poll_ticker-ends :
      (symbol : Text) (deadline at : ℕ) (polls : List (Poll Double))
      → Ticks at polls
      → at < deadline + 3
      → deadline + 3 ≤ at + 3 * length polls
      → is_waiting (poll_ticker ds u symbol deadline polls) ≡ false
  unfolding poll_ticker
  poll_ticker-ends symbol deadline at [] t h k = absurd (omega arith)
  poll_ticker-ends symbol deadline at (p ∷ ps) t h k =
      if-elim (λ (l : Left Double (EventTicker Double)). is_waiting l ≡ false)
        (p.manager.timeout == 0) (Left.released p.manager)
        (ticker_turn ds u deadline p (lookup same_text symbol p.manager.tickers)
          (poll_ticker ds u symbol deadline ps))
        refl
        (ticker_turn-ends deadline p (lookup same_text symbol p.manager.tickers)
          (poll_ticker ds u symbol deadline ps)
          (λ e.
            poll_ticker-ends symbol deadline (p.checked_at + 3) ps t.1 (omega arith) (omega arith)))

  read_from-ends :
      (rest : Snapshots Double) (now : ℕ) (symbol : Text) (l : Left Double (EventTicker Double))
      → is_waiting l ≡ false
      → is_some (read_from ds u rest now symbol l) ≡ true
  read_from-ends rest now symbol Left.waiting h = absurd (ground arith)
  read_from-ends rest now symbol (Left.released m) h = refl
  read_from-ends rest now symbol (Left.served m t) h = refl
  read_from-ends rest now symbol (Left.empty m) h = refl

  read_event_ticker_ends :
      (rest : Snapshots Double) (now : ℕ) (pair : Text) (timeout start : ℕ)
      (polls : List (Poll Double))
      → Ticks start polls
      → timeout * 1000 + 3 ≤ 3 * length polls
      → is_some (read_event_ticker ds u rest now pair timeout start polls) ≡ true
  unfolding read_event_ticker
  read_event_ticker_ends rest now pair timeout start polls t h =
      read_from-ends rest now (u.to_upper pair)
        (poll_ticker ds u (u.to_upper pair) (start + timeout * 1000) polls)
        (poll_ticker-ends (u.to_upper pair) (start + timeout * 1000) start polls t (omega arith)
          (omega arith))

  returned :
      (rest : Snapshots Double) (symbol : Text) (now : ℕ) (polls : List (Poll Double))
      (o : Option (Asked Double))
      → is_some o ≡ true
      → Returned rest symbol now polls o
      → (a : Asked Double) × (o ≡ some a) × IsUsable ds u rest symbol now polls a.ticker
  returned rest symbol now polls none h r = absurd (ground arith)
  returned rest symbol now polls (some a) h r = (a, refl, r)

  -- Of turns that are 3 ms apart, `readEventTicker` needs no more than a third of its timeout in
  -- milliseconds, and one, to leave its loop, whatever the time of the REST call that may follow. A ticker
  -- that it returns was in the cache and not stale at a turn, or has the quote, neither price at or below 0, of
  -- the first snapshot that the REST client answered for the symbol, under the symbol and with the time of
  -- the answer.
  pub read_event_ticker_lem :
      (rest : Snapshots Double) (now : ℕ) (pair : Text) (timeout start : ℕ)
      (polls : List (Poll Double))
      → Ticks start polls
      → timeout * 1000 + 3 ≤ 3 * length polls
      → (a : Asked Double) × (read_event_ticker ds u rest now pair timeout start polls ≡ some a)
        × IsUsable ds u rest (u.to_upper pair) now polls a.ticker
  read_event_ticker_lem rest now pair timeout start polls t h =
      returned rest (u.to_upper pair) now polls
        (read_event_ticker ds u rest now pair timeout start polls)
        (read_event_ticker_ends rest now pair timeout start polls t h)
        (read_event_ticker-Returned rest now pair timeout start polls)
