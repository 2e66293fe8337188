-- ===== src/Client/Public/Subscribing.antt =====
-- A pair is seeded from the REST client by its first subscription alone.
use Prim.Native.String
use bybit_cpp_api.Base.{
  ℕ, ◌≡◌, refl, String, true, Bool-cases, inl, inr, none, some, List, [], ◌∷◌, ◌||◌, if-elim,
}
use bybit_cpp_api.Text.{Text, codes}
use bybit_cpp_api.Errors.{Result, ok, err}
use bybit_cpp_api.Models.Tickers.{Ticker}
use bybit_cpp_api.Models.Orders.{Doubles}
use bybit_cpp_api.Session.State.{Session}
use bybit_cpp_api.Client.{Client, client_is_subscribed, subscribe, subscribe_with}
use bybit_cpp_api.Client.Private.{add_topic-subscribed}
use bybit_cpp_api.Client.Public.{
  Utilities, Manager, Asked, Snapshots, refreshed, refresh_ticker_from_rest,
  subscribe_ticker_stream,
}

subscribe-subscribed :
    (topic : String) (c : Client) (s : Session)
    → c.session ≡ some s
    → client_is_subscribed (subscribe topic c).0 topic ≡ true
unfolding client_is_subscribed subscribe subscribe_with
subscribe-subscribed topic c s h = rw h (add_topic-subscribed topic s)

module _ (ds : Doubles) (u : Utilities ds.Double) where
  open ds use {Double}

  refreshed-client :
      (m : Manager Double) (symbol : Text) (now : ℕ) (answer : Result (List (Ticker Double)))
      → (refreshed ds u m symbol now answer).manager.client ≡ m.client
  unfolding refreshed
  refreshed-client m symbol now (err x) = refl
  refreshed-client m symbol now (ok []) = refl
  refreshed-client m symbol now (ok (s ∷ ss)) =
      if-elim (λ (a : Asked Double). a.manager.client ≡ m.client)
        (u.non_positive s.ask1_price || u.non_positive s.bid1_price)
        (record { manager = m; requests = 1; ticker = none }) _ refl refl

  refresh-client :
      (rest : Snapshots Double) (now : ℕ) (symbol : Text) (m : Manager Double)
      → (refresh_ticker_from_rest ds u rest now symbol m).manager.client ≡ m.client
  unfolding refresh_ticker_from_rest
  refresh-client none now symbol m = refl
  refresh-client (some get_tickers) now symbol m =
      refreshed-client m symbol now (get_tickers symbol)

  asked_once :
      (rest : Snapshots Double) (now : ℕ) (pair : String) (m : Manager Double)
      → client_is_subscribed m.client (String.◌++◌ "tickers." pair) ≡ true
      → subscribe_ticker_stream ds u rest now pair m
        ≡ record { manager = m; requests = 0; ticker = none }
  unfolding subscribe_ticker_stream
  asked_once rest now pair m h = rw h refl

  subscribed_after :
      (rest : Snapshots Double) (now : ℕ) (pair : String) (m : Manager Double) (s : Session)
      → m.client.session ≡ some s
      → client_is_subscribed
          (subscribe_ticker_stream ds u rest now pair m).manager.client
          (String.◌++◌ "tickers." pair)
        ≡ true
  unfolding subscribe_ticker_stream
  subscribed_after rest now pair m s h =
      let topic = String.◌++◌ "tickers." pair in
      let c = subscribe topic m.client in
      let m' = record m { client = c.0 } in
      let seed = refresh_ticker_from_rest ds u rest now (u.to_upper (codes pair)) m' in
      elim (Bool-cases (client_is_subscribed m.client topic)) [
        | inl b ↦ rw b b
        | inr b ↦ rw b (
            if-elim (λ (a : Asked Double). client_is_subscribed a.manager.client topic ≡ true) c.1
              seed (record { manager = m'; requests = 0; ticker = none })
              (rw (refresh-client rest now (u.to_upper (codes pair)) m')
                (subscribe-subscribed topic m.client s h))
              (subscribe-subscribed topic m.client s h))
      ]

  -- On a client with a session, a second subscription of a pair asks the REST client nothing, returns
  -- nothing and changes nothing.
  pub subscribe_ticker_stream_twice :
      (rest : Snapshots Double) (now later : ℕ) (pair : String) (m : Manager Double) (s : Session)
      → m.client.session ≡ some s
      → let once = (subscribe_ticker_stream ds u rest now pair m).manager in
        subscribe_ticker_stream ds u rest later pair once
        ≡ record { manager = once; requests = 0; ticker = none }
  subscribe_ticker_stream_twice rest now later pair m s h =
      asked_once rest later pair (subscribe_ticker_stream ds u rest now pair m).manager
        (subscribed_after rest now pair m s h)
