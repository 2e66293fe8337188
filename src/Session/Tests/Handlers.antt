-- ===== src/Session/Tests/Handlers.antt =====
-- The theorems on topics, acks and the reconnect loop at concrete sessions.
use bybit_cpp_api.Base.{
  ◌+◌, min, ◌^◌, ◌*◌, ◌≡◌, refl, true, false, some, [], ◌∷◌, arith, contains, Distinct, List, not,
  ◌&&◌,
}
use bybit_cpp_api.Session.State.{Session, Op, Stage, Env, number}
use bybit_cpp_api.Session.Topics.{is_subscribed}
use bybit_cpp_api.Session.Connect.{push_fronts, tear_down, handle_error, start_connect, on_resolve}
use bybit_cpp_api.Session.Inbound.{find_op, erase_op, on_subscribe_ack}
use bybit_cpp_api.Session.Events.{Event, written, reconnect_fired, upgraded, step, exec}
use bybit_cpp_api.Session.Books.{books}
use bybit_cpp_api.Session.Books.Step.{books-step}
use bybit_cpp_api.Session.Running.{IsRunning, start_connect-IsRunning, exec-IsRunning}
use bybit_cpp_api.Session.Acks.{stale_rejection}
use bybit_cpp_api.Session.Loop.{Fault, IsWaiting, attempts, attempts_backoff}
use bybit_cpp_api.Session.Replay.{reconnected, replay}
use bybit_cpp_api.Session.Closed.{exec_closed}
use bybit_cpp_api.Session.Tests.{quiet, public_session, public_session-IsFresh, failing, lost, up}

books-step_example : books (step quiet up (written 1 true)) ≡ books up
books-step_example = books-step quiet up (written 1 true) refl

lost-IsRunning : IsRunning lost
lost-IsRunning =
    exec-IsRunning (start_connect public_session) failing
      (start_connect-IsRunning public_session public_session-IsFresh)

lost-IsWaiting : IsWaiting 2 lost
unfolding exec step start_connect on_resolve handle_error tear_down
lost-IsWaiting = record { not_closed = refl; scheduled = refl; armed = refl; next_delay = refl }

replay_example :
    let u = reconnected quiet "443" lost in
    (u.connected ≡ true)
    × (u.subscriptions ≡ "tickers.BTCUSDT" ∷ [])
    × (u.pending_topics ≡ [])
    × (u.wire
        ≡ (lost.generation + 1, Op.subscribe (lost.req_id_counter + 1) ("tickers.BTCUSDT" ∷ []))
          ∷ lost.wire)
unfolding exec step start_connect on_resolve handle_error tear_down push_fronts
replay_example =
    replay quiet "443" 2 "tickers.BTCUSDT" [] lost lost-IsRunning lost-IsWaiting refl refl refl

abbrev faults : List Fault
faults =
    Fault.no_address ∷ Fault.no_connection ∷ Fault.no_tls ∷ Fault.no_upgrade ∷ Fault.no_frame ∷ []

attempts_backoff_example : IsWaiting (min (2 ^ 5 * 2) 30) (attempts quiet "443" faults lost)
attempts_backoff_example = attempts_backoff quiet "443" faults 2 lost (omega arith) lost-IsWaiting

-- A session that its user closed while it came up.
abbrev shut : Session
shut = record public_session {
  user_closed = true;
  reconnect_timer = some (0, 1);
  stage = Stage.upgrading;
}

abbrev shut_history : List (Env × Event)
shut_history = (quiet, upgraded shut.generation false) ∷ (quiet, reconnect_fired) ∷ []

exec_closed_example :
    ((exec shut shut_history).user_closed ≡ true)
    × ((exec shut shut_history).generation ≡ shut.generation)
    × (((exec shut shut_history).connected && not shut.connected) ≡ false)
exec_closed_example = exec_closed shut shut_history refl

-- Two subscribe ops in flight, the newer for a topic of the older.
abbrev twice : Session
twice = record public_session {
  subscriptions = "tickers.BTCUSDT" ∷ "tickers.ETHUSDT" ∷ [];
  pending_topics = [];
  inflight_subscribes =
      (1, "tickers.ETHUSDT" ∷ "tickers.BTCUSDT" ∷ []) ∷ (2, "tickers.ETHUSDT" ∷ []) ∷ [];
}

twice-Distinct : Distinct (books twice)
unfolding contains
twice-Distinct = (refl, (refl, tt))

stale_rejection_example :
    is_subscribed
      (on_subscribe_ack (number 2) true (on_subscribe_ack (number 1) false twice))
      "tickers.ETHUSDT"
    ≡ false
unfolding find_op erase_op contains
stale_rejection_example =
    stale_rejection 1 2 ("tickers.ETHUSDT" ∷ "tickers.BTCUSDT" ∷ []) ("tickers.ETHUSDT" ∷ [])
      "tickers.ETHUSDT" twice twice-Distinct refl refl refl refl refl
