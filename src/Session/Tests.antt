-- ===== src/Session/Tests.antt =====
-- Sessions and histories for the theorems at concrete inputs.
mod Promises
mod Handlers
use bybit_cpp_api.Base.{
  ℕ, ◌+◌, ◌≤◌, min, ◌^◌, ◌*◌, String, ◌≡◌, refl, ◌⊎◌, true, false, not, ◌&&◌, ◌||◌, some, none,
  List, [], ◌∷◌, ◌++◌, arith, contains, Distinct, ◌is◌, if◌then◌else◌,
}
use bybit_cpp_api.Session.State.{Session, Env, Op, new, reading, number, object}
use bybit_cpp_api.Session.Topics.{
  enqueue_op, write_front, pump, assign_op, add_topic, remove_topic, is_subscribed, awaits_ack,
  is_subscription_confirmed, flush_pending, flush_topics,
}
use bybit_cpp_api.Session.Connect.{
  send_auth, push_fronts, tear_down, handle_error, start_connect, on_resolve, on_connect,
  on_ssl_handshake, on_handshake,
}
use bybit_cpp_api.Session.Inbound.{
  is_api_control_msg, find_op, answered_op, erase_op, on_subscribe_ack, handle_api_control_msg,
  dispatch, rearm_read, on_frame, on_read, settle_op,
}
use bybit_cpp_api.Session.Events.{
  Event, resolved, tcp_connected, tls_done, upgraded, frame_read, written, reconnect_fired, step,
  exec,
}
use bybit_cpp_api.Session.Alive.{is_chain, ArmedFor}
use bybit_cpp_api.Session.Gate.{none_queued, none_sent}
use bybit_cpp_api.Session.Books.{books}
use bybit_cpp_api.Session.Books.Step.{books-step}
use bybit_cpp_api.Session.Books.Calls.{books-add_topic, remove_topic_lem}
use bybit_cpp_api.Session.Running.{IsRunning, IsFresh, start_connect-IsRunning, exec-IsRunning}
use bybit_cpp_api.Session.Promises.{after, never_stuck, auth_gate, confirmed_online, single_writer}
use bybit_cpp_api.Session.Acks.{rejected_ack, stale_rejection}
use bybit_cpp_api.Session.Loop.{
  IsWaiting, step_stale, handle_error_idem, attempts, attempts_backoff,
}
use bybit_cpp_api.Session.Replay.{reconnected, replay}
use bybit_cpp_api.Session.Closed.{exec_closed}

abbrev pub quiet : Env
quiet = record { now = 0; wall = 0; open_stream = true }

abbrev pub sign_with : String → ℕ → String
sign_with secret expires = secret

-- A session of a public stream, and one of a private stream, before their first connect.
abbrev pub public_session : Session
public_session = record (new sign_with) { pending_topics = "tickers.BTCUSDT" ∷ [] }

abbrev pub private_session : Session
private_session = record (new sign_with) {
  api_key = "key";
  api_secret = "secret";
  auth_required = true;
  pending_topics = "order" ∷ "execution" ∷ [];
}

pub public_session-IsFresh : IsFresh public_session
unfolding contains
public_session-IsFresh = record {
  not_closed = refl;
  not_scheduled = refl;
  no_timer = refl;
  first_delay = refl;
  nothing_queued = refl;
  nothing_sent = refl;
  no_topics_sent = refl;
  no_ops = refl;
  no_repetition = (refl, tt);
}

pub private_session-IsFresh : IsFresh private_session
unfolding contains
private_session-IsFresh = record {
  not_closed = refl;
  not_scheduled = refl;
  no_timer = refl;
  first_delay = refl;
  nothing_queued = refl;
  nothing_sent = refl;
  no_topics_sent = refl;
  no_ops = refl;
  no_repetition = (refl, (refl, tt));
}

-- A name resolution that fails, and a connect chain that succeeds.
abbrev pub failing : List (Env × Event)
failing = (quiet, resolved 1 true) ∷ []

abbrev pub upgrading_up : List (Env × Event)
upgrading_up =
    (quiet, resolved 1 false)
    ∷ (quiet, tcp_connected 1 false false "443")
    ∷ (quiet, tls_done 1 false)
    ∷ (quiet, upgraded 1 false)
    ∷ []

abbrev pub lost : Session
lost = after public_session failing

abbrev pub up : Session
up = after private_session upgrading_up
