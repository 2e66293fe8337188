-- ===== src/Tests/Streams.antt =====
-- The theorems on the private stream at concrete sessions.
use bybit_cpp_api.Base.{
  String, ◌≡◌, refl, true, false, not, ◌&&◌, none, some, List, [], ◌∷◌, contains,
}
use bybit_cpp_api.Session.State.{Session, Env, Message, ReqId, new, object, number}
use bybit_cpp_api.Session.Topics.{
  enqueue_op, write_front, pump, assign_op, awaits_ack, is_subscribed, is_subscription_confirmed,
  flush_pending, flush_topics,
}
use bybit_cpp_api.Session.Connect.{
  send_auth, start_connect, on_resolve, on_connect, on_ssl_handshake, on_handshake,
}
use bybit_cpp_api.Session.Inbound.{
  is_api_control_msg, find_op, answered_op, erase_op, settle_op, on_subscribe_ack, on_authenticated,
  handle_api_control_msg, dispatch, rearm_read, on_frame, on_read,
}
use bybit_cpp_api.Session.Timers.{on_write}
use bybit_cpp_api.Session.Events.{
  Event, resolved, tcp_connected, tls_done, upgraded, frame_read, written, step, exec,
}
use bybit_cpp_api.Session.Running.{IsFresh}
use bybit_cpp_api.Session.Promises.{after}
use bybit_cpp_api.Client.{
  Client, client_is_subscribed, client_is_authenticated, client_is_subscription_confirmed,
}
use bybit_cpp_api.Client.Private.{
  order_topic, execution_topic, ensure_subscribed, is_live, is_live-online,
}

abbrev quiet : Env
quiet = record { now = 0; wall = 0; open_stream = true }

abbrev keyed : Session
keyed = record (new (λ secret expires. secret)) {
  api_key = "key";
  api_secret = "secret";
  auth_required = true;
  pending_topics = order_topic ∷ execution_topic ∷ [];
}

keyed-IsFresh : IsFresh keyed
unfolding contains
keyed-IsFresh = record {
  not_closed = refl;
  not_scheduled = refl;
  no_timer = refl;
  first_delay = refl;
  nothing_queued = refl;
  nothing_sent = refl;
  no_topics_sent = refl;
  no_ops = refl;
  no_repetition = (refl, (refl, tt));
}

abbrev ack : String → ReqId → Message
ack op id = record {
  success = some true;
  op = some op;
  topic = none;
  ret_msg = none;
  req_id = id;
  is_event = false;
}

-- The connection comes up, the venue accepts the key, and then both topics.
abbrev accepted : List (Env × Event)
accepted =
    (quiet, resolved 1 false)
    ∷ (quiet, tcp_connected 1 false false "443")
    ∷ (quiet, tls_done 1 false)
    ∷ (quiet, upgraded 1 false)
    ∷ (quiet, written 1 false)
    ∷ (quiet, frame_read 1 false (object (ack "auth" ReqId.blank)))
    ∷ (quiet, frame_read 1 false (object (ack "subscribe" (number 1))))
    ∷ []

abbrev live : Session
live = after keyed accepted

abbrev client_of : Session → Client
client_of s = record {
  host = "stream.bybit.com";
  port = "443";
  path = "/v5/private";
  api_key = "key";
  api_secret = "secret";
  sign = λ secret expires. secret;
  has_data_cb = true;
  session = some s;
  posted = [];
}

is_live-online_example :
    (live.connected ≡ true)
    × ((live.auth_required && not live.authenticated) ≡ false)
    × (is_subscription_confirmed live order_topic ≡ true)
    × (is_subscription_confirmed live execution_topic ≡ true)
unfolding exec step start_connect on_resolve on_connect on_ssl_handshake on_handshake send_auth
    enqueue_op write_front pump on_write flush_topics flush_pending assign_op on_read on_frame
    dispatch is_api_control_msg handle_api_control_msg on_authenticated on_subscribe_ack settle_op
    find_op answered_op erase_op rearm_read is_subscription_confirmed awaits_ack contains is_live
    ensure_subscribed client_is_subscribed client_is_authenticated client_is_subscription_confirmed
    is_subscribed
is_live-online_example = is_live-online (client_of live) keyed accepted keyed-IsFresh refl refl
