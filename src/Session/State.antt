-- ===== src/Session/State.antt =====
-- The state of a session (`WebSocketSession::P`), the frames that it sends and those that it reads.
-- Times are milliseconds. Numbers do not wrap: the counters are 64-bit or count reconnects.
use bybit_cpp_api.Base.{ℕ, ◌*◌, String, Bool, false, not, ◌&&◌, Option, none, List, [], ◌is◌}

abbrev pub ping_interval_in_s : ℕ
ping_interval_in_s = 20

abbrev pub pong_timeout_in_s : ℕ
pong_timeout_in_s = 3 * ping_interval_in_s

abbrev pub reconnect_delay_max_in_s : ℕ
reconnect_delay_max_in_s = 30

abbrev pub auth_expires_offset_in_ms : ℕ
auth_expires_offset_in_ms = 5000

abbrev pub auth_ack_timeout_in_s : ℕ
auth_ack_timeout_in_s = 15

-- A JSON payload of the outbound queue, before `dump`. An `auth` frame holds the key, the expiry
-- and the signature; a `subscribe` frame holds its `req_id`, whose decimal text is sent.
pub data Op : Type 0 where
  auth : String → ℕ → String → Op
  subscribe : ℕ → List String → Op
  unsubscribe : String → Op
  ping : Op

-- The one operation of the connect and read chain that Asio holds for the current stream.
pub data Stage : Type 0 where
  idle resolving connecting tls upgrading reading : Stage

-- How `closeByUser` left the stream: untouched, closed by `async_close`, or its socket closed.
pub data Shutdown : Type 0 where
  untouched closing dropped : Shutdown

-- A JSON object as the handlers read it. An absent `req_id` and an empty one are `blank`; a text
-- that is no decimal of the session's own is `foreign`.
pub data ReqId : Type 0 where
  blank : ReqId
  number : ℕ → ReqId
  foreign : ReqId

pub record Message : Type 0 where
  pub success : Option Bool
  pub op : Option String
  pub topic : Option String
  pub ret_msg : Option String
  pub req_id : ReqId
  pub is_event : Bool  -- `Event::fromJson` and the data callback do not throw

pub data Frame : Type 0 where
  malformed : Frame  -- `json::parse` throws
  non_object : Frame
  object : Message → Frame

pub record Session : Type 0 where
  pub host : String
  pub port : String
  pub path : String
  pub host_header : String
  pub api_key : String
  pub api_secret : String
  pub auth_required : Bool
  -- Hex of the HMAC-SHA256, under a secret, of "GET/realtime{expires}" (OpenSSL, utils).
  pub sign : String → ℕ → String
  pub has_data_cb : Bool
  pub outbound_queue : List Op
  pub write_in_flight : Bool
  pub subscriptions : List String
  pub pending_topics : List String
  pub inflight_subscribes : List (ℕ × List String)
  pub req_id_counter : ℕ
  pub reconnect_delay_s : ℕ
  pub generation : ℕ
  pub connected : Bool
  pub authenticated : Bool
  pub authenticated_flag : Bool
  pub reconnect_scheduled : Bool
  pub user_closed : Bool
  pub last_pong_time : ℕ
  pub auth_deadline : Option ℕ  -- `none` is `time_point::max()`
  pub has_ws : Bool  -- `ws` is not null
  -- What Asio and Beast hold for the session.
  pub stage : Stage
  pub writes_out : ℕ  -- writes of the current stream that are not completed
  pub ping_timer : Bool
  pub reconnect_timer : Option (ℕ × ℕ)  -- generation and delay in seconds of the wait that is out
  pub shutdown : Shutdown
  -- What left the session, newest first: frames given to `async_write` and events to the callback.
  pub wire : List (ℕ × Op)
  pub delivered : List Message

-- What a handler reads from outside: the steady clock, the wall clock and `ws->is_open()`.
pub record Env : Type 0 where
  pub now : ℕ
  pub wall : ℕ
  pub open_stream : Bool

-- The constructor of `P`, with the members' initialisers.
abbrev pub new : (String → ℕ → String) → Session
new sign = record {
  host = "";
  port = "";
  path = "/v5/public/linear";
  host_header = "";
  api_key = "";
  api_secret = "";
  auth_required = false;
  sign = sign;
  has_data_cb = false;
  outbound_queue = [];
  write_in_flight = false;
  subscriptions = [];
  pending_topics = [];
  inflight_subscribes = [];
  req_id_counter = 0;
  reconnect_delay_s = 1;
  generation = 0;
  connected = false;
  authenticated = false;
  authenticated_flag = false;
  reconnect_scheduled = false;
  user_closed = false;
  last_pong_time = 0;
  auth_deadline = none;
  has_ws = false;
  stage = Stage.idle;
  writes_out = 0;
  ping_timer = false;
  reconnect_timer = none;
  shutdown = Shutdown.untouched;
  wire = [];
  delivered = [];
}

-- `!text.empty()`.
abbrev pub non_empty : String → Bool
non_empty t = not (t is "")

-- `setCredentials`.
unfoldable pub set_credentials : String → String → Session → Session
set_credentials key secret s = record s {
  api_key = key;
  api_secret = secret;
  auth_required = non_empty key && non_empty secret;
}
