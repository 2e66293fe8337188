-- ===== src/Session/Connect.antt =====
-- Authentication, the reconnect on an error, and the connect chain of a session. The result of an
-- asynchronous operation is `failed`, which stands for its error code.
use bybit_cpp_api.Base.{
  ℕ, ◌+◌, ◌*◌, min, String, Bool, true, false, not, ◌&&◌, ◌||◌, none, some, List, [], ◌∷◌, reverse,
  ◌==◌, if◌then◌else◌,
}
use bybit_cpp_api.Session.State.{
  Session, Env, Op, Stage, Shutdown, auth_expires_offset_in_ms, auth_ack_timeout_in_s,
  reconnect_delay_max_in_s,
}
use bybit_cpp_api.Session.Topics.{enqueue_op, pump, flush_topics}
use Prim.Native.String.{◌++◌ as concat}

-- `sendAuth`.
unfoldable pub send_auth : Env → Session → Session
send_auth e s =
    let expires = e.wall + auth_expires_offset_in_ms in
    pump e (
      enqueue_op (Op.auth s.api_key expires (s.sign s.api_secret expires))
        (record s { auth_deadline = some (e.now + auth_ack_timeout_in_s * 1000) }))

-- The `push_front` loop of `handleError`.
unfoldable pub push_fronts : List String → List String → List String
push_fronts [] pending = pending
push_fronts (t ∷ ts) pending = push_fronts ts (t ∷ pending)

-- `handleError` behind its guards: tear down, move the topics back, arm the reconnect timer.
unfoldable pub tear_down : Session → Session
tear_down s = record s {
  reconnect_scheduled = true;
  connected = false;
  authenticated = false;
  authenticated_flag = false;
  write_in_flight = false;
  auth_deadline = none;
  ping_timer = false;
  outbound_queue = [];
  inflight_subscribes = [];
  pending_topics = push_fronts (reverse s.subscriptions) s.pending_topics;
  subscriptions = [];
  reconnect_timer = some (s.generation, s.reconnect_delay_s);
  reconnect_delay_s = min (s.reconnect_delay_s * 2) reconnect_delay_max_in_s;
}

unfoldable pub handle_error : ℕ → Session → Session
handle_error gen s =
    if not (gen == s.generation) || s.reconnect_scheduled
    then s
    else if s.user_closed
    then s
    else tear_down s

-- `startConnect`. The new stream has no write out, and `async_resolve` is started.
unfoldable pub start_connect : Session → Session
start_connect s = if s.user_closed then s else record s {
  generation = s.generation + 1;
  connected = false;
  authenticated = false;
  authenticated_flag = false;
  write_in_flight = false;
  auth_deadline = none;
  host_header = s.host;
  has_ws = true;
  stage = Stage.resolving;
  writes_out = 0;
}

-- `onResolve`.
unfoldable pub on_resolve : ℕ → Bool → Session → Session
on_resolve gen failed s =
    if failed then handle_error gen s else record s { stage = Stage.connecting }

-- `onConnect`, with the text of the endpoint's port, and whether `SSL_set_tlsext_host_name` fails.
unfoldable pub on_connect : ℕ → Bool → Bool → String → Session → Session
on_connect gen failed sni_failed ep_port s =
    if failed
    then handle_error gen s
    else if sni_failed
    then handle_error gen s
    else record s { host_header = concat s.host (concat ":" ep_port); stage = Stage.tls }

-- `onSSLHandshake`.
unfoldable pub on_ssl_handshake : ℕ → Bool → Session → Session
on_ssl_handshake gen failed s =
    if failed then handle_error gen s else record s { stage = Stage.upgrading }

-- `onHandshake`: from here the session counts as connected.
unfoldable pub on_handshake : Env → ℕ → Bool → Session → Session
on_handshake e gen failed s =
    if failed
    then handle_error gen s
    else if s.user_closed
    then s
    else let up = record s { connected = true; last_pong_time = e.now; ping_timer = true } in
      let sent = if s.auth_required then send_auth e up else flush_topics e up in
      record sent { stage = Stage.reading }

-- `closeByUser`. The cancelled reconnect wait completes with an error.
unfoldable pub close_by_user : Env → Session → Session
close_by_user e s =
    if s.user_closed
    then s
    else let closed = record s { user_closed = true; ping_timer = false } in
      if not s.has_ws
      then closed
      else if e.open_stream && not s.write_in_flight
      then record closed { shutdown = Shutdown.closing }
      else record closed { shutdown = Shutdown.dropped }
