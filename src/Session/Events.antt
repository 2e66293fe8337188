-- ===== src/Session/Events.antt =====
-- The events of a session: calls of its user, tasks posted to the strand, and completions of the
-- operations that Asio holds. A completion of an operation that is not out changes nothing, since
-- Asio completes each operation once. A posted task may run at any later point.
use bybit_cpp_api.Base.{
  ℕ, ◌-◌, String, Bool, ◌&&◌, Option, none, some, List, [], ◌∷◌, ◌==◌, ltb, if◌then◌else◌, ◌is◌,
}
use bybit_cpp_api.Session.State.{
  Session, Env, Op, Stage, Frame, idle, resolving, connecting, tls, upgrading, reading,
}
use bybit_cpp_api.Session.Topics.{enqueue_op, pump, add_topic, remove_topic, flush_topics}
use bybit_cpp_api.Session.Connect.{
  on_resolve, on_connect, on_ssl_handshake, on_handshake, close_by_user,
}
use bybit_cpp_api.Session.Inbound.{on_read}
use bybit_cpp_api.Session.Timers.{on_ping_timer, on_reconnect_timer, on_write}

pub data Event : Type 0 where
  subscribe : String → Event
  flush_task : Event
  unsubscribe : String → Event
  unsubscribe_task : String → Event
  close_task : Event
  resolved : ℕ → Bool → Event
  tcp_connected : ℕ → Bool → Bool → String → Event
  tls_done : ℕ → Bool → Event
  upgraded : ℕ → Bool → Event
  frame_read : ℕ → Bool → Frame → Event
  written : ℕ → Bool → Event
  ping_fired : ℕ → Bool → Event
  reconnect_fired : Event
  control_received : Bool → Event  -- a control frame, and whether it is a pong

abbrev pub stage_code : Stage → ℕ
stage_code idle = 0
stage_code resolving = 1
stage_code connecting = 2
stage_code tls = 3
stage_code upgrading = 4
stage_code reading = 5

-- The completion of a chain operation: of the current generation, and at the stage that is out.
abbrev pub completes : ℕ → Stage → Session → Bool
completes gen stage s = gen == s.generation && stage_code stage == stage_code s.stage

-- The task that `unsubscribe` posts for a topic whose subscribe was sent.
unfoldable pub unsubscribe_posted : Env → String → Session → Session
unsubscribe_posted e t s = if s.connected then pump e (enqueue_op (Op.unsubscribe t) s) else s

-- The wait that is out completes, with an error if `closeByUser` cancelled it.
unfoldable pub fire_reconnect : Option (ℕ × ℕ) → Session → Session
fire_reconnect none s = s
fire_reconnect (some (gen, delay)) s =
    on_reconnect_timer gen s.user_closed (record s { reconnect_timer = none })

-- The control callback, which a read of the current stream calls.
unfoldable pub on_control : Env → Bool → Session → Session
on_control e pong s =
    if pong && stage_code s.stage == stage_code reading
    then record s { last_pong_time = e.now }
    else s

unfoldable pub step : Env → Session → Event → Session
step e s (subscribe t) = add_topic t s
step e s flush_task = flush_topics e s
step e s (unsubscribe t) = (remove_topic t s).0
step e s (unsubscribe_task t) = unsubscribe_posted e t s
step e s close_task = close_by_user e s
step e s (resolved gen failed) =
    if completes gen resolving s then on_resolve gen failed (record s { stage = idle }) else s
step e s (tcp_connected gen failed sni_failed ep_port) =
    if completes gen connecting s
    then on_connect gen failed sni_failed ep_port (record s { stage = idle })
    else s
step e s (tls_done gen failed) =
    if completes gen tls s then on_ssl_handshake gen failed (record s { stage = idle }) else s
step e s (upgraded gen failed) =
    if completes gen upgrading s then on_handshake e gen failed (record s { stage = idle }) else s
step e s (frame_read gen failed frame) =
    if completes gen reading s then on_read e gen failed frame (record s { stage = idle }) else s
step e s (written gen failed) =
    if gen == s.generation && ltb 0 s.writes_out
    then on_write e gen failed (record s { writes_out = s.writes_out - 1 })
    else s
step e s (ping_fired gen cancelled) = on_ping_timer e gen cancelled s
step e s reconnect_fired = fire_reconnect s.reconnect_timer s
step e s (control_received pong) = on_control e pong s

-- A history: each event with what its handler reads from outside.
unfoldable pub exec : Session → List (Env × Event) → Session
exec s [] = s
exec s ((e, ev) ∷ evs) = exec (step e s ev) evs

-- `run`, which throws on an empty filter, and the first task on the strand.
unfoldable pub run : String → String → String → String → Bool → Session → Option Session
run host port path filter has_cb s =
    if filter is ""
    then none
    else some (
        add_topic filter (record s { host = host; port = port; path = path; has_data_cb = has_cb }))
