-- ===== src/Session/Writer/Step.antt =====
-- Each event keeps the writes of a session single.
use bybit_cpp_api.Base.{ℕ, ◌-◌, String, Bool, true, false, Option, none, some, arith}
use bybit_cpp_api.Session.State.{Session, Env, Op, idle}
use bybit_cpp_api.Session.Topics.{add_topic, remove_topic}
use bybit_cpp_api.Session.Connect.{
  start_connect, on_resolve, on_connect, on_ssl_handshake, on_handshake, close_by_user,
}
use bybit_cpp_api.Session.Timers.{on_ping_timer, on_reconnect_timer, on_write}
use bybit_cpp_api.Session.Events.{
  control_received, on_control, Event, subscribe, flush_task, unsubscribe, unsubscribe_task,
  close_task, resolved, tcp_connected, tls_done, upgraded, frame_read, written, ping_fired,
  reconnect_fired, unsubscribe_posted, fire_reconnect, step,
}
use bybit_cpp_api.Session.Writer.{
  IsWriting, pump-IsWriting, flush_topics-IsWriting, enqueue-pump-IsWriting, send_auth-IsWriting,
  handle_error-IsWriting, on_read-IsWriting,
}

chain-IsWriting :
    (e : Env) (s : Session) (gen : ℕ) (failed sni_failed : Bool) (port : String)
    → IsWriting s
    → IsWriting (step e s (resolved gen failed))
      × IsWriting (step e s (tcp_connected gen failed sni_failed port))
      × IsWriting (step e s (tls_done gen failed))
unfolding step on_resolve on_connect on_ssl_handshake
chain-IsWriting e s gen failed sni_failed port v = (
  ground (arith, handle_error-IsWriting gen (record s { stage = idle })),
  ground (arith, handle_error-IsWriting gen (record s { stage = idle })),
  ground (arith, handle_error-IsWriting gen (record s { stage = idle })),
)

-- A handshake meets a stream that nothing was written to.
upgraded-IsWriting :
    (e : Env) (s : Session) (gen : ℕ) (failed : Bool)
    → IsWriting s
    → IsWriting (step e s (upgraded gen failed))
unfolding step on_handshake
upgraded-IsWriting e s gen failed v =
    let up : Session = record s {
      stage = idle;
      connected = true;
      last_pong_time = e.now;
      ping_timer = true;
    } in
    ground (
      arith,
      handle_error-IsWriting gen (record s { stage = idle }),
      send_auth-IsWriting e up,
      flush_topics-IsWriting e up,
    )

written-IsWriting :
    (e : Env) (s : Session) (gen : ℕ) (failed : Bool)
    → IsWriting s
    → IsWriting (step e s (written gen failed))
unfolding step on_write
written-IsWriting e s gen failed v =
    let t : Session = record s { writes_out = s.writes_out - 1; write_in_flight = false } in
    ground (arith, handle_error-IsWriting gen t, pump-IsWriting e t)

ping_fired-IsWriting :
    (e : Env) (s : Session) (gen : ℕ) (cancelled : Bool)
    → IsWriting s
    → IsWriting (step e s (ping_fired gen cancelled))
unfolding step on_ping_timer
ping_fired-IsWriting e s gen cancelled v =
    ground (arith, handle_error-IsWriting gen s, enqueue-pump-IsWriting e Op.ping s)

fire_reconnect-IsWriting :
    (timer : Option (ℕ × ℕ)) (s : Session) → IsWriting s → IsWriting (fire_reconnect timer s)
unfolding fire_reconnect on_reconnect_timer start_connect
fire_reconnect-IsWriting none s v = v
fire_reconnect-IsWriting (some (gen, delay)) s v = ground arith

books-IsWriting :
    (e : Env) (s : Session) (t : String)
    → IsWriting s
    → IsWriting (step e s (subscribe t))
      × IsWriting (step e s (unsubscribe t))
      × IsWriting (step e s (unsubscribe_task t))
      × IsWriting (step e s close_task)
unfolding step add_topic remove_topic unsubscribe_posted close_by_user
books-IsWriting e s t v = (
  ground arith,
  ground arith,
  ground (arith, enqueue-pump-IsWriting e (Op.unsubscribe t) s),
  ground arith,
)

pub step-IsWriting : (e : Env) (s : Session) (ev : Event) → IsWriting s → IsWriting (step e s ev)
unfolding on_control step
step-IsWriting e s (subscribe t) v = (books-IsWriting e s t v).0
step-IsWriting e s flush_task v = flush_topics-IsWriting e s v
step-IsWriting e s (unsubscribe t) v = (books-IsWriting e s t v).1
step-IsWriting e s (unsubscribe_task t) v = (books-IsWriting e s t v).2
step-IsWriting e s close_task v = (books-IsWriting e s "" v).3
step-IsWriting e s (resolved gen failed) v = (chain-IsWriting e s gen failed failed "" v).0
step-IsWriting e s (tcp_connected gen failed sni_failed port) v =
    (chain-IsWriting e s gen failed sni_failed port v).1
step-IsWriting e s (tls_done gen failed) v = (chain-IsWriting e s gen failed failed "" v).2
step-IsWriting e s (upgraded gen failed) v = upgraded-IsWriting e s gen failed v
step-IsWriting e s (frame_read gen failed frame) v =
    ground (arith, on_read-IsWriting e gen failed frame (record s { stage = idle }))
step-IsWriting e s (written gen failed) v = written-IsWriting e s gen failed v
step-IsWriting e s (ping_fired gen cancelled) v = ping_fired-IsWriting e s gen cancelled v
step-IsWriting e s reconnect_fired v = fire_reconnect-IsWriting s.reconnect_timer s v
step-IsWriting e s (control_received pong) v = ground arith
