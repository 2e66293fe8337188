-- ===== src/Session/Sent/Step.antt =====
-- Each event keeps the sent topics of a session online.
use bybit_cpp_api.Base.{
  ℕ, ◌-◌, String, ◌≡◌, refl, Bool, true, false, Option, none, some, arith, erase_first,
}
use bybit_cpp_api.Session.State.{Session, Env, Op, idle}
use bybit_cpp_api.Session.Topics.{add_topic, remove_topic}
use bybit_cpp_api.Session.Connect.{
  start_connect, on_resolve, on_connect, on_ssl_handshake, on_handshake, close_by_user,
}
use bybit_cpp_api.Session.Timers.{on_ping_timer, on_reconnect_timer, on_write}
use bybit_cpp_api.Session.Events.{
  control_received, on_control, Event, subscribe, flush_task, unsubscribe, unsubscribe_task,
  close_task, resolved, tcp_connected, tls_done, upgraded, frame_read, written, ping_fired,
  reconnect_fired, unsubscribe_posted, fire_reconnect, step,
}
use bybit_cpp_api.Session.Link.{link}
use bybit_cpp_api.Session.Alive.{IsAlive}
use bybit_cpp_api.Session.Sent.Handlers.{
  IsSentOnline, pump-IsSentOnline, enqueue-pump-IsSentOnline, flush_topics-IsSentOnline,
  send_auth-IsSentOnline, handle_error-IsSentOnline, on_read-IsSentOnline,
}

chain-IsSentOnline :
    (e : Env) (s : Session) (gen : ℕ) (failed sni_failed : Bool) (port : String)
    → IsSentOnline s
    → IsSentOnline (step e s (resolved gen failed))
      × IsSentOnline (step e s (tcp_connected gen failed sni_failed port))
      × IsSentOnline (step e s (tls_done gen failed))
unfolding step on_resolve on_connect on_ssl_handshake
chain-IsSentOnline e s gen failed sni_failed port v =
    let t : Session = record s { stage = idle } in
    (
      ground (arith, handle_error-IsSentOnline gen t),
      ground (arith, handle_error-IsSentOnline gen t),
      ground (arith, handle_error-IsSentOnline gen t),
    )

upgraded-IsSentOnline :
    (e : Env) (s : Session) (gen : ℕ) (failed : Bool)
    → IsSentOnline s
    → IsSentOnline (step e s (upgraded gen failed))
unfolding step on_handshake
upgraded-IsSentOnline e s gen failed v =
    let up : Session = record s {
      stage = idle;
      connected = true;
      last_pong_time = e.now;
      ping_timer = true;
    } in
    ground (
      arith,
      handle_error-IsSentOnline gen (record s { stage = idle }),
      send_auth-IsSentOnline e up,
      flush_topics-IsSentOnline e up,
    )

written-IsSentOnline :
    (e : Env) (s : Session) (gen : ℕ) (failed : Bool)
    → IsSentOnline s
    → IsSentOnline (step e s (written gen failed))
unfolding step on_write
written-IsSentOnline e s gen failed v =
    let t : Session = record s { writes_out = s.writes_out - 1; write_in_flight = false } in
    ground (arith, handle_error-IsSentOnline gen t, pump-IsSentOnline e t)

ping_fired-IsSentOnline :
    (e : Env) (s : Session) (gen : ℕ) (cancelled : Bool)
    → IsSentOnline s
    → IsSentOnline (step e s (ping_fired gen cancelled))
unfolding step on_ping_timer
ping_fired-IsSentOnline e s gen cancelled v =
    ground (arith, handle_error-IsSentOnline gen s, enqueue-pump-IsSentOnline e Op.ping s)

-- The next connect happens offline.
fire_reconnect-IsSentOnline :
    (timer : Option (ℕ × ℕ)) (s : Session)
    → IsAlive (link s)
    → s.reconnect_timer ≡ timer
    → IsSentOnline s
    → IsSentOnline (fire_reconnect timer s)
unfolding fire_reconnect on_reconnect_timer start_connect
fire_reconnect-IsSentOnline none s a h v = v
fire_reconnect-IsSentOnline (some (gen, delay)) s a h v = ground arith

books-IsSentOnline :
    (e : Env) (s : Session) (t : String)
    → IsSentOnline s
    → IsSentOnline (step e s (subscribe t))
      × IsSentOnline (step e s (unsubscribe t))
      × IsSentOnline (step e s (unsubscribe_task t))
      × IsSentOnline (step e s close_task)
unfolding step add_topic remove_topic unsubscribe_posted close_by_user erase_first
books-IsSentOnline e s t v = (
  ground arith,
  ground arith,
  ground (arith, enqueue-pump-IsSentOnline e (Op.unsubscribe t) s),
  ground arith,
)

pub step-IsSentOnline :
    (e : Env) (s : Session) (ev : Event)
    → IsAlive (link s)
    → IsSentOnline s
    → IsSentOnline (step e s ev)
unfolding on_control step
step-IsSentOnline e s (subscribe t) a v = (books-IsSentOnline e s t v).0
step-IsSentOnline e s flush_task a v = flush_topics-IsSentOnline e s v
step-IsSentOnline e s (unsubscribe t) a v = (books-IsSentOnline e s t v).1
step-IsSentOnline e s (unsubscribe_task t) a v = (books-IsSentOnline e s t v).2
step-IsSentOnline e s close_task a v = (books-IsSentOnline e s "" v).3
step-IsSentOnline e s (resolved gen failed) a v = (chain-IsSentOnline e s gen failed failed "" v).0
step-IsSentOnline e s (tcp_connected gen failed sni_failed port) a v =
    (chain-IsSentOnline e s gen failed sni_failed port v).1
step-IsSentOnline e s (tls_done gen failed) a v = (chain-IsSentOnline e s gen failed failed "" v).2
step-IsSentOnline e s (upgraded gen failed) a v = upgraded-IsSentOnline e s gen failed v
step-IsSentOnline e s (frame_read gen failed frame) a v =
    ground (arith, on_read-IsSentOnline e gen failed frame (record s { stage = idle }))
step-IsSentOnline e s (written gen failed) a v = written-IsSentOnline e s gen failed v
step-IsSentOnline e s (ping_fired gen cancelled) a v = ping_fired-IsSentOnline e s gen cancelled v
step-IsSentOnline e s reconnect_fired a v = fire_reconnect-IsSentOnline s.reconnect_timer s a refl v
step-IsSentOnline e s (control_received pong) a v = ground arith
