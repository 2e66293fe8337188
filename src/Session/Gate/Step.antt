-- ===== src/Session/Gate/Step.antt =====
-- Each event keeps the authentication gate of a session shut.
use bybit_cpp_api.Base.{ℕ, ◌-◌, String, ◌≡◌, refl, Bool, true, false, Option, none, some, arith}
use bybit_cpp_api.Session.State.{Session, Env, Op, idle}
use bybit_cpp_api.Session.Topics.{add_topic, remove_topic}
use bybit_cpp_api.Session.Connect.{
  start_connect, on_resolve, on_connect, on_ssl_handshake, on_handshake, close_by_user,
}
use bybit_cpp_api.Session.Timers.{on_ping_timer, on_reconnect_timer, on_write}
use bybit_cpp_api.Session.Events.{
  control_received, on_control, Event, subscribe, flush_task, unsubscribe, unsubscribe_task,
  close_task, resolved, tcp_connected, tls_done, upgraded, frame_read, written, ping_fired,
  reconnect_fired, unsubscribe_posted, fire_reconnect, step,
}
use bybit_cpp_api.Session.Link.{link}
use bybit_cpp_api.Session.Alive.{IsAlive}
use bybit_cpp_api.Session.Gate.{
  IsGated, none_queued, none_sent-suc, pump-IsGated, enqueue-pump-IsGated, flush_topics-IsGated,
  send_auth-IsGated, handle_error-IsGated, on_read-IsGated,
}

chain-IsGated :
    (e : Env) (s : Session) (gen : ℕ) (failed sni_failed : Bool) (port : String)
    → IsGated s
    → IsGated (step e s (resolved gen failed))
      × IsGated (step e s (tcp_connected gen failed sni_failed port))
      × IsGated (step e s (tls_done gen failed))
unfolding step on_resolve on_connect on_ssl_handshake
chain-IsGated e s gen failed sni_failed port v =
    let t : Session = record s { stage = idle } in
    (
      ground (arith, handle_error-IsGated gen t),
      ground (arith, handle_error-IsGated gen t),
      ground (arith, handle_error-IsGated gen t),
    )

-- A handshake opens a connection on which nothing was sent.
upgraded-IsGated :
    (e : Env) (s : Session) (gen : ℕ) (failed : Bool)
    → IsGated s
    → IsGated (step e s (upgraded gen failed))
unfolding step on_handshake
upgraded-IsGated e s gen failed v =
    let up : Session = record s {
      stage = idle;
      connected = true;
      last_pong_time = e.now;
      ping_timer = true;
    } in
    ground (
      arith,
      handle_error-IsGated gen (record s { stage = idle }),
      send_auth-IsGated e up,
      flush_topics-IsGated e up,
    )

written-IsGated :
    (e : Env) (s : Session) (gen : ℕ) (failed : Bool)
    → IsGated s
    → IsGated (step e s (written gen failed))
unfolding step on_write
written-IsGated e s gen failed v =
    let t : Session = record s { writes_out = s.writes_out - 1; write_in_flight = false } in
    ground (arith, handle_error-IsGated gen t, pump-IsGated e t)

ping_fired-IsGated :
    (e : Env) (s : Session) (gen : ℕ) (cancelled : Bool)
    → IsGated s
    → IsGated (step e s (ping_fired gen cancelled))
unfolding step on_ping_timer
ping_fired-IsGated e s gen cancelled v =
    ground (arith, handle_error-IsGated gen s, enqueue-pump-IsGated e Op.ping s)

-- The next connect happens offline, under a generation that sent nothing.
fire_reconnect-IsGated :
    (timer : Option (ℕ × ℕ)) (s : Session)
    → IsAlive (link s)
    → s.reconnect_timer ≡ timer
    → IsGated s
    → IsGated (fire_reconnect timer s)
unfolding fire_reconnect on_reconnect_timer start_connect none_queued
fire_reconnect-IsGated none s a h v = v
fire_reconnect-IsGated (some (gen, delay)) s a h v =
    ground (arith, none_sent-suc s.generation s.wire)

books-IsGated :
    (e : Env) (s : Session) (t : String)
    → IsGated s
    → IsGated (step e s (subscribe t))
      × IsGated (step e s (unsubscribe t))
      × IsGated (step e s (unsubscribe_task t))
      × IsGated (step e s close_task)
unfolding step add_topic remove_topic unsubscribe_posted close_by_user
books-IsGated e s t v = (
  ground arith,
  ground arith,
  ground (arith, enqueue-pump-IsGated e (Op.unsubscribe t) s),
  ground arith,
)

pub step-IsGated :
    (e : Env) (s : Session) (ev : Event) → IsAlive (link s) → IsGated s → IsGated (step e s ev)
unfolding on_control step
step-IsGated e s (subscribe t) a v = (books-IsGated e s t v).0
step-IsGated e s flush_task a v = flush_topics-IsGated e s v
step-IsGated e s (unsubscribe t) a v = (books-IsGated e s t v).1
step-IsGated e s (unsubscribe_task t) a v = (books-IsGated e s t v).2
step-IsGated e s close_task a v = (books-IsGated e s "" v).3
step-IsGated e s (resolved gen failed) a v = (chain-IsGated e s gen failed failed "" v).0
step-IsGated e s (tcp_connected gen failed sni_failed port) a v =
    (chain-IsGated e s gen failed sni_failed port v).1
step-IsGated e s (tls_done gen failed) a v = (chain-IsGated e s gen failed failed "" v).2
step-IsGated e s (upgraded gen failed) a v = upgraded-IsGated e s gen failed v
step-IsGated e s (frame_read gen failed frame) a v =
    ground (arith, on_read-IsGated e gen failed frame (record s { stage = idle }))
step-IsGated e s (written gen failed) a v = written-IsGated e s gen failed v
step-IsGated e s (ping_fired gen cancelled) a v = ping_fired-IsGated e s gen cancelled v
step-IsGated e s reconnect_fired a v = fire_reconnect-IsGated s.reconnect_timer s a refl v
step-IsGated e s (control_received pong) a v = ground arith
