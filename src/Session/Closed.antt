-- ===== src/Session/Closed.antt =====
-- A session that its user closed opens no further connection.
use bybit_cpp_api.Base.{
  ℕ, ◌-◌, String, ◌≡◌, refl, Bool, true, false, not, ◌&&◌, Option, none, some, List, [], ◌∷◌, arith,
}
use bybit_cpp_api.Session.State.{
  Session, Env, Op, Frame, Message, idle, malformed, non_object, object,
}
use bybit_cpp_api.Session.Topics.{enqueue_op, add_topic, remove_topic, flush_topics}
use bybit_cpp_api.Session.Connect.{
  handle_error, on_resolve, on_connect, on_ssl_handshake, on_handshake, close_by_user,
}
use bybit_cpp_api.Session.Cases.{dispatch_cases}
use bybit_cpp_api.Session.Inbound.{
  flag_or_true, on_subscribe_ack, answered_op, on_authenticated, dispatch, rearm_read, on_read,
}
use bybit_cpp_api.Session.Timers.{on_ping_timer, on_reconnect_timer, on_write}
use bybit_cpp_api.Session.Events.{
  control_received, on_control, Event, subscribe, flush_task, unsubscribe, unsubscribe_task,
  close_task, resolved, tcp_connected, tls_done, upgraded, frame_read, written, ping_fired,
  reconnect_fired, unsubscribe_posted, fire_reconnect, step, exec,
}
use bybit_cpp_api.Session.Link.{
  Link, link, link-pump, link-enqueue_op, link-flush_topics, link-add_topic, link-remove_topic,
}
use bybit_cpp_api.Session.Alive.Step.{link-settle_op}

-- Closed by the user: the generation is as it was, and the session is up only if it was.
pub record IsShut (gen : Link) (l : Link) : Type 0 where
  pub closed : l.user_closed ≡ true
  pub current : l.generation ≡ gen.generation
  pub held : l.connected ≡ true → gen.connected ≡ true

calm-IsShut :
    (gen : Link) (s t : Session) → IsShut gen (link s) → link t ≡ link s → IsShut gen (link t)
calm-IsShut gen s t v h = ground arith

handle_error-IsShut :
    (g : ℕ) (gen : Link) (s : Session) → IsShut gen (link s) → IsShut gen (link (handle_error g s))
unfolding handle_error
handle_error-IsShut g gen s v = ground arith

chain-IsShut :
    (e : Env) (s : Session) (g : ℕ) (gen : Link) (failed sni_failed : Bool) (port : String)
    → IsShut gen (link s)
    → IsShut gen (link (step e s (resolved g failed)))
      × IsShut gen (link (step e s (tcp_connected g failed sni_failed port)))
      × IsShut gen (link (step e s (tls_done g failed)))
      × IsShut gen (link (step e s (upgraded g failed)))
unfolding step on_resolve on_connect on_ssl_handshake on_handshake
chain-IsShut e s g gen failed sni_failed port v =
    let t : Session = record s { stage = idle } in
    (
      ground (arith, handle_error-IsShut g gen t),
      ground (arith, handle_error-IsShut g gen t),
      ground (arith, handle_error-IsShut g gen t),
      ground (arith, handle_error-IsShut g gen t),
    )

on_authenticated-IsShut :
    (e : Env) (gen : Link) (s : Session)
    → IsShut gen (link s)
    → IsShut gen (link (on_authenticated e s))
unfolding on_authenticated
on_authenticated-IsShut e gen s v =
    let t : Session = record s {
      authenticated = true;
      authenticated_flag = true;
      auth_deadline = none;
      reconnect_delay_s = 1;
    } in
    ground (arith, link-flush_topics e t)

dispatch-IsShut :
    (e : Env) (g : ℕ) (gen : Link) (m : Message) (s : Session)
    → IsShut gen (link s)
    → IsShut gen (link (dispatch e g m s))
unfolding on_subscribe_ack
dispatch-IsShut e g gen m s v =
    dispatch_cases (λ t. IsShut gen (link t)) e g m s (ground arith)
      (on_authenticated-IsShut e gen s v) (handle_error-IsShut g gen s v)
      (rw (link-settle_op (answered_op m.req_id s.inflight_subscribes) (flag_or_true m.success) s)
        v)
      v (ground arith)

rearm_read-IsShut :
    (g : ℕ) (gen : Link) (s : Session) → IsShut gen (link s) → IsShut gen (link (rearm_read g s))
unfolding rearm_read
rearm_read-IsShut g gen s v = ground arith

on_read-IsShut :
    (e : Env) (g : ℕ) (gen : Link) (failed : Bool) (frame : Frame) (s : Session)
    → IsShut gen (link s)
    → IsShut gen (link (on_read e g failed frame s))
unfolding on_read
on_read-IsShut e g gen true frame s v = handle_error-IsShut g gen s v
on_read-IsShut e g gen false malformed s v = handle_error-IsShut g gen s v
on_read-IsShut e g gen false non_object s v = rearm_read-IsShut g gen s v
on_read-IsShut e g gen false (object m) s v =
    rearm_read-IsShut g gen (dispatch e g m s) (dispatch-IsShut e g gen m s v)

frame_read-IsShut :
    (e : Env) (s : Session) (g : ℕ) (gen : Link) (failed : Bool) (frame : Frame)
    → IsShut gen (link s)
    → IsShut gen (link (step e s (frame_read g failed frame)))
unfolding step
frame_read-IsShut e s g gen failed frame v =
    ground (arith, on_read-IsShut e g gen failed frame (record s { stage = idle }))

timers-IsShut :
    (e : Env) (s : Session) (g : ℕ) (gen : Link) (failed : Bool) (t : String)
    → IsShut gen (link s)
    → IsShut gen (link (step e s (written g failed)))
      × IsShut gen (link (step e s (ping_fired g failed)))
      × IsShut gen (link (step e s (unsubscribe_task t)))
      × IsShut gen (link (step e s close_task))
unfolding step on_write on_ping_timer unsubscribe_posted close_by_user
timers-IsShut e s g gen failed t v =
    let w : Session = record s { writes_out = s.writes_out - 1; write_in_flight = false } in
    let op = Op.unsubscribe t in
    (
      ground (arith, handle_error-IsShut g gen w, link-pump e w),
      ground arith,
      ground (arith, link-pump e (enqueue_op op s), link-enqueue_op op s),
      ground arith,
    )

fire_reconnect-IsShut :
    (timer : Option (ℕ × ℕ)) (gen : Link) (s : Session)
    → IsShut gen (link s)
    → IsShut gen (link (fire_reconnect timer s))
unfolding fire_reconnect on_reconnect_timer
fire_reconnect-IsShut none gen s v = v
fire_reconnect-IsShut (some (g, delay)) gen s v = ground arith

on_control-IsShut :
    (e : Env) (pong : Bool) (gen : Link) (s : Session)
    → IsShut gen (link s)
    → IsShut gen (link (on_control e pong s))
unfolding on_control
on_control-IsShut e pong gen s v = ground arith

step-IsShut :
    (e : Env) (s : Session) (ev : Event) (gen : Link)
    → IsShut gen (link s)
    → IsShut gen (link (step e s ev))
unfolding step
step-IsShut e s (subscribe t) gen v = calm-IsShut gen s (add_topic t s) v (link-add_topic t s)
step-IsShut e s flush_task gen v = calm-IsShut gen s (flush_topics e s) v (link-flush_topics e s)
step-IsShut e s (unsubscribe t) gen v =
    calm-IsShut gen s (remove_topic t s).0 v (link-remove_topic t s)
step-IsShut e s (unsubscribe_task t) gen v = (timers-IsShut e s s.generation gen true t v).2
step-IsShut e s close_task gen v = (timers-IsShut e s s.generation gen true "" v).3
step-IsShut e s (resolved g failed) gen v = (chain-IsShut e s g gen failed failed "" v).0
step-IsShut e s (tcp_connected g failed sni_failed port) gen v =
    (chain-IsShut e s g gen failed sni_failed port v).1
step-IsShut e s (tls_done g failed) gen v = (chain-IsShut e s g gen failed failed "" v).2
step-IsShut e s (upgraded g failed) gen v = (chain-IsShut e s g gen failed failed "" v).3
step-IsShut e s (frame_read g failed frame) gen v = frame_read-IsShut e s g gen failed frame v
step-IsShut e s (written g failed) gen v = (timers-IsShut e s g gen failed "" v).0
step-IsShut e s (ping_fired g cancelled) gen v = (timers-IsShut e s g gen cancelled "" v).1
step-IsShut e s reconnect_fired gen v = fire_reconnect-IsShut s.reconnect_timer gen s v
step-IsShut e s (control_received pong) gen v = on_control-IsShut e pong gen s v

exec-IsShut :
    (s : Session) (evs : List (Env × Event)) (gen : Link)
    → IsShut gen (link s)
    → IsShut gen (link (exec s evs))
unfolding exec
exec-IsShut s [] gen v = v
exec-IsShut s ((e, ev) ∷ evs) gen v = exec-IsShut (step e s ev) evs gen (step-IsShut e s ev gen v)

-- Once its user closed a session, no event takes the close back or starts another connect attempt, and
-- a session that was not connected then never is: an attempt that was under way does not come up.
pub exec_closed :
    (s : Session) (evs : List (Env × Event))
    → s.user_closed ≡ true
    → ((exec s evs).user_closed ≡ true)
      × ((exec s evs).generation ≡ s.generation)
      × (((exec s evs).connected && not s.connected) ≡ false)
exec_closed s evs h =
    let v = exec-IsShut s evs (link s) (record { closed = h; current = refl; held = λ c. c }) in
    (v.closed, v.current, ground (arith, v.held))
