-- ===== src/Session/Alive/Step.antt =====
-- The events of a session keep it alive: frames, writes, pings and calls.
use bybit_cpp_api.Base.{
  ℕ, ◌≤◌, ◌-◌, String, ◌≡◌, refl, ◌⊎◌, Bool, true, false, Option, none, some, List, arith, is_some,
}
use bybit_cpp_api.Session.State.{
  Session, Env, Op, Frame, Message, idle, malformed, non_object, object,
}
use bybit_cpp_api.Session.Topics.{enqueue_op, add_topic, remove_topic, flush_topics}
use bybit_cpp_api.Session.Connect.{tear_down, handle_error, close_by_user}
use bybit_cpp_api.Session.Cases.{dispatch_cases}
use bybit_cpp_api.Session.Inbound.{
  flag_or_true, settle_op, on_subscribe_ack, answered_op, on_authenticated, dispatch, rearm_read,
  on_read,
}
use bybit_cpp_api.Session.Timers.{on_ping_timer, on_write}
use bybit_cpp_api.Session.Events.{
  control_received, on_control, Event, subscribe, flush_task, unsubscribe, unsubscribe_task,
  close_task, resolved, tcp_connected, tls_done, upgraded, frame_read, written, ping_fired,
  reconnect_fired, unsubscribe_posted, step,
}
use bybit_cpp_api.Session.Link.{
  Link, link, link-pump, link-enqueue_op, link-flush_topics, link-add_topic, link-remove_topic,
}
use bybit_cpp_api.Session.Alive.{
  is_chain, ArmedFor, IsAlive, chain-IsAlive, upgraded-IsAlive, fire_reconnect-IsAlive,
}

pub link-settle_op :
    (found : Option (ℕ × List String)) (b : Bool) (s : Session)
    → link (settle_op found b s) ≡ link s
unfolding settle_op
link-settle_op none b s = refl
link-settle_op (some (id, topics)) b s = refl

-- While a frame is handled: the read is not armed, and the session is connected or waits.
record IsAwake (gen : ℕ) (l : Link) : Type 0 where
  armed : l.reconnect_scheduled ≡ true → ArmedFor l.reconnect_timer l.generation
  off : l.reconnect_scheduled ≡ true → l.connected ≡ false
  waiting : is_some l.reconnect_timer ≡ true → l.reconnect_scheduled ≡ true
  delay_pos : 1 ≤ l.reconnect_delay_s
  delay_le : l.reconnect_delay_s ≤ 30
  between : l.stage ≡ idle
  current : gen ≡ l.generation
  up : l.user_closed ≡ false → (l.connected ≡ true) ⊎ (l.reconnect_scheduled ≡ true)

handle_error-IsAwake :
    (s : Session) (gen : ℕ) → IsAwake gen (link s) → IsAwake gen (link (handle_error gen s))
unfolding handle_error tear_down
handle_error-IsAwake s gen v = ground arith

on_authenticated-IsAwake :
    (e : Env) (gen : ℕ) (s : Session)
    → IsAwake gen (link s)
    → IsAwake gen (link (on_authenticated e s))
unfolding on_authenticated
on_authenticated-IsAwake e gen s v =
    let t : Session = record s {
      authenticated = true;
      authenticated_flag = true;
      auth_deadline = none;
      reconnect_delay_s = 1;
    } in
    ground (arith, link-flush_topics e t)

dispatch-IsAwake :
    (e : Env) (gen : ℕ) (m : Message) (s : Session)
    → IsAwake gen (link s)
    → IsAwake gen (link (dispatch e gen m s))
unfolding on_subscribe_ack
dispatch-IsAwake e gen m s v =
    dispatch_cases (λ t. IsAwake gen (link t)) e gen m s v (on_authenticated-IsAwake e gen s v)
      (handle_error-IsAwake s gen v)
      (rw (link-settle_op (answered_op m.req_id s.inflight_subscribes) (flag_or_true m.success) s)
        v)
      v v

rearm_read-IsAlive :
    (gen : ℕ) (s : Session) → IsAwake gen (link s) → IsAlive (link (rearm_read gen s))
unfolding rearm_read
rearm_read-IsAlive gen s v = ground arith

handle_error_awake-IsAlive :
    (gen : ℕ) (s : Session) → IsAwake gen (link s) → IsAlive (link (handle_error gen s))
unfolding handle_error tear_down
handle_error_awake-IsAlive gen s v = ground arith

on_read-IsAlive :
    (e : Env) (gen : ℕ) (failed : Bool) (frame : Frame) (s : Session)
    → IsAwake gen (link s)
    → IsAlive (link (on_read e gen failed frame s))
unfolding on_read
on_read-IsAlive e gen true frame s v = handle_error_awake-IsAlive gen s v
on_read-IsAlive e gen false malformed s v = handle_error_awake-IsAlive gen s v
on_read-IsAlive e gen false non_object s v = rearm_read-IsAlive gen s v
on_read-IsAlive e gen false (object m) s v =
    rearm_read-IsAlive gen (dispatch e gen m s) (dispatch-IsAwake e gen m s v)

frame_read-IsAlive :
    (e : Env) (s : Session) (gen : ℕ) (failed : Bool) (frame : Frame)
    → IsAlive (link s)
    → IsAlive (link (step e s (frame_read gen failed frame)))
unfolding step
frame_read-IsAlive e s gen failed frame v =
    ground (arith, on_read-IsAlive e gen failed frame (record s { stage = idle }))

-- An error outside the chain, at a session that is alive.
late_error-IsAlive :
    (gen : ℕ) (s : Session)
    → IsAlive (link s)
    → is_chain s.stage ≡ false
    → IsAlive (link (handle_error gen s))
unfolding handle_error tear_down
late_error-IsAlive gen s v c = ground arith

written-IsAlive :
    (e : Env) (s : Session) (gen : ℕ) (failed : Bool)
    → IsAlive (link s)
    → (is_chain s.stage ≡ true → s.writes_out ≡ 0)
    → IsAlive (link (step e s (written gen failed)))
unfolding step on_write
written-IsAlive e s gen failed v quiet =
    let t : Session = record s { writes_out = s.writes_out - 1; write_in_flight = false } in
    ground (arith, late_error-IsAlive gen t, link-pump e t)

ping_fired-IsAlive :
    (e : Env) (s : Session) (gen : ℕ) (cancelled : Bool)
    → IsAlive (link s)
    → IsAlive (link (step e s (ping_fired gen cancelled)))
unfolding step on_ping_timer
ping_fired-IsAlive e s gen cancelled v =
    ground (
      arith,
      late_error-IsAlive gen s,
      link-pump e (enqueue_op Op.ping s),
      link-enqueue_op Op.ping s,
    )

-- The other events leave the link alone, but for a close.
calm-IsAlive : (s t : Session) → IsAlive (link s) → link t ≡ link s → IsAlive (link t)
calm-IsAlive s t v h = ground arith

unsubscribe_task-IsAlive :
    (e : Env) (s : Session) (t : String)
    → IsAlive (link s)
    → IsAlive (link (step e s (unsubscribe_task t)))
unfolding step unsubscribe_posted
unsubscribe_task-IsAlive e s t v =
    let op = Op.unsubscribe t in ground (arith, link-pump e (enqueue_op op s), link-enqueue_op op s)

close_task-IsAlive :
    (e : Env) (s : Session) → IsAlive (link s) → IsAlive (link (step e s close_task))
unfolding step close_by_user
close_task-IsAlive e s v = ground arith

pub step-IsAlive :
    (e : Env) (s : Session) (ev : Event)
    → IsAlive (link s)
    → (is_chain s.stage ≡ true → s.writes_out ≡ 0)
    → IsAlive (link (step e s ev))
unfolding on_control step
step-IsAlive e s (subscribe t) v q = calm-IsAlive s (add_topic t s) v (link-add_topic t s)
step-IsAlive e s flush_task v q = calm-IsAlive s (flush_topics e s) v (link-flush_topics e s)
step-IsAlive e s (unsubscribe t) v q = calm-IsAlive s (remove_topic t s).0 v (link-remove_topic t s)
step-IsAlive e s (unsubscribe_task t) v q = unsubscribe_task-IsAlive e s t v
step-IsAlive e s close_task v q = close_task-IsAlive e s v
step-IsAlive e s (resolved gen failed) v q = (chain-IsAlive e s gen failed failed "" v).0
step-IsAlive e s (tcp_connected gen failed sni_failed port) v q =
    (chain-IsAlive e s gen failed sni_failed port v).1
step-IsAlive e s (tls_done gen failed) v q = (chain-IsAlive e s gen failed failed "" v).2
step-IsAlive e s (upgraded gen failed) v q = upgraded-IsAlive e s gen failed v
step-IsAlive e s (frame_read gen failed frame) v q = frame_read-IsAlive e s gen failed frame v
step-IsAlive e s (written gen failed) v q = written-IsAlive e s gen failed v q
step-IsAlive e s (ping_fired gen cancelled) v q = ping_fired-IsAlive e s gen cancelled v
step-IsAlive e s reconnect_fired v q = fire_reconnect-IsAlive s.reconnect_timer s v refl
step-IsAlive e s (control_received pong) v q = ground arith
