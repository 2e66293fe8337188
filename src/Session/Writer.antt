-- ===== src/Session/Writer.antt =====
-- The write pump: at most one `async_write` of a stream is out, and none while it connects.
pub mod Step
use bybit_cpp_api.Base.{
  ℕ, ◌≤◌, ◌-◌, String, ◌≡◌, refl, Bool, true, false, Option, none, some, List, [], ◌∷◌, arith,
  if◌then◌else◌,
}
use bybit_cpp_api.Session.State.{
  Session, Env, Op, Stage, Frame, Message, idle, reading, malformed, non_object, object,
}
use bybit_cpp_api.Session.Topics.{
  enqueue_op, write_front, pump, add_topic, remove_topic, flush_pending, flush_topics,
}
use bybit_cpp_api.Session.Connect.{
  send_auth, tear_down, handle_error, start_connect, on_resolve, on_connect, on_ssl_handshake,
  on_handshake, close_by_user,
}
use bybit_cpp_api.Session.Cases.{dispatch_cases}
use bybit_cpp_api.Session.Inbound.{
  flag_or_true, settle_op, on_subscribe_ack, answered_op, on_authenticated, handle_api_control_msg,
  dispatch, rearm_read, on_frame, on_read,
}
use bybit_cpp_api.Session.Timers.{on_ping_timer, on_reconnect_timer, on_write}
use bybit_cpp_api.Session.Events.{
  Event, subscribe, flush_task, unsubscribe, unsubscribe_task, close_task, resolved, tcp_connected,
  tls_done, upgraded, frame_read, written, ping_fired, reconnect_fired, unsubscribe_posted,
  fire_reconnect, step, exec,
}
use bybit_cpp_api.Session.Link.{link}
use bybit_cpp_api.Session.Alive.{IsAlive, is_chain}

pub record IsWriting (s : Session) : Type 0 where
  pub single : s.connected ≡ true → s.writes_out ≡ (if s.write_in_flight then 1 else 0)
  pub at_most_one : s.writes_out ≤ 1
  pub offline : s.connected ≡ false → s.write_in_flight ≡ false
  pub quiet : is_chain s.stage ≡ true → (s.connected ≡ false) × (s.writes_out ≡ 0)

pub write_front-IsWriting :
    (ops : List Op) (s : Session)
    → IsWriting s
    → s.connected ≡ true
    → s.write_in_flight ≡ false
    → IsWriting (write_front ops s)
unfolding write_front
write_front-IsWriting [] s v c w = v
write_front-IsWriting (op ∷ ops) s v c w = ground arith

pub pump-IsWriting : (e : Env) (s : Session) → IsWriting s → IsWriting (pump e s)
unfolding pump
pump-IsWriting e s v = ground (arith, write_front-IsWriting s.outbound_queue s)

pub flush_pending-IsWriting :
    (e : Env) (ts : List String) (s : Session) → IsWriting s → IsWriting (flush_pending e ts s)
unfolding flush_pending
flush_pending-IsWriting e [] s v = v
flush_pending-IsWriting e (t ∷ ts) s v = pump-IsWriting e _ (record {
  single = v.single;
  at_most_one = v.at_most_one;
  offline = v.offline;
  quiet = v.quiet;
})

-- A state with the same writes as another.
pub same-IsWriting :
    (s t : Session)
    → IsWriting s
    → t.connected ≡ s.connected
    → t.stage ≡ s.stage
    → t.writes_out ≡ s.writes_out
    → t.write_in_flight ≡ s.write_in_flight
    → IsWriting t
same-IsWriting s t v c g w f = ground arith

pub flush_topics-IsWriting : (e : Env) (s : Session) → IsWriting s → IsWriting (flush_topics e s)
unfolding flush_topics
flush_topics-IsWriting e s v = ground (arith, flush_pending-IsWriting e s.pending_topics s)

pub enqueue-pump-IsWriting :
    (e : Env) (op : Op) (s : Session) → IsWriting s → IsWriting (pump e (enqueue_op op s))
unfolding enqueue_op
enqueue-pump-IsWriting e op s v = pump-IsWriting e _ (record {
  single = v.single;
  at_most_one = v.at_most_one;
  offline = v.offline;
  quiet = v.quiet;
})

pub send_auth-IsWriting : (e : Env) (s : Session) → IsWriting s → IsWriting (send_auth e s)
unfolding send_auth
send_auth-IsWriting e s v = enqueue-pump-IsWriting e _ _ (record {
  single = v.single;
  at_most_one = v.at_most_one;
  offline = v.offline;
  quiet = v.quiet;
})

pub handle_error-IsWriting : (gen : ℕ) (s : Session) → IsWriting s → IsWriting (handle_error gen s)
unfolding handle_error tear_down
handle_error-IsWriting gen s v = ground arith

pub on_authenticated-IsWriting :
    (e : Env) (s : Session) → IsWriting s → IsWriting (on_authenticated e s)
unfolding on_authenticated
on_authenticated-IsWriting e s v = flush_topics-IsWriting e _ (record {
  single = v.single;
  at_most_one = v.at_most_one;
  offline = v.offline;
  quiet = v.quiet;
})

pub settle_op-IsWriting :
    (found : Option (ℕ × List String)) (b : Bool) (s : Session)
    → IsWriting s
    → IsWriting (settle_op found b s)
unfolding settle_op
settle_op-IsWriting none b s v = v
settle_op-IsWriting (some (id, topics)) b s v = record {
  single = v.single;
  at_most_one = v.at_most_one;
  offline = v.offline;
  quiet = v.quiet;
}

pub dispatch-IsWriting :
    (e : Env) (gen : ℕ) (m : Message) (s : Session) → IsWriting s → IsWriting (dispatch e gen m s)
unfolding on_subscribe_ack
dispatch-IsWriting e gen m s v =
    dispatch_cases IsWriting e gen m s
      (record {
        single = v.single;
        at_most_one = v.at_most_one;
        offline = v.offline;
        quiet = v.quiet;
      })
      (on_authenticated-IsWriting e s v) (handle_error-IsWriting gen s v)
      (settle_op-IsWriting (answered_op m.req_id s.inflight_subscribes) (flag_or_true m.success) s
        v)
      v
      (record {
        single = v.single;
        at_most_one = v.at_most_one;
        offline = v.offline;
        quiet = v.quiet;
      })

pub rearm_read-IsWriting : (gen : ℕ) (s : Session) → IsWriting s → IsWriting (rearm_read gen s)
unfolding rearm_read
rearm_read-IsWriting gen s v = ground arith

pub on_read-IsWriting :
    (e : Env) (gen : ℕ) (failed : Bool) (frame : Frame) (s : Session)
    → IsWriting s
    → IsWriting (on_read e gen failed frame s)
unfolding on_read
on_read-IsWriting e gen true frame s v = handle_error-IsWriting gen s v
on_read-IsWriting e gen false malformed s v = handle_error-IsWriting gen s v
on_read-IsWriting e gen false non_object s v = rearm_read-IsWriting gen s v
on_read-IsWriting e gen false (object m) s v =
    rearm_read-IsWriting gen (dispatch e gen m s) (dispatch-IsWriting e gen m s v)
