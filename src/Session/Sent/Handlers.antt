-- ===== src/Session/Sent/Handlers.antt =====
-- The topics that count as sent, and the handlers.
use bybit_cpp_api.Base.{
  ℕ, String, ◌≡◌, refl, Bool, true, false, not, ◌&&◌, Option, none, some, List, [], ◌∷◌, arith,
  erase_first,
}
use bybit_cpp_api.Session.State.{Session, Env, Op, Frame, Message, malformed, non_object, object}
use bybit_cpp_api.Session.Topics.{enqueue_op, write_front, pump, flush_pending, flush_topics}
use bybit_cpp_api.Session.Connect.{send_auth, tear_down, handle_error}
use bybit_cpp_api.Session.Cases.{dispatch_cases}
use bybit_cpp_api.Session.Inbound.{
  flag_or_true, prune, erase_op, settle_op, on_subscribe_ack, answered_op, on_authenticated,
  dispatch, rearm_read, on_read,
}
use bybit_cpp_api.Session.Alive.{is_chain}

pub record IsSentOnline (s : Session) : Type 0 where
  pub offline_topics : s.connected ≡ false → s.subscriptions ≡ []
  pub offline_ops : s.connected ≡ false → s.inflight_subscribes ≡ []
  pub gated_topics : s.auth_required ≡ true → s.authenticated ≡ false → s.subscriptions ≡ []
  pub gated_ops : s.auth_required ≡ true → s.authenticated ≡ false → s.inflight_subscribes ≡ []
  pub chain : is_chain s.stage ≡ true → s.connected ≡ false

write_front-IsSentOnline :
    (ops : List Op) (s : Session) → IsSentOnline s → IsSentOnline (write_front ops s)
unfolding write_front
write_front-IsSentOnline [] s v = v
write_front-IsSentOnline (op ∷ ops) s v = ground arith

pub pump-IsSentOnline : (e : Env) (s : Session) → IsSentOnline s → IsSentOnline (pump e s)
unfolding pump
pump-IsSentOnline e s v = ground (arith, write_front-IsSentOnline s.outbound_queue s)

pub enqueue-pump-IsSentOnline :
    (e : Env) (op : Op) (s : Session) → IsSentOnline s → IsSentOnline (pump e (enqueue_op op s))
unfolding enqueue_op
enqueue-pump-IsSentOnline e op s v = pump-IsSentOnline e (enqueue_op op s) (ground arith)

pub send_auth-IsSentOnline : (e : Env) (s : Session) → IsSentOnline s → IsSentOnline (send_auth e s)
unfolding send_auth
send_auth-IsSentOnline e s v = enqueue-pump-IsSentOnline e _ _ (ground arith)

flush_pending-IsSentOnline :
    (e : Env) (ts : List String) (s : Session)
    → s.connected ≡ true
    → (s.auth_required && not s.authenticated) ≡ false
    → IsSentOnline s
    → IsSentOnline (flush_pending e ts s)
unfolding flush_pending enqueue_op
flush_pending-IsSentOnline e [] s c a v = v
flush_pending-IsSentOnline e (t ∷ ts) s c a v = pump-IsSentOnline e _ (ground arith)

pub flush_topics-IsSentOnline :
    (e : Env) (s : Session) → IsSentOnline s → IsSentOnline (flush_topics e s)
unfolding flush_topics
flush_topics-IsSentOnline e s v = ground (arith, flush_pending-IsSentOnline e s.pending_topics s)

pub handle_error-IsSentOnline :
    (gen : ℕ) (s : Session) → IsSentOnline s → IsSentOnline (handle_error gen s)
unfolding handle_error tear_down
handle_error-IsSentOnline gen s v = ground arith

on_authenticated-IsSentOnline :
    (e : Env) (s : Session) → IsSentOnline s → IsSentOnline (on_authenticated e s)
unfolding on_authenticated
on_authenticated-IsSentOnline e s v = flush_topics-IsSentOnline e _ (ground arith)

prune-nil : (ts : List String) → prune ts [] ≡ []
unfolding prune erase_first
prune-nil [] = refl
prune-nil (t ∷ ts) = prune-nil ts

settle_op-IsSentOnline :
    (found : Option (ℕ × List String)) (b : Bool) (s : Session)
    → IsSentOnline s
    → IsSentOnline (settle_op found b s)
unfolding settle_op erase_op
settle_op-IsSentOnline none b s v = v
settle_op-IsSentOnline (some (id, topics)) b s v = ground (arith, prune-nil topics)

dispatch-IsSentOnline :
    (e : Env) (gen : ℕ) (m : Message) (s : Session)
    → IsSentOnline s
    → IsSentOnline (dispatch e gen m s)
unfolding on_subscribe_ack
dispatch-IsSentOnline e gen m s v =
    dispatch_cases IsSentOnline e gen m s (ground arith) (on_authenticated-IsSentOnline e s v)
      (handle_error-IsSentOnline gen s v)
      (settle_op-IsSentOnline (answered_op m.req_id s.inflight_subscribes) (flag_or_true m.success)
        s v)
      v (ground arith)

rearm_read-IsSentOnline : (gen : ℕ) (s : Session) → IsSentOnline s → IsSentOnline (rearm_read gen s)
unfolding rearm_read
rearm_read-IsSentOnline gen s v = ground arith

pub on_read-IsSentOnline :
    (e : Env) (gen : ℕ) (failed : Bool) (frame : Frame) (s : Session)
    → IsSentOnline s
    → IsSentOnline (on_read e gen failed frame s)
unfolding on_read
on_read-IsSentOnline e gen true frame s v = handle_error-IsSentOnline gen s v
on_read-IsSentOnline e gen false malformed s v = handle_error-IsSentOnline gen s v
on_read-IsSentOnline e gen false non_object s v = rearm_read-IsSentOnline gen s v
on_read-IsSentOnline e gen false (object m) s v =
    rearm_read-IsSentOnline gen (dispatch e gen m s) (dispatch-IsSentOnline e gen m s v)
