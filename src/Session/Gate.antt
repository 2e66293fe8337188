-- ===== src/Session/Gate.antt =====
-- The authentication gate: on a session with credentials no subscribe frame is queued or sent on a
-- connection whose auth ack has not arrived, and an offline session queues nothing.
pub mod Step
use bybit_cpp_api.Base.{
  ℕ, ◌+◌, ◌*◌, ◌≤◌, String, ◌≡◌, refl, Bool, true, false, not, ◌&&◌, Option, none, some, List, [],
  ◌∷◌, ◌++◌, arith, ◌==◌, leb,
}
use bybit_cpp_api.Session.State.{
  Session, Env, Op, Stage, Frame, Message, auth, unsubscribe, ping, malformed, non_object, object,
}
use bybit_cpp_api.Session.Topics.{enqueue_op, write_front, pump, flush_pending, flush_topics}
use bybit_cpp_api.Session.Connect.{send_auth, tear_down, handle_error}
use bybit_cpp_api.Session.Cases.{dispatch_cases}
use bybit_cpp_api.Session.Inbound.{
  flag_or_true, settle_op, on_subscribe_ack, answered_op, on_authenticated, dispatch, rearm_read,
  on_read,
}
use bybit_cpp_api.Session.Alive.{is_chain}

abbrev pub is_subscribe : Op → Bool
is_subscribe (Op.subscribe id topics) = true
is_subscribe _ = false

-- No subscribe frame is queued.
unfoldable pub none_queued : List Op → Bool
none_queued [] = true
none_queued (op ∷ ops) = not (is_subscribe op) && none_queued ops

-- No subscribe frame was sent on the connection of a generation.
unfoldable pub none_sent : ℕ → List (ℕ × Op) → Bool
none_sent gen [] = true
none_sent gen ((g, op) ∷ ops) = not (is_subscribe op && g == gen) && none_sent gen ops

-- No frame was sent on a connection later than a generation.
unfoldable pub sent_by : ℕ → List (ℕ × Op) → Bool
sent_by gen [] = true
sent_by gen ((g, op) ∷ ops) = leb g gen && sent_by gen ops

pub record IsGated (s : Session) : Type 0 where
  pub offline : s.connected ≡ false → s.outbound_queue ≡ []
  pub queue : s.auth_required ≡ true → s.authenticated ≡ false → none_queued s.outbound_queue ≡ true
  pub wire :
      s.auth_required ≡ true
      → s.connected ≡ true
      → s.authenticated ≡ false
      → none_sent s.generation s.wire ≡ true
  pub chain :
      is_chain s.stage ≡ true → (s.connected ≡ false) × (none_sent s.generation s.wire ≡ true)
  pub dated : sent_by s.generation s.wire ≡ true

none_queued-append :
    (ops : List Op) (op : Op)
    → none_queued ops ≡ true
    → is_subscribe op ≡ false
    → none_queued (ops ++ op ∷ []) ≡ true
unfolding none_queued
none_queued-append [] op h k = ground arith
none_queued-append (x ∷ ops) op h k = ground (arith, none_queued-append ops op)

-- A later generation has sent nothing yet.
pub none_sent-suc :
    (gen : ℕ) (ops : List (ℕ × Op))
    → sent_by gen ops ≡ true
    → (none_sent (gen + 1) ops ≡ true) × (sent_by (gen + 1) ops ≡ true)
unfolding none_sent sent_by
none_sent-suc gen [] h = (refl, refl)
none_sent-suc gen ((g, op) ∷ ops) h = ground (arith, none_sent-suc gen ops)

write_front-IsGated :
    (ops : List Op) (s : Session)
    → IsGated s
    → s.outbound_queue ≡ ops
    → s.connected ≡ true
    → IsGated (write_front ops s)
unfolding write_front none_queued none_sent sent_by
write_front-IsGated [] s v q c = v
write_front-IsGated (op ∷ ops) s v q c = ground arith

pub pump-IsGated : (e : Env) (s : Session) → IsGated s → IsGated (pump e s)
unfolding pump
pump-IsGated e s v = ground (arith, write_front-IsGated s.outbound_queue s)

-- A frame that is no subscribe may be queued on any connection.
pub enqueue-pump-IsGated :
    (e : Env) (op : Op) (s : Session)
    → is_subscribe op ≡ false
    → s.connected ≡ true
    → IsGated s
    → IsGated (pump e (enqueue_op op s))
unfolding enqueue_op
enqueue-pump-IsGated e op s k c v =
    pump-IsGated e (enqueue_op op s) (ground (arith, none_queued-append s.outbound_queue op))

flush_pending-IsGated :
    (e : Env) (ts : List String) (s : Session)
    → s.connected ≡ true
    → (s.auth_required && not s.authenticated) ≡ false
    → IsGated s
    → IsGated (flush_pending e ts s)
unfolding flush_pending
flush_pending-IsGated e [] s c a v = v
flush_pending-IsGated e (t ∷ ts) s c a v = pump-IsGated e _ (ground arith)

pub flush_topics-IsGated : (e : Env) (s : Session) → IsGated s → IsGated (flush_topics e s)
unfolding flush_topics
flush_topics-IsGated e s v = ground (arith, flush_pending-IsGated e s.pending_topics s)

pub send_auth-IsGated :
    (e : Env) (s : Session) → s.connected ≡ true → IsGated s → IsGated (send_auth e s)
unfolding send_auth
send_auth-IsGated e s c v =
    enqueue-pump-IsGated e _ (record s { auth_deadline = some (e.now + 15 * 1000) }) refl c
      (record {
        offline = v.offline;
        queue = v.queue;
        wire = v.wire;
        chain = v.chain;
        dated = v.dated;
      })

pub handle_error-IsGated : (gen : ℕ) (s : Session) → IsGated s → IsGated (handle_error gen s)
unfolding handle_error tear_down none_queued
handle_error-IsGated gen s v = ground arith

on_authenticated-IsGated : (e : Env) (s : Session) → IsGated s → IsGated (on_authenticated e s)
unfolding on_authenticated
on_authenticated-IsGated e s v = flush_topics-IsGated e _ (ground arith)

settle_op-IsGated :
    (found : Option (ℕ × List String)) (b : Bool) (s : Session)
    → IsGated s
    → IsGated (settle_op found b s)
unfolding settle_op
settle_op-IsGated none b s v = v
settle_op-IsGated (some (id, topics)) b s v = record {
  offline = v.offline;
  queue = v.queue;
  wire = v.wire;
  chain = v.chain;
  dated = v.dated;
}

dispatch-IsGated :
    (e : Env) (gen : ℕ) (m : Message) (s : Session) → IsGated s → IsGated (dispatch e gen m s)
unfolding on_subscribe_ack
dispatch-IsGated e gen m s v =
    dispatch_cases IsGated e gen m s
      (record {
        offline = v.offline;
        queue = v.queue;
        wire = v.wire;
        chain = v.chain;
        dated = v.dated;
      })
      (on_authenticated-IsGated e s v) (handle_error-IsGated gen s v)
      (settle_op-IsGated (answered_op m.req_id s.inflight_subscribes) (flag_or_true m.success) s v)
      v
      (record {
        offline = v.offline;
        queue = v.queue;
        wire = v.wire;
        chain = v.chain;
        dated = v.dated;
      })

rearm_read-IsGated : (gen : ℕ) (s : Session) → IsGated s → IsGated (rearm_read gen s)
unfolding rearm_read
rearm_read-IsGated gen s v = ground arith

pub on_read-IsGated :
    (e : Env) (gen : ℕ) (failed : Bool) (frame : Frame) (s : Session)
    → IsGated s
    → IsGated (on_read e gen failed frame s)
unfolding on_read
on_read-IsGated e gen true frame s v = handle_error-IsGated gen s v
on_read-IsGated e gen false malformed s v = handle_error-IsGated gen s v
on_read-IsGated e gen false non_object s v = rearm_read-IsGated gen s v
on_read-IsGated e gen false (object m) s v =
    rearm_read-IsGated gen (dispatch e gen m s) (dispatch-IsGated e gen m s v)
