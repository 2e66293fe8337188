-- ===== src/Session/Link.antt =====
-- The flags of a session that say how far its connection is, apart from queues and topics. The
-- pump and the topic bookkeeping leave them alone.
use bybit_cpp_api.Base.{ℕ, String, ◌≡◌, refl, Bool, Option, List, [], ◌∷◌, arith}
use bybit_cpp_api.Session.State.{Session, Env, Op, Stage}
use bybit_cpp_api.Session.Topics.{
  enqueue_op, write_front, pump, add_topic, remove_topic, flush_pending, flush_topics,
}

pub record Link : Type 0 where
  pub generation : ℕ
  pub connected : Bool
  pub auth_required : Bool
  pub reconnect_scheduled : Bool
  pub user_closed : Bool
  pub stage : Stage
  pub reconnect_timer : Option (ℕ × ℕ)
  pub reconnect_delay_s : ℕ

abbrev pub link : Session → Link
link s = record {
  generation = s.generation;
  connected = s.connected;
  auth_required = s.auth_required;
  reconnect_scheduled = s.reconnect_scheduled;
  user_closed = s.user_closed;
  stage = s.stage;
  reconnect_timer = s.reconnect_timer;
  reconnect_delay_s = s.reconnect_delay_s;
}

link-write_front : (ops : List Op) (s : Session) → link (write_front ops s) ≡ link s
unfolding write_front
link-write_front [] s = refl
link-write_front (op ∷ ops) s = refl

pub link-pump : (e : Env) (s : Session) → link (pump e s) ≡ link s
unfolding pump
link-pump e s = ground (arith, link-write_front s.outbound_queue s)

pub link-enqueue_op : (op : Op) (s : Session) → link (enqueue_op op s) ≡ link s
unfolding enqueue_op
link-enqueue_op op s = refl

pub link-flush_pending :
    (e : Env) (ts : List String) (s : Session) → link (flush_pending e ts s) ≡ link s
unfolding flush_pending
link-flush_pending e [] s = refl
link-flush_pending e (t ∷ ts) s = link-pump e _

pub link-flush_topics : (e : Env) (s : Session) → link (flush_topics e s) ≡ link s
unfolding flush_topics
link-flush_topics e s = ground (arith, link-flush_pending e s.pending_topics s)

pub link-add_topic : (t : String) (s : Session) → link (add_topic t s) ≡ link s
unfolding add_topic
link-add_topic t s = ground arith

pub link-remove_topic : (t : String) (s : Session) → link (remove_topic t s).0 ≡ link s
unfolding remove_topic
link-remove_topic t s = ground arith
