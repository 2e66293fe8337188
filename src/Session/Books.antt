-- ===== src/Session/Books.antt =====
-- The topics of a session, sent ones before pending ones: which events change them.
pub mod Step
pub mod Calls
use mathlib.Core.List.{reverse-append, reverse-reverse}
use bybit_cpp_api.Base.{
  ℕ, String, ◌≡◌, refl, sym, ap, ◌∙◌, Bool, true, false, not, ◌&&◌, Option, none, some, List, [],
  ◌∷◌, ◌++◌, reverse, append-nil, append_assoc, arith, Bool-cases, inl, inr, if-elim, ◌is◌,
}
use bybit_cpp_api.Session.State.{Session, Env, Op, Frame, Message, malformed, non_object, object}
use bybit_cpp_api.Session.Topics.{enqueue_op, write_front, pump, flush_pending, flush_topics}
use bybit_cpp_api.Session.Connect.{send_auth, push_fronts, tear_down, handle_error}
use bybit_cpp_api.Session.Inbound.{
  text_or_empty, flag_or_true, is_api_control_msg, settle_op, on_subscribe_ack, answered_op,
  on_authenticated, handle_api_control_msg, dispatch, rearm_read, on_read,
}

-- The topics that a session asks its venue for, in order.
abbrev pub books : Session → List String
books s = s.subscriptions ++ s.pending_topics

pub push_fronts-append : (ts pending : List String) → push_fronts ts pending ≡ reverse ts ++ pending
unfolding push_fronts
push_fronts-append [] pending = refl
push_fronts-append (t ∷ ts) pending =
    push_fronts-append ts (t ∷ pending)
    ∙ (sym (append_assoc (reverse ts) (t ∷ []) pending)
        ∙ ap (λ l. l ++ pending) (sym (reverse-append (t ∷ []) ts)))

pub push_fronts-reverse :
    (ts pending : List String) → push_fronts (reverse ts) pending ≡ ts ++ pending
push_fronts-reverse ts pending =
    push_fronts-append (reverse ts) pending ∙ ap (λ l. l ++ pending) (reverse-reverse ts)

books-write_front : (ops : List Op) (s : Session) → books (write_front ops s) ≡ books s
unfolding write_front
books-write_front [] s = refl
books-write_front (op ∷ ops) s = refl

pub books-pump : (e : Env) (s : Session) → books (pump e s) ≡ books s
unfolding pump
books-pump e s = ground (arith, books-write_front s.outbound_queue s)

pub books-send_auth : (e : Env) (s : Session) → books (send_auth e s) ≡ books s
unfolding send_auth enqueue_op
books-send_auth e s = books-pump e _

books-flush_pending :
    (e : Env) (ts : List String) (s : Session)
    → s.pending_topics ≡ ts
    → books (flush_pending e ts s) ≡ books s
unfolding flush_pending enqueue_op
books-flush_pending e [] s h = refl
books-flush_pending e (t ∷ ts) s h =
    books-pump e _
    ∙ (append-nil (s.subscriptions ++ t ∷ ts) ∙ ap (λ l. s.subscriptions ++ l) (sym h))

pub books-flush_topics : (e : Env) (s : Session) → books (flush_topics e s) ≡ books s
unfolding flush_topics
books-flush_topics e s = ground (arith, books-flush_pending e s.pending_topics s refl)

-- An error moves the sent topics back before the pending ones: nothing is lost or reordered.
pub books-handle_error : (gen : ℕ) (s : Session) → books (handle_error gen s) ≡ books s
unfolding handle_error tear_down
books-handle_error gen s = ground (arith, push_fronts-reverse s.subscriptions s.pending_topics)

pub books-on_authenticated : (e : Env) (s : Session) → books (on_authenticated e s) ≡ books s
unfolding on_authenticated
books-on_authenticated e s = books-flush_topics e _

pub books-rearm_read : (gen : ℕ) (s : Session) → books (rearm_read gen s) ≡ books s
unfolding rearm_read
books-rearm_read gen s = ground arith

books-settle_op :
    (found : Option (ℕ × List String)) (s : Session) → books (settle_op found true s) ≡ books s
unfolding settle_op
books-settle_op none s = refl
books-settle_op (some (id, topics)) s = refl

-- The ack of a subscribe that the venue rejected.
abbrev pub is_rejection : Frame → Bool
is_rejection malformed = false
is_rejection non_object = false
is_rejection (object m) =
    is_api_control_msg m && (text_or_empty m.op is "subscribe") && not (flag_or_true m.success)

books-on_subscribe_ack :
    (m : Message) (b : Bool) (s : Session)
    → b ≡ true
    → books (on_subscribe_ack m.req_id b s) ≡ books s
unfolding on_subscribe_ack
books-on_subscribe_ack m true s h = books-settle_op (answered_op m.req_id s.inflight_subscribes) s
books-on_subscribe_ack m false s h = cc

books-dispatch :
    (e : Env) (gen : ℕ) (m : Message) (s : Session)
    → is_rejection (object m) ≡ false
    → books (dispatch e gen m s) ≡ books s
unfolding dispatch handle_api_control_msg
books-dispatch e gen m s h = ground (
  arith,
  books-on_authenticated e s,
  books-handle_error gen s,
  books-on_subscribe_ack m (flag_or_true m.success) s,
)

pub books-on_read :
    (e : Env) (gen : ℕ) (failed : Bool) (frame : Frame) (s : Session)
    → is_rejection frame ≡ false
    → books (on_read e gen failed frame s) ≡ books s
unfolding on_read
books-on_read e gen true frame s h = books-handle_error gen s
books-on_read e gen false malformed s h = books-handle_error gen s
books-on_read e gen false non_object s h = books-rearm_read gen s
books-on_read e gen false (object m) s h =
    books-rearm_read gen (dispatch e gen m s) ∙ books-dispatch e gen m s h
