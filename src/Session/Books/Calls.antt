-- ===== src/Session/Books/Calls.antt =====
-- `subscribe`, `unsubscribe` and rejected acks, and the topics of a session.
use bybit_cpp_api.Base.{
  ℕ, String, ◌≡◌, Bool, true, false, not, ◌&&◌, Option, none, some, List, [], ◌∷◌, ◌++◌,
  append_assoc, arith, contains, remove_all, erase_first, Distinct, ◌is◌, is_refl, is-eq,
  contains-append, contains-remove_all, contains-erase_first_ne, contains-erase_first_self,
  Distinct-erase_first, Distinct-remove_all, Distinct-snoc, Distinct-append_left, if◌then◌else◌,
}
use bybit_cpp_api.Session.State.{Session, Env, Frame, Message, malformed, non_object, object}
use bybit_cpp_api.Session.Topics.{add_topic, remove_topic, is_subscribed}
use bybit_cpp_api.Session.Cases.{dispatch_cases}
use bybit_cpp_api.Session.Inbound.{
  flag_or_true, prune, settle_op, on_subscribe_ack, answered_op, dispatch, on_read,
}
use bybit_cpp_api.Session.Books.{
  books, books-handle_error, books-on_authenticated, books-rearm_read,
}

pub is_subscribed-books : (s : Session) (t : String) → is_subscribed s t ≡ contains (books s) t
unfolding is_subscribed
is_subscribed-books s t = ground (arith, contains-append s.subscriptions s.pending_topics t)

-- A call of subscribe adds its topic at the end, unless the session has it already; nothing else
-- changes, and the topic is subscribed afterwards.
pub books-add_topic :
    (t : String) (s : Session)
    → (books (add_topic t s) ≡ (if is_subscribed s t then books s else books s ++ t ∷ []))
      × (is_subscribed (add_topic t s) t ≡ true)
unfolding add_topic is_subscribed contains
books-add_topic t s = (
  ground (arith, append_assoc s.subscriptions s.pending_topics (t ∷ [])),
  ground (arith, contains-append s.pending_topics (t ∷ []) t, is_refl t),
)

-- After a call of unsubscribe the topic is not subscribed, every other topic is as subscribed as
-- before, and the venue is to be told exactly if the topic's subscribe was sent.
pub remove_topic_lem :
    (t u : String) (s : Session)
    → Distinct (books s)
    → (is_subscribed (remove_topic t s).0 u ≡ (is_subscribed s u && not (t is u)))
      × ((remove_topic t s).1 ≡ contains s.subscriptions t)
unfolding remove_topic is_subscribed
remove_topic_lem t u s d =
    let first = Distinct-append_left s.subscriptions s.pending_topics d in
    (
      ground (
        arith,
        contains-remove_all t u s.pending_topics,
        contains-erase_first_ne t u s.subscriptions,
        contains-erase_first_self t s.subscriptions first,
        is-eq t u,
      ),
      ground arith,
    )

pub add_topic-Distinct :
    (t : String) (s : Session) → Distinct (books s) → Distinct (books (add_topic t s))
unfolding is_subscribed
add_topic-Distinct t s d =
    ground (arith, (books-add_topic t s).0, is_subscribed-books s t, Distinct-snoc t (books s) d)

pub remove_topic-Distinct :
    (t : String) (s : Session) → Distinct (books s) → Distinct (books (remove_topic t s).0)
unfolding remove_topic
remove_topic-Distinct t s d = ground (
  arith,
  Distinct-remove_all t s.subscriptions s.pending_topics d,
  Distinct-erase_first t s.subscriptions (remove_all t s.pending_topics),
)

prune-Distinct :
    (ts subs pending : List String)
    → Distinct (subs ++ pending)
    → Distinct (prune ts subs ++ pending)
unfolding prune
prune-Distinct [] subs pending d = d
prune-Distinct (t ∷ ts) subs pending d =
    prune-Distinct ts (erase_first t subs) pending (Distinct-erase_first t subs pending d)

settle_op-Distinct :
    (found : Option (ℕ × List String)) (b : Bool) (s : Session)
    → Distinct (books s)
    → Distinct (books (settle_op found b s))
unfolding settle_op
settle_op-Distinct none b s d = d
settle_op-Distinct (some (id, topics)) true s d = d
settle_op-Distinct (some (id, topics)) false s d =
    prune-Distinct topics s.subscriptions s.pending_topics d

dispatch-Distinct :
    (e : Env) (gen : ℕ) (m : Message) (s : Session)
    → Distinct (books s)
    → Distinct (books (dispatch e gen m s))
unfolding on_subscribe_ack
dispatch-Distinct e gen m s d =
    dispatch_cases (λ t. Distinct (books t)) e gen m s d (rw (books-on_authenticated e s) d)
      (rw (books-handle_error gen s) d)
      (settle_op-Distinct (answered_op m.req_id s.inflight_subscribes) (flag_or_true m.success) s d)
      d d

pub on_read-Distinct :
    (e : Env) (gen : ℕ) (failed : Bool) (frame : Frame) (s : Session)
    → Distinct (books s)
    → Distinct (books (on_read e gen failed frame s))
unfolding on_read
on_read-Distinct e gen true frame s d = rw (books-handle_error gen s) d
on_read-Distinct e gen false malformed s d = rw (books-handle_error gen s) d
on_read-Distinct e gen false non_object s d = rw (books-rearm_read gen s) d
on_read-Distinct e gen false (object m) s d =
    rw (books-rearm_read gen (dispatch e gen m s)) (dispatch-Distinct e gen m s d)
