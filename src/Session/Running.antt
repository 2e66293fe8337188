-- ===== src/Session/Running.antt =====
-- What holds of a session between any two events, once its first connect was started.
use bybit_cpp_api.Base.{ℕ, ◌≡◌, refl, Bool, false, none, List, [], ◌∷◌, arith, Distinct}
use bybit_cpp_api.Session.State.{Session, Env, Frame, idle}
use bybit_cpp_api.Session.Connect.{start_connect}
use bybit_cpp_api.Session.Events.{
  control_received, Event, subscribe, flush_task, unsubscribe, unsubscribe_task, close_task,
  resolved, tcp_connected, tls_done, upgraded, frame_read, written, ping_fired, reconnect_fired,
  step, exec,
}
use bybit_cpp_api.Session.Link.{link}
use bybit_cpp_api.Session.Alive.{IsAlive}
use bybit_cpp_api.Session.Alive.Step.{step-IsAlive}
use bybit_cpp_api.Session.Writer.{IsWriting}
use bybit_cpp_api.Session.Writer.Step.{step-IsWriting}
use bybit_cpp_api.Session.Gate.{IsGated, none_queued, none_sent, sent_by}
use bybit_cpp_api.Session.Gate.Step.{step-IsGated}
use bybit_cpp_api.Session.Books.{books}
use bybit_cpp_api.Session.Books.Step.{books-step}
use bybit_cpp_api.Session.Books.Calls.{add_topic-Distinct, remove_topic-Distinct, on_read-Distinct}
use bybit_cpp_api.Session.Sent.Handlers.{IsSentOnline}
use bybit_cpp_api.Session.Sent.Step.{step-IsSentOnline}

pub record IsRunning (s : Session) : Type 0 where
  pub alive : IsAlive (link s)
  pub writing : IsWriting s
  pub gated : IsGated s
  pub sent : IsSentOnline s
  pub distinct : Distinct (books s)

-- A session whose connection was never started: it may hold topics, all else is as built.
pub record IsFresh (s : Session) : Type 0 where
  pub not_closed : s.user_closed ≡ false
  pub not_scheduled : s.reconnect_scheduled ≡ false
  pub no_timer : s.reconnect_timer ≡ none
  pub first_delay : s.reconnect_delay_s ≡ 1
  pub nothing_queued : s.outbound_queue ≡ []
  pub nothing_sent : s.wire ≡ []
  pub no_topics_sent : s.subscriptions ≡ []
  pub no_ops : s.inflight_subscribes ≡ []
  pub no_repetition : Distinct s.pending_topics

start_connect-IsGated : (s : Session) → IsFresh s → IsGated (start_connect s)
unfolding start_connect none_queued none_sent sent_by
start_connect-IsGated s f = ground arith

start_connect-IsSentOnline : (s : Session) → IsFresh s → IsSentOnline (start_connect s)
unfolding start_connect
start_connect-IsSentOnline s f = ground arith

start_connect-Distinct : (s : Session) → IsFresh s → Distinct (books (start_connect s))
unfolding start_connect
start_connect-Distinct s f = ground arith

pub start_connect-IsRunning : (s : Session) → IsFresh s → IsRunning (start_connect s)
unfolding start_connect
start_connect-IsRunning s f = record {
  alive = ground arith;
  writing = ground arith;
  gated = start_connect-IsGated s f;
  sent = start_connect-IsSentOnline s f;
  distinct = start_connect-Distinct s f;
}

frame_read-Distinct :
    (e : Env) (s : Session) (gen : ℕ) (failed : Bool) (frame : Frame)
    → Distinct (books s)
    → Distinct (books (step e s (frame_read gen failed frame)))
unfolding step
frame_read-Distinct e s gen failed frame d =
    ground (arith, on_read-Distinct e gen failed frame (record s { stage = idle }))

step-Distinct :
    (e : Env) (s : Session) (ev : Event) → Distinct (books s) → Distinct (books (step e s ev))
unfolding step
step-Distinct e s (subscribe t) d = add_topic-Distinct t s d
step-Distinct e s (unsubscribe t) d = remove_topic-Distinct t s d
step-Distinct e s (frame_read gen failed frame) d = frame_read-Distinct e s gen failed frame d
step-Distinct e s flush_task d = rw (books-step e s flush_task refl) d
step-Distinct e s (unsubscribe_task t) d = rw (books-step e s (unsubscribe_task t) refl) d
step-Distinct e s close_task d = rw (books-step e s close_task refl) d
step-Distinct e s (resolved gen failed) d = rw (books-step e s (resolved gen failed) refl) d
step-Distinct e s (tcp_connected gen failed sni port) d =
    rw (books-step e s (tcp_connected gen failed sni port) refl) d
step-Distinct e s (tls_done gen failed) d = rw (books-step e s (tls_done gen failed) refl) d
step-Distinct e s (upgraded gen failed) d = rw (books-step e s (upgraded gen failed) refl) d
step-Distinct e s (written gen failed) d = rw (books-step e s (written gen failed) refl) d
step-Distinct e s (ping_fired gen cancelled) d =
    rw (books-step e s (ping_fired gen cancelled) refl) d
step-Distinct e s reconnect_fired d = rw (books-step e s reconnect_fired refl) d
step-Distinct e s (control_received pong) d = rw (books-step e s (control_received pong) refl) d

pub step-IsRunning : (e : Env) (s : Session) (ev : Event) → IsRunning s → IsRunning (step e s ev)
step-IsRunning e s ev v = record {
  alive = step-IsAlive e s ev v.alive (λ c. (v.writing.quiet c).1);
  writing = step-IsWriting e s ev v.writing;
  gated = step-IsGated e s ev v.alive v.gated;
  sent = step-IsSentOnline e s ev v.alive v.sent;
  distinct = step-Distinct e s ev v.distinct;
}

-- Each session that a fresh one reaches after its first connect was started, by calls of its user
-- and completions of its operations in any order, satisfies `IsRunning`.
pub exec-IsRunning : (s : Session) (evs : List (Env × Event)) → IsRunning s → IsRunning (exec s evs)
unfolding exec
exec-IsRunning s [] v = v
exec-IsRunning s ((e, ev) ∷ evs) v = exec-IsRunning (step e s ev) evs (step-IsRunning e s ev v)
