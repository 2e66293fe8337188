-- ===== src/Session/Alive.antt =====
-- The reconnect loop: short of a close by the user, a session is connected, connecting, or waiting
-- for its reconnect timer, and the delay of that timer stays in its range. Here: errors, the connect
-- chain and the timer.
pub mod Step
use bybit_cpp_api.Base.{
  ℕ, ◌≤◌, ◌-◌, String, ◌≡◌, refl, ◌⊎◌, Bool, true, false, Option, none, some, List, arith, is_some,
}
use bybit_cpp_api.Session.State.{
  Session, Env, Op, Stage, Frame, Message, idle, reading, malformed, non_object, object,
}
use bybit_cpp_api.Session.Topics.{enqueue_op, add_topic, remove_topic, flush_topics}
use bybit_cpp_api.Session.Connect.{
  send_auth, tear_down, handle_error, start_connect, on_resolve, on_connect, on_ssl_handshake,
  on_handshake, close_by_user,
}
use bybit_cpp_api.Session.Cases.{dispatch_cases}
use bybit_cpp_api.Session.Inbound.{
  flag_or_true, settle_op, on_subscribe_ack, answered_op, on_authenticated, dispatch, rearm_read,
  on_read,
}
use bybit_cpp_api.Session.Timers.{on_ping_timer, on_reconnect_timer, on_write}
use bybit_cpp_api.Session.Events.{
  Event, subscribe, flush_task, unsubscribe, unsubscribe_task, close_task, resolved, tcp_connected,
  tls_done, upgraded, frame_read, written, ping_fired, reconnect_fired, unsubscribe_posted,
  fire_reconnect, step,
}
use bybit_cpp_api.Session.Link.{
  Link, link, link-pump, link-enqueue_op, link-flush_topics, link-add_topic, link-remove_topic,
}

-- An operation of the connect chain is out.
abbrev pub is_chain : Stage → Bool
is_chain idle = false
is_chain reading = false
is_chain _ = true

-- The generation of the wait that is out.
abbrev pub ArmedFor : Option (ℕ × ℕ) → ℕ → Type 0
ArmedFor none gen = ⊥
ArmedFor (some (g, delay)) gen = g ≡ gen

pub record IsAlive (l : Link) : Type 0 where
  pub busy :
      l.user_closed ≡ false
      → ((l.connected ≡ true) × (l.stage ≡ reading))
        ⊎ (is_chain l.stage ≡ true)
        ⊎ (l.reconnect_scheduled ≡ true)
  pub armed : l.reconnect_scheduled ≡ true → ArmedFor l.reconnect_timer l.generation
  pub off : l.reconnect_scheduled ≡ true → l.connected ≡ false
  pub waiting : is_some l.reconnect_timer ≡ true → l.reconnect_scheduled ≡ true
  pub chain_off : is_chain l.stage ≡ true → (l.connected ≡ false) × (l.reconnect_scheduled ≡ false)
  pub delay_pos : 1 ≤ l.reconnect_delay_s
  pub delay_le : l.reconnect_delay_s ≤ 30

-- The same without `busy`: what holds inside a handler, while the completed operation is not armed
-- again.
pub record IsSound (l : Link) : Type 0 where
  pub armed : l.reconnect_scheduled ≡ true → ArmedFor l.reconnect_timer l.generation
  pub off : l.reconnect_scheduled ≡ true → l.connected ≡ false
  pub waiting : is_some l.reconnect_timer ≡ true → l.reconnect_scheduled ≡ true
  pub delay_pos : 1 ≤ l.reconnect_delay_s
  pub delay_le : l.reconnect_delay_s ≤ 30

handle_error-IsAlive :
    (s : Session) (gen : ℕ)
    → IsSound (link s)
    → gen ≡ s.generation
    → is_chain s.stage ≡ false
    → IsAlive (link (handle_error gen s))
unfolding handle_error tear_down
handle_error-IsAlive s gen v g c = ground arith

handle_error_late-IsAlive :
    (s : Session) (gen : ℕ)
    → IsAlive (link s)
    → is_chain s.stage ≡ false
    → IsAlive (link (handle_error gen s))
unfolding handle_error tear_down
handle_error_late-IsAlive s gen v c = ground arith

start_connect-IsAlive :
    (s : Session)
    → IsSound (link s)
    → s.reconnect_scheduled ≡ false
    → s.user_closed ≡ false
    → IsAlive (link (start_connect s))
unfolding start_connect
start_connect-IsAlive s v u c = ground arith

pub chain-IsAlive :
    (e : Env) (s : Session) (gen : ℕ) (failed sni_failed : Bool) (port : String)
    → IsAlive (link s)
    → IsAlive (link (step e s (resolved gen failed)))
      × IsAlive (link (step e s (tcp_connected gen failed sni_failed port)))
      × IsAlive (link (step e s (tls_done gen failed)))
unfolding step on_resolve on_connect on_ssl_handshake
chain-IsAlive e s gen failed sni_failed port v = (
  ground (arith, handle_error-IsAlive (record s { stage = idle }) gen),
  ground (arith, handle_error-IsAlive (record s { stage = idle }) gen),
  ground (arith, handle_error-IsAlive (record s { stage = idle }) gen),
)

pub link-send_auth : (e : Env) (s : Session) → link (send_auth e s) ≡ link s
unfolding send_auth enqueue_op
link-send_auth e s = link-pump e _

up-IsAlive :
    (e : Env) (s t : Session) (gen : ℕ)
    → IsAlive (link s)
    → link t
      ≡ link
          (record s { stage = idle; connected = true; last_pong_time = e.now; ping_timer = true })
    → s.reconnect_scheduled ≡ false
    → IsAlive (link (record t { stage = reading }))
up-IsAlive e s t gen v l u = ground arith

pub upgraded-IsAlive :
    (e : Env) (s : Session) (gen : ℕ) (failed : Bool)
    → IsAlive (link s)
    → IsAlive (link (step e s (upgraded gen failed)))
unfolding step on_handshake
upgraded-IsAlive e s gen failed v =
    let up : Session = record s {
      stage = idle;
      connected = true;
      last_pong_time = e.now;
      ping_timer = true;
    } in
    ground (
      arith,
      handle_error-IsAlive (record s { stage = idle }) gen,
      link-send_auth e up,
      link-flush_topics e up,
    )

pub fire_reconnect-IsAlive :
    (timer : Option (ℕ × ℕ)) (s : Session)
    → IsAlive (link s)
    → s.reconnect_timer ≡ timer
    → IsAlive (link (fire_reconnect timer s))
unfolding fire_reconnect on_reconnect_timer start_connect
fire_reconnect-IsAlive none s v h = v
fire_reconnect-IsAlive (some (gen, delay)) s v h = ground arith
