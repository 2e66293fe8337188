-- ===== src/Session/Loop.antt =====
-- The reconnect loop: stale completions, bursts of errors, a closed session, and the backoff.
use native.Mathlib.Decide.{dec_le}
use native.Mathlib.Nat.{pow-suc, one-le-pow}
use bybit_cpp_api.Base.{
  ℕ, suc, ◌+◌, ◌*◌, ◌^◌, ◌≤◌, min, ◌≡◌, ◌≢◌, refl, ap, true, false, Option, none, some, List, [],
  ◌∷◌, String, length, arith,
}
use bybit_cpp_api.Session.State.{
  Session, Env, Op, Stage, Frame, auth_expires_offset_in_ms, auth_ack_timeout_in_s,
}
use bybit_cpp_api.Session.Connect.{
  send_auth, handle_error, tear_down, start_connect, on_resolve, on_connect, on_ssl_handshake,
  on_handshake,
}
use bybit_cpp_api.Session.Topics.{enqueue_op}
use bybit_cpp_api.Session.Inbound.{on_read}
use bybit_cpp_api.Session.Link.{link, link-pump, link-enqueue_op, link-flush_topics}
use bybit_cpp_api.Session.Timers.{on_ping_timer, on_reconnect_timer}
use bybit_cpp_api.Session.Alive.{ArmedFor}
use bybit_cpp_api.Session.Events.{
  control_received, Event, subscribe, flush_task, unsubscribe, unsubscribe_task, close_task,
  resolved, tcp_connected, tls_done, upgraded, frame_read, written, ping_fired, reconnect_fired,
  fire_reconnect, step,
}

-- The generation that a completion was started under.
abbrev pub event_generation : Event → Option ℕ
event_generation (resolved gen failed) = some gen
event_generation (tcp_connected gen failed sni_failed port) = some gen
event_generation (tls_done gen failed) = some gen
event_generation (upgraded gen failed) = some gen
event_generation (frame_read gen failed frame) = some gen
event_generation (written gen failed) = some gen
event_generation (ping_fired gen cancelled) = some gen
event_generation _ = none

-- A completion that was started under another generation changes nothing.
pub step_stale :
    (e : Env) (s : Session) (ev : Event) (gen : ℕ)
    → event_generation ev ≡ some gen
    → gen ≢ s.generation
    → step e s ev ≡ s
unfolding step on_ping_timer
step_stale e s (resolved g failed) gen h n = ground arith
step_stale e s (tcp_connected g failed sni_failed port) gen h n = ground arith
step_stale e s (tls_done g failed) gen h n = ground arith
step_stale e s (upgraded g failed) gen h n = ground arith
step_stale e s (frame_read g failed frame) gen h n = ground arith
step_stale e s (written g failed) gen h n = ground arith
step_stale e s (ping_fired g cancelled) gen h n = ground arith
step_stale e s (subscribe t) gen h n = cc
step_stale e s flush_task gen h n = cc
step_stale e s (unsubscribe t) gen h n = cc
step_stale e s (unsubscribe_task t) gen h n = cc
step_stale e s close_task gen h n = cc
step_stale e s reconnect_fired gen h n = cc
step_stale e s (control_received pong) gen h n = cc

-- Of several errors on one connection only the first has an effect.
pub handle_error_idem :
    (gen gen' : ℕ) (s : Session)
    → gen ≡ s.generation
    → handle_error gen' (handle_error gen s) ≡ handle_error gen s
unfolding handle_error tear_down
handle_error_idem gen gen' s h = ground arith

-- The session waits for its reconnect timer, with `d` seconds for the wait after this one.
pub record IsWaiting (d : ℕ) (s : Session) : Type 0 where
  pub not_closed : s.user_closed ≡ false
  pub scheduled : s.reconnect_scheduled ≡ true
  pub armed : ArmedFor s.reconnect_timer s.generation
  pub next_delay : s.reconnect_delay_s ≡ d

-- Under way with an attempt of a generation: the stage that it is at, and the delay of the next wait.
record IsTrying (g d : ℕ) (st : Stage) (s : Session) : Type 0 where
  open_still : s.user_closed ≡ false
  unscheduled : s.reconnect_scheduled ≡ false
  current : s.generation ≡ g
  delay : s.reconnect_delay_s ≡ d
  at : s.stage ≡ st

calm-IsTrying :
    (g d : ℕ) (st : Stage) (s t : Session) → IsTrying g d st s → link t ≡ link s → IsTrying g d st t
calm-IsTrying g d st s t w h = ground arith

-- Where an attempt fails: in one of the four operations of the connect chain, or at the first read of a
-- connection that came up.
pub data Fault : Type 0 where
  no_address no_connection no_tls no_upgrade no_frame : Fault

fire_reconnect-IsTrying :
    (timer : Option (ℕ × ℕ)) (d : ℕ) (s : Session)
    → IsWaiting d s
    → s.reconnect_timer ≡ timer
    → IsTrying (s.generation + 1) d Stage.resolving (fire_reconnect timer s)
unfolding fire_reconnect on_reconnect_timer start_connect
fire_reconnect-IsTrying none d s w h = ground arith
fire_reconnect-IsTrying (some (gen, delay)) d s w h = ground arith

-- The attempt up to a stage.
unfoldable pub to_resolve : Env → Session → Session
to_resolve e s = step e s reconnect_fired

unfoldable pub to_connect : Env → Session → Session
unfolding to_resolve
to_connect e s = step e (to_resolve e s) (resolved (s.generation + 1) false)

unfoldable pub to_tls : Env → String → Session → Session
unfolding to_connect
to_tls e port s = step e (to_connect e s) (tcp_connected (s.generation + 1) false false port)

unfoldable pub to_upgrade : Env → String → Session → Session
unfolding to_tls
to_upgrade e port s = step e (to_tls e port s) (tls_done (s.generation + 1) false)

unfoldable pub to_read : Env → String → Session → Session
unfolding to_upgrade
to_read e port s = step e (to_upgrade e port s) (upgraded (s.generation + 1) false)

to_resolve-IsTrying :
    (e : Env) (d : ℕ) (s : Session)
    → IsWaiting d s
    → IsTrying (s.generation + 1) d Stage.resolving (to_resolve e s)
unfolding to_resolve step
to_resolve-IsTrying e d s w = fire_reconnect-IsTrying s.reconnect_timer d s w refl

resolved-IsTrying :
    (e : Env) (g d : ℕ) (s : Session)
    → IsTrying g d Stage.resolving s
    → IsTrying g d Stage.connecting (step e s (resolved g false))
unfolding step on_resolve
resolved-IsTrying e g d s w = ground arith

tcp_connected-IsTrying :
    (e : Env) (port : String) (g d : ℕ) (s : Session)
    → IsTrying g d Stage.connecting s
    → IsTrying g d Stage.tls (step e s (tcp_connected g false false port))
unfolding step on_connect
tcp_connected-IsTrying e port g d s w = ground arith

tls_done-IsTrying :
    (e : Env) (g d : ℕ) (s : Session)
    → IsTrying g d Stage.tls s
    → IsTrying g d Stage.upgrading (step e s (tls_done g false))
unfolding step on_ssl_handshake
tls_done-IsTrying e g d s w = ground arith

on_handshake-IsTrying :
    (e : Env) (g d : ℕ) (s : Session)
    → s.user_closed ≡ false
    → s.reconnect_scheduled ≡ false
    → s.generation ≡ g
    → s.reconnect_delay_s ≡ d
    → IsTrying g d Stage.reading (on_handshake e g false s)
unfolding on_handshake send_auth
on_handshake-IsTrying e g d s a b c k =
    let up : Session = record s { connected = true; last_pong_time = e.now; ping_timer = true } in
    let expires = e.wall + auth_expires_offset_in_ms in
    let op = Op.auth up.api_key expires (up.sign up.api_secret expires) in
    let asked : Session = record up {
      auth_deadline = some (e.now + auth_ack_timeout_in_s * 1000);
    } in
    ground
      (arith, link-flush_topics e up, link-enqueue_op op asked, link-pump e (enqueue_op op asked))

upgraded-IsTrying :
    (e : Env) (g d : ℕ) (s : Session)
    → IsTrying g d Stage.upgrading s
    → IsTrying g d Stage.reading (step e s (upgraded g false))
unfolding step
upgraded-IsTrying e g d s w = ground (
  arith,
  on_handshake-IsTrying e g d (record s { stage = Stage.idle }) w.open_still w.unscheduled w.current
      w.delay,
)

-- An error on the way: the session waits, and the delay after that wait is twice as long, at most 30.
handle_error-IsWaiting :
    (g d : ℕ) (s : Session)
    → s.user_closed ≡ false
    → s.reconnect_scheduled ≡ false
    → s.generation ≡ g
    → s.reconnect_delay_s ≡ d
    → IsWaiting (min (d * 2) 30) (handle_error g s)
unfolding handle_error tear_down
handle_error-IsWaiting g d s a b c k = ground arith

failed-IsWaiting :
    (e : Env) (port : String) (g d : ℕ) (st : Stage) (s : Session)
    → IsTrying g d st s
    → IsWaiting (min (d * 2) 30) (handle_error g (record s { stage = Stage.idle }))
failed-IsWaiting e port g d st s w =
    handle_error-IsWaiting g d (record s { stage = Stage.idle }) w.open_still w.unscheduled
      w.current w.delay

-- An attempt that fails.
unfoldable pub attempt : Env → String → Fault → Session → Session
unfolding to_resolve to_connect to_tls to_upgrade to_read
attempt e port Fault.no_address s = step e (to_resolve e s) (resolved (s.generation + 1) true)
attempt e port Fault.no_connection s =
    step e (to_connect e s) (tcp_connected (s.generation + 1) true false port)
attempt e port Fault.no_tls s = step e (to_tls e port s) (tls_done (s.generation + 1) true)
attempt e port Fault.no_upgrade s = step e (to_upgrade e port s) (upgraded (s.generation + 1) true)
attempt e port Fault.no_frame s =
    step e (to_read e port s) (frame_read (s.generation + 1) true Frame.malformed)

to_connect-IsTrying :
    (e : Env) (d : ℕ) (s : Session)
    → IsWaiting d s
    → IsTrying (s.generation + 1) d Stage.connecting (to_connect e s)
unfolding to_connect
to_connect-IsTrying e d s w =
    resolved-IsTrying e (s.generation + 1) d (to_resolve e s) (to_resolve-IsTrying e d s w)

to_tls-IsTrying :
    (e : Env) (port : String) (d : ℕ) (s : Session)
    → IsWaiting d s
    → IsTrying (s.generation + 1) d Stage.tls (to_tls e port s)
unfolding to_tls
to_tls-IsTrying e port d s w =
    tcp_connected-IsTrying e port (s.generation + 1) d (to_connect e s)
      (to_connect-IsTrying e d s w)

to_upgrade-IsTrying :
    (e : Env) (port : String) (d : ℕ) (s : Session)
    → IsWaiting d s
    → IsTrying (s.generation + 1) d Stage.upgrading (to_upgrade e port s)
unfolding to_upgrade
to_upgrade-IsTrying e port d s w =
    tls_done-IsTrying e (s.generation + 1) d (to_tls e port s) (to_tls-IsTrying e port d s w)

to_read-IsTrying :
    (e : Env) (port : String) (d : ℕ) (s : Session)
    → IsWaiting d s
    → IsTrying (s.generation + 1) d Stage.reading (to_read e port s)
unfolding to_read
to_read-IsTrying e port d s w =
    upgraded-IsTrying e (s.generation + 1) d (to_upgrade e port s)
      (to_upgrade-IsTrying e port d s w)

-- A failed attempt leaves the session waiting again, with the delay after that wait doubled.
attempt_waits :
    (e : Env) (port : String) (fault : Fault) (d : ℕ) (s : Session)
    → IsWaiting d s
    → IsWaiting (min (d * 2) 30) (attempt e port fault s)
unfolding attempt step on_resolve on_connect on_ssl_handshake on_handshake on_read
attempt_waits e port Fault.no_address d s w =
    let t = to_resolve-IsTrying e d s w in
    ground (arith, failed-IsWaiting e port (s.generation + 1) d Stage.resolving (to_resolve e s) t)
attempt_waits e port Fault.no_connection d s w =
    let t = to_connect-IsTrying e d s w in
    ground (arith, failed-IsWaiting e port (s.generation + 1) d Stage.connecting (to_connect e s) t)
attempt_waits e port Fault.no_tls d s w =
    let t = to_tls-IsTrying e port d s w in
    ground (arith, failed-IsWaiting e port (s.generation + 1) d Stage.tls (to_tls e port s) t)
attempt_waits e port Fault.no_upgrade d s w =
    let t = to_upgrade-IsTrying e port d s w in
    ground
      (arith, failed-IsWaiting e port (s.generation + 1) d Stage.upgrading (to_upgrade e port s) t)
attempt_waits e port Fault.no_frame d s w =
    let t = to_read-IsTrying e port d s w in
    ground (arith, failed-IsWaiting e port (s.generation + 1) d Stage.reading (to_read e port s) t)

unfoldable pub attempts : Env → String → List Fault → Session → Session
attempts e port [] s = s
attempts e port (fault ∷ faults) s = attempts e port faults (attempt e port fault s)

at_least : (p d : ℕ) → 1 ≤ p → d ≤ p * d
at_least p d h = grind arith

doubled_at : (p d : ℕ) → 1 ≤ p → min (p * min (d * 2) 30) 30 ≡ min (p * 2 * d) 30
doubled_at p d h = elim (dec_le (d * 2) 30) [
  | yes small ↦
      let e : min (d * 2) 30 ≡ d * 2 = omega arith in rw e (ap (λ x. min x 30) (omega arith))
  | no large ↦
      let e : min (d * 2) 30 ≡ 30 = omega arith in
      rw e (omega (arith, at_least p 30 h, at_least p (d * 2) h))
]

-- After `n` connect attempts that failed, each at any of the four operations of its chain or, once it had
-- come up, at its first read, the next delay is `2 ^ n` times what it was, and at most 30 seconds.
pub attempts_backoff :
    (e : Env) (port : String) (faults : List Fault) (d : ℕ) (s : Session)
    → d ≤ 30
    → IsWaiting d s
    → IsWaiting (min (2 ^ length faults * d) 30) (attempts e port faults s)
unfolding attempts
attempts_backoff e port [] d s h w = let same : min (2 ^ 0 * d) 30 ≡ d = omega arith in rw same w
attempts_backoff e port (fault ∷ faults) d s h w =
    let n = length faults in
    let next =
      attempts_backoff e port faults (min (d * 2) 30) (attempt e port fault s) (omega arith)
        (attempt_waits e port fault d s w) in
    let same : min (2 ^ n * min (d * 2) 30) 30 ≡ min (2 ^ suc n * d) 30 =
      rw pow-suc (doubled_at (2 ^ n) d (one-le-pow n 2 (omega arith))) in
    rw same at next
