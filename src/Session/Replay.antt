-- ===== src/Session/Replay.antt =====
-- A reconnect that succeeds: the topics are asked for again, in one frame.
use Prim.Native.String.{◌++◌ as concat}
use bybit_cpp_api.Base.{
  ℕ, ◌+◌, String, ◌≡◌, refl, ap, ◌∙◌, true, false, Option, none, some, List, [], ◌∷◌, ◌++◌, arith,
}
use bybit_cpp_api.Session.State.{Session, Env, Op, Stage}
use bybit_cpp_api.Session.Topics.{enqueue_op, write_front, pump, flush_pending, flush_topics}
use bybit_cpp_api.Session.Connect.{
  start_connect, on_resolve, on_connect, on_ssl_handshake, on_handshake,
}
use bybit_cpp_api.Session.Timers.{on_reconnect_timer}
use bybit_cpp_api.Session.Events.{
  resolved, tcp_connected, tls_done, upgraded, reconnect_fired, fire_reconnect, step,
}
use bybit_cpp_api.Session.Link.{link-flush_pending}
use bybit_cpp_api.Session.Alive.{ArmedFor}
use bybit_cpp_api.Session.Books.{books}
use bybit_cpp_api.Session.Running.{IsRunning}
use bybit_cpp_api.Session.Loop.{IsWaiting}

-- The four completions of a connect chain that succeeds, under a generation.
unfoldable pub connect_up : Env → ℕ → String → Session → Session
connect_up e gen port s =
    step e
      (step e (step e (step e s (resolved gen false)) (tcp_connected gen false false port))
        (tls_done gen false))
      (upgraded gen false)

-- The chain before its handshake moves no topic and writes nothing.
chain_up_lem :
    (e : Env) (port : String) (s : Session)
    → s.stage ≡ Stage.resolving
    → (h : String) × (connect_up e s.generation port s
        ≡ step e
            (record s { stage = Stage.upgrading; host_header = h })
            (upgraded s.generation false))
unfolding connect_up step on_resolve on_connect on_ssl_handshake
chain_up_lem e port s g = (concat s.host (concat ":" port), ground arith)

flush_sends :
    (e : Env) (t : String) (ts : List String) (s : Session)
    → e.open_stream ≡ true
    → s.connected ≡ true
    → s.has_ws ≡ true
    → s.write_in_flight ≡ false
    → s.outbound_queue ≡ []
    → let u = flush_pending e (t ∷ ts) s in
      (u.subscriptions ≡ s.subscriptions ++ t ∷ ts)
      × (u.pending_topics ≡ [])
      × (u.wire ≡ (s.generation, Op.subscribe (s.req_id_counter + 1) (t ∷ ts)) ∷ s.wire)
unfolding flush_pending enqueue_op pump write_front
flush_sends e t ts s o c w f q = (ground arith, ground arith, ground arith)

-- The session as the reconnect timer leaves it.
abbrev restarted : Session → Session
restarted s = record s {
  reconnect_timer = none;
  reconnect_scheduled = false;
  generation = s.generation + 1;
  connected = false;
  authenticated = false;
  authenticated_flag = false;
  write_in_flight = false;
  auth_deadline = none;
  host_header = s.host;
  has_ws = true;
  stage = Stage.resolving;
  writes_out = 0;
}

fire_lem :
    (timer : Option (ℕ × ℕ)) (s : Session)
    → s.user_closed ≡ false
    → ArmedFor timer s.generation
    → fire_reconnect timer s ≡ restarted s
unfolding fire_reconnect on_reconnect_timer start_connect
fire_lem none s c a = absurd a
fire_lem (some (gen, delay)) s c a = ground arith

-- The reconnect timer fires and every operation of the connect chain succeeds.
unfoldable pub reconnected : Env → String → Session → Session
reconnected e port s = connect_up e (s.generation + 1) port (step e s reconnect_fired)

handshake_sends :
    (e : Env) (t : String) (ts : List String) (s : Session)
    → e.open_stream ≡ true
    → s.stage ≡ Stage.upgrading
    → s.user_closed ≡ false
    → s.auth_required ≡ false
    → s.has_ws ≡ true
    → s.write_in_flight ≡ false
    → s.outbound_queue ≡ []
    → s.pending_topics ≡ t ∷ ts
    → let u = step e s (upgraded s.generation false) in
      (u.connected ≡ true)
      × (u.subscriptions ≡ s.subscriptions ++ t ∷ ts)
      × (u.pending_topics ≡ [])
      × (u.wire ≡ (s.generation, Op.subscribe (s.req_id_counter + 1) (t ∷ ts)) ∷ s.wire)
unfolding step on_handshake flush_topics
handshake_sends e t ts s o g c a w f q p =
    let up : Session = record s {
      stage = Stage.idle;
      connected = true;
      last_pong_time = e.now;
      ping_timer = true;
    } in
    let sent = flush_sends e t ts up o refl w f q in
    let live = link-flush_pending e (t ∷ ts) up in
    (ground (arith, sent, live), ground (arith, sent), ground (arith, sent), ground (arith, sent))

-- A public session that waits for its reconnect timer asks for all its topics again when the timer
-- fires and the connect chain succeeds: one subscribe frame, sent at once on the new connection,
-- names them all in their order, and none is left pending.
pub replay :
    (e : Env) (port : String) (d : ℕ) (t : String) (ts : List String) (s : Session)
    → IsRunning s
    → IsWaiting d s
    → s.auth_required ≡ false
    → e.open_stream ≡ true
    → books s ≡ t ∷ ts
    → let u = reconnected e port s in
      (u.connected ≡ true)
      × (u.subscriptions ≡ t ∷ ts)
      × (u.pending_topics ≡ [])
      × (u.wire ≡ (s.generation + 1, Op.subscribe (s.req_id_counter + 1) (t ∷ ts)) ∷ s.wire)
unfolding reconnected step
replay e port d t ts s v w a o b =
    let off = v.alive.off w.scheduled in
    let nothing_sent = v.sent.offline_topics off in
    let idle_queue = v.gated.offline off in
    let pending : s.pending_topics ≡ t ∷ ts = rw nothing_sent at b in
    let fired = fire_lem s.reconnect_timer s w.not_closed w.armed in
    let (h, chain) = chain_up_lem e port (restarted s) refl in
    let ready : Session = record (restarted s) { stage = Stage.upgrading; host_header = h } in
    let sent = handshake_sends e t ts ready o refl w.not_closed a refl refl idle_queue pending in
    rw (fired, chain) (sent.0, sent.1 ∙ ap (λ l. l ++ t ∷ ts) nothing_sent, sent.2, sent.3)
