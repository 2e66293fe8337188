-- ===== src/Session/Books/Step.antt =====
-- Which events change the topics of a session.
use bybit_cpp_api.Base.{
  ℕ, ◌-◌, String, ◌≡◌, refl, Bool, true, false, Option, none, some, arith, not,
}
use bybit_cpp_api.Session.State.{Session, Env, Op, idle}
use bybit_cpp_api.Session.Topics.{enqueue_op}
use bybit_cpp_api.Session.Connect.{
  start_connect, on_resolve, on_connect, on_ssl_handshake, on_handshake, close_by_user,
}
use bybit_cpp_api.Session.Timers.{on_ping_timer, on_reconnect_timer, on_write}
use bybit_cpp_api.Session.Events.{
  control_received, on_control, Event, subscribe, flush_task, unsubscribe, unsubscribe_task,
  close_task, resolved, tcp_connected, tls_done, upgraded, frame_read, written, ping_fired,
  reconnect_fired, unsubscribe_posted, fire_reconnect, step,
}
use bybit_cpp_api.Session.Books.{
  books, books-pump, books-send_auth, books-flush_topics, books-handle_error, books-on_read,
  is_rejection,
}

-- The events that may change the topics: the calls of the user, and a rejected subscribe.
abbrev pub keeps_books : Event → Bool
keeps_books (subscribe t) = false
keeps_books (unsubscribe t) = false
keeps_books (frame_read gen failed frame) = not (is_rejection frame)
keeps_books _ = true

books-chain :
    (e : Env) (s : Session) (gen : ℕ) (failed sni_failed : Bool) (port : String)
    → (books (step e s (resolved gen failed)) ≡ books s)
      × (books (step e s (tcp_connected gen failed sni_failed port)) ≡ books s)
      × (books (step e s (tls_done gen failed)) ≡ books s)
unfolding step on_resolve on_connect on_ssl_handshake
books-chain e s gen failed sni_failed port =
    let t : Session = record s { stage = idle } in
    (
      ground (arith, books-handle_error gen t),
      ground (arith, books-handle_error gen t),
      ground (arith, books-handle_error gen t),
    )

books-upgraded :
    (e : Env) (s : Session) (gen : ℕ) (failed : Bool)
    → books (step e s (upgraded gen failed)) ≡ books s
unfolding step on_handshake
books-upgraded e s gen failed =
    let up : Session = record s {
      stage = idle;
      connected = true;
      last_pong_time = e.now;
      ping_timer = true;
    } in
    ground (
      arith,
      books-handle_error gen (record s { stage = idle }),
      books-send_auth e up,
      books-flush_topics e up,
    )

books-written :
    (e : Env) (s : Session) (gen : ℕ) (failed : Bool)
    → books (step e s (written gen failed)) ≡ books s
unfolding step on_write
books-written e s gen failed =
    let t : Session = record s { writes_out = s.writes_out - 1; write_in_flight = false } in
    ground (arith, books-handle_error gen t, books-pump e t)

books-ping_fired :
    (e : Env) (s : Session) (gen : ℕ) (cancelled : Bool)
    → books (step e s (ping_fired gen cancelled)) ≡ books s
unfolding step on_ping_timer enqueue_op
books-ping_fired e s gen cancelled =
    ground (arith, books-handle_error gen s, books-pump e (enqueue_op Op.ping s))

books-fire_reconnect :
    (timer : Option (ℕ × ℕ)) (s : Session) → books (fire_reconnect timer s) ≡ books s
unfolding fire_reconnect on_reconnect_timer start_connect
books-fire_reconnect none s = refl
books-fire_reconnect (some (gen, delay)) s = ground arith

books-posted :
    (e : Env) (s : Session) (t : String)
    → (books (step e s (unsubscribe_task t)) ≡ books s) × (books (step e s close_task) ≡ books s)
unfolding step unsubscribe_posted close_by_user enqueue_op
books-posted e s t = (ground (arith, books-pump e (enqueue_op (Op.unsubscribe t) s)), ground arith)

-- Whatever the network does, the topics that a session asks for and their order stay as they are,
-- through errors, reconnects and replays: only a call of subscribe or unsubscribe and the ack of a
-- rejected subscribe may change them.
pub books-step :
    (e : Env) (s : Session) (ev : Event) → keeps_books ev ≡ true → books (step e s ev) ≡ books s
unfolding on_control step
books-step e s (subscribe t) h = cc
books-step e s flush_task h = books-flush_topics e s
books-step e s (unsubscribe t) h = cc
books-step e s (unsubscribe_task t) h = (books-posted e s t).0
books-step e s close_task h = (books-posted e s "").1
books-step e s (resolved gen failed) h = (books-chain e s gen failed failed "").0
books-step e s (tcp_connected gen failed sni_failed port) h =
    (books-chain e s gen failed sni_failed port).1
books-step e s (tls_done gen failed) h = (books-chain e s gen failed failed "").2
books-step e s (upgraded gen failed) h = books-upgraded e s gen failed
books-step e s (frame_read gen failed frame) h =
    ground (arith, books-on_read e gen failed frame (record s { stage = idle }))
books-step e s (written gen failed) h = books-written e s gen failed
books-step e s (ping_fired gen cancelled) h = books-ping_fired e s gen cancelled
books-step e s reconnect_fired h = books-fire_reconnect s.reconnect_timer s
books-step e s (control_received pong) h = ground arith
