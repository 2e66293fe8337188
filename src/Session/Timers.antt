-- ===== src/Session/Timers.antt =====
-- The heartbeat, the reconnect timer and the completion of a write.
use bybit_cpp_api.Base.{
  ℕ, ◌-◌, ◌/◌, Bool, true, false, not, ◌&&◌, ◌||◌, Option, none, some, ◌==◌, ltb, if◌then◌else◌,
}
use bybit_cpp_api.Session.State.{Session, Env, Op, pong_timeout_in_s}
use bybit_cpp_api.Session.Topics.{enqueue_op, pump}
use bybit_cpp_api.Session.Connect.{handle_error, start_connect}

-- `now > authDeadline`.
abbrev pub is_past : Option ℕ → ℕ → Bool
is_past none now = false
is_past (some deadline) now = ltb deadline now

-- No pong for more than `PONG_TIMEOUT_IN_S` whole seconds.
unfoldable pub pong_overdue : Env → Session → Bool
pong_overdue e s = ltb pong_timeout_in_s ((e.now - s.last_pong_time) / 1000)

-- `onPingTimer`; `cancelled` is the timer's error code.
unfoldable pub on_ping_timer : Env → ℕ → Bool → Session → Session
unfolding pong_overdue
on_ping_timer e gen cancelled s =
    if cancelled || not (gen == s.generation)
    then s
    else if s.user_closed
    then s
    else if s.connected
    then (if pong_overdue e s
        then handle_error gen s
        else if s.auth_required && not s.authenticated && is_past s.auth_deadline e.now
        then handle_error gen s
        else let s' = pump e (enqueue_op Op.ping s) in record s' { ping_timer = true })
    else record s { ping_timer = true }

-- The completion handler of the reconnect timer.
unfoldable pub on_reconnect_timer : ℕ → Bool → Session → Session
on_reconnect_timer gen cancelled s =
    if not (gen == s.generation)
    then s
    else let s' = record s { reconnect_scheduled = false } in
      if cancelled || s.user_closed then s' else start_connect s'

-- The completion handler of `async_write` in `pump`.
unfoldable pub on_write : Env → ℕ → Bool → Session → Session
on_write e gen failed s =
    if not (gen == s.generation)
    then s
    else let s' = record s { write_in_flight = false } in
      if failed then handle_error gen s' else pump e s'
