-- ===== src/Client/Io.antt =====
-- The io thread of the WebSocket client (src/bybit_ws_client.cpp): `run`, the thread's loop and the
-- destructor, as the steps of their interleavings. The lock lets one call in at a time, and the destructor
-- comes when no call is under way.
pub mod Laws
pub mod Blocked
use bybit_cpp_api.Base.{Bool, true, false, not, ◌&&◌, ◌||◌, Option, none, some, List, [], ◌∷◌}

-- The thread: not yet created, created, in the loop, behind `ioContext.run()` with the flag not yet
-- cleared, behind the loop, and ended.
pub data IoThread : Type 0 where
  absent created looping returned leaving ended : IoThread

-- The call that holds the lock: none, `run` before its join, the destructor before its join, and the
-- destructor behind it.
pub data IoCall : Type 0 where
  idle joining closing closed : IoCall

-- `isRunning`, whether the io context is stopped, the thread, and the call.
pub record IoState : Type 0 where
  pub is_running : Bool
  pub stopped : Bool
  pub thread : IoThread
  pub call : IoCall

abbrev pub new_io : IoState
new_io = record {
  is_running = false;
  stopped = false;
  thread = IoThread.absent;
  call = IoCall.idle;
}

pub data IoEvent : Type 0 where
  run_called old_joined : IoEvent  -- `run` up to its join, and from there on
  loop_begun loop_thrown : IoEvent  -- the first round of the loop, and one behind an exception
  context_returned : IoEvent  -- `ioContext.run()` returned
  flag_cleared thread_ended : IoEvent  -- the assignment behind it, and the one behind the loop
  stop_called last_joined : IoEvent  -- the destructor up to its join, and from there on

-- A thread that a join waits for.
abbrev pub join_waits : IoThread → Bool
join_waits IoThread.absent = false
join_waits IoThread.ended = false
join_waits _ = true

-- A thread that runs the io context or will.
abbrev pub is_serving : IoThread → Bool
is_serving IoThread.created = true
is_serving IoThread.looping = true
is_serving _ = false

unfoldable pub on_run : IoCall → IoState → Option IoState
on_run IoCall.idle s =
    some (elim s.is_running [
      | true ↦ s
      | false ↦ record s { is_running = true; call = IoCall.joining }
    ])
on_run _ s = none

unfoldable pub on_old_joined : IoCall → Bool → IoState → Option IoState
on_old_joined IoCall.joining false s =
    some (record s { thread = IoThread.created; call = IoCall.idle })
on_old_joined _ _ s = none

-- A round of the loop that begins: a stopped context is restarted.
abbrev pub round : IoState → IoState
round s = record s { is_running = true; stopped = false; thread = IoThread.looping }

unfoldable pub on_thread : IoEvent → IoThread → IoState → Option IoState
on_thread IoEvent.loop_begun IoThread.created s = some (round s)
on_thread IoEvent.loop_thrown IoThread.looping s = some (round s)
on_thread IoEvent.context_returned IoThread.looping s =
    some (record s { thread = IoThread.returned })
on_thread IoEvent.flag_cleared IoThread.returned s =
    some (record s { is_running = false; thread = IoThread.leaving })
on_thread IoEvent.thread_ended IoThread.leaving s =
    some (record s { is_running = false; thread = IoThread.ended })
on_thread _ _ s = none

unfoldable pub on_stop : IoCall → IoState → Option IoState
on_stop IoCall.idle s = some (record s { stopped = true; call = IoCall.closing })
on_stop _ s = none

unfoldable pub on_last_joined : IoCall → Bool → IoState → Option IoState
on_last_joined IoCall.closing false s = some (record s { call = IoCall.closed })
on_last_joined _ _ s = none

-- One event, `none` where it cannot happen.
unfoldable pub io_step : IoEvent → IoState → Option IoState
unfolding on_run on_old_joined on_thread on_stop on_last_joined
io_step IoEvent.run_called s = on_run s.call s
io_step IoEvent.old_joined s = on_old_joined s.call (join_waits s.thread) s
io_step IoEvent.stop_called s = on_stop s.call s
io_step IoEvent.last_joined s = on_last_joined s.call (join_waits s.thread) s
io_step e s = on_thread e s.thread s

unfoldable pub io_exec : List IoEvent → IoState → Option IoState
unfolding io_step
io_exec [] s = some s
io_exec (e ∷ es) s = elim (io_step e s) [ none ↦ none | some s' ↦ io_exec es s' ]
