-- ===== src/Tests/Io.antt =====
-- The io thread at concrete histories.
use bybit_cpp_api.Base.{◌≡◌, refl, ◌⊎◌, true, false, List, [], ◌∷◌}
use bybit_cpp_api.Client.Io.{
  IoThread, IoCall, IoState, IoEvent, is_serving, on_run, on_old_joined, on_thread, io_step,
  io_exec,
}
use bybit_cpp_api.Client.Io.Laws.{FoundSet, run-Serves}
use bybit_cpp_api.Client.Io.Blocked.{run-Blocked}

-- The first call creates a thread, which gets past an exception; then run is called again.
abbrev history : List IoEvent
history = IoEvent.run_called ∷ IoEvent.old_joined ∷ IoEvent.loop_begun ∷ IoEvent.loop_thrown ∷ []

abbrev looping : IoState
looping = record {
  is_running = true;
  stopped = false;
  thread = IoThread.looping;
  call = IoCall.idle;
}

run-Serves_example : (is_serving looping.thread ≡ true) ⊎ FoundSet IoEvent.run_called looping
unfolding io_exec io_step on_run on_old_joined on_thread
run-Serves_example = run-Serves history IoEvent.run_called looping looping tt refl refl refl

abbrev waiting : IoState
waiting = record {
  is_running = true;
  stopped = false;
  thread = IoThread.looping;
  call = IoCall.joining;
}

run-Blocked_example : (waiting.call ≡ IoCall.joining) × (is_serving waiting.thread ≡ true)
unfolding io_exec io_step on_run on_old_joined on_thread
run-Blocked_example =
    run-Blocked (IoEvent.loop_begun ∷ IoEvent.loop_thrown ∷ []) waiting (tt, (tt, tt)) refl
