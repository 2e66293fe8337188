-- ===== src/Client/Io/Blocked.antt =====
-- When a call of `run` does not return.
use mathlib.Core.Path.{subst}
use bybit_cpp_api.Base.{◌≡◌, refl, sym, ap, ◌∙◌, Bool, true, false, some, List, [], ◌∷◌, ◌++◌, All}
use bybit_cpp_api.Client.Io.{
  IoThread, IoCall, IoState, new_io, IoEvent, is_serving, on_run, on_old_joined, on_thread, on_stop,
  on_last_joined, io_step, io_exec,
}
use bybit_cpp_api.Client.Io.Laws.{IfSome, some_step}

-- Every event but the end of the io context's run.
abbrev pub NotLeft : IoEvent → Type 0
NotLeft IoEvent.context_returned = ⊥
NotLeft _ = Unit

abbrev pub Blocked : IoState → Type 0
Blocked s = (s.call ≡ IoCall.joining) × (is_serving s.thread ≡ true)

step-Blocked :
    (e : IoEvent) (r st : Bool) (t : IoThread)
    → is_serving t ≡ true
    → NotLeft e
    → IfSome Blocked
        (io_step e (record { is_running = r; stopped = st; thread = t; call = IoCall.joining }))
unfolding io_step on_run on_old_joined on_thread on_stop on_last_joined
step-Blocked IoEvent.run_called r st IoThread.created b f = tt
step-Blocked IoEvent.run_called r st IoThread.looping b f = tt
step-Blocked IoEvent.old_joined r st IoThread.created b f = tt
step-Blocked IoEvent.old_joined r st IoThread.looping b f = tt
step-Blocked IoEvent.loop_begun r st IoThread.created b f = (refl, refl)
step-Blocked IoEvent.loop_begun r st IoThread.looping b f = tt
step-Blocked IoEvent.loop_thrown r st IoThread.created b f = tt
step-Blocked IoEvent.loop_thrown r st IoThread.looping b f = (refl, refl)
step-Blocked IoEvent.context_returned r st IoThread.created b f = elim f [ ]
step-Blocked IoEvent.context_returned r st IoThread.looping b f = elim f [ ]
step-Blocked IoEvent.flag_cleared r st IoThread.created b f = tt
step-Blocked IoEvent.flag_cleared r st IoThread.looping b f = tt
step-Blocked IoEvent.thread_ended r st IoThread.created b f = tt
step-Blocked IoEvent.thread_ended r st IoThread.looping b f = tt
step-Blocked IoEvent.stop_called r st IoThread.created b f = tt
step-Blocked IoEvent.stop_called r st IoThread.looping b f = tt
step-Blocked IoEvent.last_joined r st IoThread.created b f = tt
step-Blocked IoEvent.last_joined r st IoThread.looping b f = tt
step-Blocked e r st IoThread.absent b f = cc
step-Blocked e r st IoThread.returned b f = cc
step-Blocked e r st IoThread.leaving b f = cc
step-Blocked e r st IoThread.ended b f = cc

joined_state :
    (s : IoState)
    → s.call ≡ IoCall.joining
    → (record {
      is_running = s.is_running;
      stopped = s.stopped;
      thread = s.thread;
      call = IoCall.joining;
    })
      ≡ s
joined_state s h = ap (λ c. record s { call = c }) (sym h)

io_exec-Blocked :
    (es : List IoEvent) (s s' : IoState)
    → All NotLeft es
    → Blocked s
    → io_exec es s ≡ some s'
    → Blocked s'
unfolding io_exec
io_exec-Blocked [] s s' f b h = subst (IfSome Blocked) h b
io_exec-Blocked (e ∷ es) s s' f b h =
    let first = some_step (io_step e s) es s' h in
    io_exec-Blocked es first.0 s' f.1
      (subst (IfSome Blocked) (ap (io_step e) (joined_state s b.0) ∙ first.1)
        (step-Blocked e s.is_running s.stopped s.thread b.1 f.0))
      first.2

-- A thread that ends while run is called again, and a third call before the new thread begins.
abbrev pub race : List IoEvent
race =
    IoEvent.run_called ∷ IoEvent.old_joined ∷ IoEvent.loop_begun ∷ IoEvent.context_returned
    ∷ IoEvent.flag_cleared ∷ IoEvent.run_called ∷ IoEvent.thread_ended ∷ IoEvent.old_joined
    ∷ IoEvent.run_called ∷ []

abbrev raced : IoState
raced = record {
  is_running = true;
  stopped = false;
  thread = IoThread.created;
  call = IoCall.joining;
}

-- Where run is called behind the end of the loop but before the thread's last assignment, and once more
-- before the new thread begins, that last call waits with the lock held for the thread that it should have
-- left alone, as long as the io context's run does not return.
pub run-Blocked :
    (es : List IoEvent) (s : IoState)
    → All NotLeft es
    → io_exec (race ++ es) new_io ≡ some s
    → (s.call ≡ IoCall.joining) × (is_serving s.thread ≡ true)
unfolding io_exec io_step on_run on_old_joined on_thread
run-Blocked es s f h = io_exec-Blocked es raced s f (refl, refl) h
