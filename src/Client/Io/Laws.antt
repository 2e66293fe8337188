-- ===== src/Client/Io/Laws.antt =====
-- What a call of `run` that returns leaves.
use mathlib.Core.Path.{subst}
use bybit_cpp_api.Base.{
  ◌≡◌, refl, Bool, true, false, ◌||◌, ◌⊎◌, inl, inr, Option, none, some, List, [], ◌∷◌,
}
use bybit_cpp_api.Client.Io.{
  IoThread, IoCall, IoState, new_io, IoEvent, is_serving, on_run, on_old_joined, on_thread, on_stop,
  on_last_joined, io_step, io_exec,
}

abbrev is_joining : IoCall → Bool
is_joining IoCall.joining = true
is_joining _ = false

-- While the flag is set, a thread serves or is about to clear the flag, or a call is about to create one.
abbrev has_flag : IoThread → Bool
has_flag IoThread.returned = true
has_flag t = is_serving t

abbrev Covered : IoState → Type 0
Covered s = s.is_running ≡ true → (is_joining s.call || has_flag s.thread) ≡ true

abbrev pub IfSome : (IoState → Type 0) → Option IoState → Type 0
IfSome P none = Unit
IfSome P (some s) = P s

or_true : (b : Bool) → (b || true) ≡ true
or_true true = refl
or_true false = refl

step-Covered :
    (e : IoEvent) (r st : Bool) (c : IoCall) (t : IoThread)
    → Covered (record { is_running = r; stopped = st; thread = t; call = c })
    → IfSome Covered (io_step e (record { is_running = r; stopped = st; thread = t; call = c }))
unfolding io_step on_run on_old_joined on_thread on_stop on_last_joined
step-Covered IoEvent.run_called true st IoCall.idle t v = v
step-Covered IoEvent.run_called false st IoCall.idle t v = λ h. refl
step-Covered IoEvent.run_called r st IoCall.joining t v = tt
step-Covered IoEvent.run_called r st IoCall.closing t v = tt
step-Covered IoEvent.run_called r st IoCall.closed t v = tt
step-Covered IoEvent.old_joined r st IoCall.idle t v = tt
step-Covered IoEvent.old_joined r st IoCall.joining IoThread.absent v = λ h. refl
step-Covered IoEvent.old_joined r st IoCall.joining IoThread.created v = tt
step-Covered IoEvent.old_joined r st IoCall.joining IoThread.looping v = tt
step-Covered IoEvent.old_joined r st IoCall.joining IoThread.returned v = tt
step-Covered IoEvent.old_joined r st IoCall.joining IoThread.leaving v = tt
step-Covered IoEvent.old_joined r st IoCall.joining IoThread.ended v = λ h. refl
step-Covered IoEvent.old_joined r st IoCall.closing t v = tt
step-Covered IoEvent.old_joined r st IoCall.closed t v = tt
step-Covered IoEvent.loop_begun r st c IoThread.absent v = tt
step-Covered IoEvent.loop_begun r st c IoThread.created v = λ h. or_true (is_joining c)
step-Covered IoEvent.loop_begun r st c IoThread.looping v = tt
step-Covered IoEvent.loop_begun r st c IoThread.returned v = tt
step-Covered IoEvent.loop_begun r st c IoThread.leaving v = tt
step-Covered IoEvent.loop_begun r st c IoThread.ended v = tt
step-Covered IoEvent.loop_thrown r st c IoThread.absent v = tt
step-Covered IoEvent.loop_thrown r st c IoThread.created v = tt
step-Covered IoEvent.loop_thrown r st c IoThread.looping v = λ h. or_true (is_joining c)
step-Covered IoEvent.loop_thrown r st c IoThread.returned v = tt
step-Covered IoEvent.loop_thrown r st c IoThread.leaving v = tt
step-Covered IoEvent.loop_thrown r st c IoThread.ended v = tt
step-Covered IoEvent.context_returned r st c IoThread.absent v = tt
step-Covered IoEvent.context_returned r st c IoThread.created v = tt
step-Covered IoEvent.context_returned r st c IoThread.looping v = λ h. or_true (is_joining c)
step-Covered IoEvent.context_returned r st c IoThread.returned v = tt
step-Covered IoEvent.context_returned r st c IoThread.leaving v = tt
step-Covered IoEvent.context_returned r st c IoThread.ended v = tt
step-Covered IoEvent.flag_cleared r st c IoThread.absent v = tt
step-Covered IoEvent.flag_cleared r st c IoThread.created v = tt
step-Covered IoEvent.flag_cleared r st c IoThread.looping v = tt
step-Covered IoEvent.flag_cleared r st c IoThread.returned v = λ h. cc
step-Covered IoEvent.flag_cleared r st c IoThread.leaving v = tt
step-Covered IoEvent.flag_cleared r st c IoThread.ended v = tt
step-Covered IoEvent.thread_ended r st c IoThread.absent v = tt
step-Covered IoEvent.thread_ended r st c IoThread.created v = tt
step-Covered IoEvent.thread_ended r st c IoThread.looping v = tt
step-Covered IoEvent.thread_ended r st c IoThread.returned v = tt
step-Covered IoEvent.thread_ended r st c IoThread.leaving v = λ h. cc
step-Covered IoEvent.thread_ended r st c IoThread.ended v = tt
step-Covered IoEvent.stop_called r st IoCall.idle t v = v
step-Covered IoEvent.stop_called r st IoCall.joining t v = tt
step-Covered IoEvent.stop_called r st IoCall.closing t v = tt
step-Covered IoEvent.stop_called r st IoCall.closed t v = tt
step-Covered IoEvent.last_joined r st IoCall.idle t v = tt
step-Covered IoEvent.last_joined r st IoCall.joining t v = tt
step-Covered IoEvent.last_joined r st IoCall.closing IoThread.absent v = v
step-Covered IoEvent.last_joined r st IoCall.closing IoThread.created v = tt
step-Covered IoEvent.last_joined r st IoCall.closing IoThread.looping v = tt
step-Covered IoEvent.last_joined r st IoCall.closing IoThread.returned v = tt
step-Covered IoEvent.last_joined r st IoCall.closing IoThread.leaving v = tt
step-Covered IoEvent.last_joined r st IoCall.closing IoThread.ended v = v
step-Covered IoEvent.last_joined r st IoCall.closed t v = tt

io_step-Covered : (e : IoEvent) (s s' : IoState) → Covered s → io_step e s ≡ some s' → Covered s'
io_step-Covered e s s' v h =
    subst (IfSome Covered) h (step-Covered e s.is_running s.stopped s.call s.thread v)

pub some_step :
    (o : Option IoState) (es : List IoEvent) (s' : IoState)
    → elim o [ none ↦ none | some s ↦ io_exec es s ] ≡ some s'
    → (s : IoState) × (o ≡ some s) × (io_exec es s ≡ some s')
some_step none es s' h = cc
some_step (some s) es s' h = (s, refl, h)

io_exec-Covered :
    (es : List IoEvent) (s s' : IoState) → Covered s → io_exec es s ≡ some s' → Covered s'
unfolding io_exec
io_exec-Covered [] s s' v h = subst (IfSome Covered) h v
io_exec-Covered (e ∷ es) s s' v h =
    let first = some_step (io_step e s) es s' h in
    io_exec-Covered es first.0 s' (io_step-Covered e s first.0 v first.1) first.2

-- The two events with which a call of `run` may return.
abbrev pub MayReturn : IoEvent → Type 0
MayReturn IoEvent.run_called = Unit
MayReturn IoEvent.old_joined = Unit
MayReturn _ = ⊥

-- The flag was found set behind the end of the io context's run.
abbrev pub FoundSet : IoEvent → IoState → Type 0
FoundSet e s = (e ≡ IoEvent.run_called) × (s.thread ≡ IoThread.returned) × (s.is_running ≡ true)

abbrev Serves : IoEvent → IoState → Type 0
Serves e s = s.call ≡ IoCall.idle → (is_serving s.thread ≡ true) ⊎ FoundSet e s

with_flag :
    (t : IoThread)
    → has_flag t ≡ true
    → (is_serving t ≡ true)
      ⊎ ((IoEvent.run_called ≡ IoEvent.run_called) × (t ≡ IoThread.returned) × (true ≡ true))
with_flag IoThread.absent h = cc
with_flag IoThread.created h = inl refl
with_flag IoThread.looping h = inl refl
with_flag IoThread.returned h = inr (refl, refl, refl)
with_flag IoThread.leaving h = cc
with_flag IoThread.ended h = cc

step-Serves :
    (e : IoEvent) (r st : Bool) (c : IoCall) (t : IoThread)
    → MayReturn e
    → Covered (record { is_running = r; stopped = st; thread = t; call = c })
    → IfSome (Serves e) (io_step e (record { is_running = r; stopped = st; thread = t; call = c }))
unfolding io_step on_run on_old_joined
step-Serves IoEvent.run_called true st IoCall.idle t f v = λ h. with_flag t (v refl)
step-Serves IoEvent.run_called false st IoCall.idle t f v = λ h. cc
step-Serves IoEvent.run_called r st IoCall.joining t f v = tt
step-Serves IoEvent.run_called r st IoCall.closing t f v = tt
step-Serves IoEvent.run_called r st IoCall.closed t f v = tt
step-Serves IoEvent.old_joined r st IoCall.idle t f v = tt
step-Serves IoEvent.old_joined r st IoCall.joining IoThread.absent f v = λ h. inl refl
step-Serves IoEvent.old_joined r st IoCall.joining IoThread.created f v = tt
step-Serves IoEvent.old_joined r st IoCall.joining IoThread.looping f v = tt
step-Serves IoEvent.old_joined r st IoCall.joining IoThread.returned f v = tt
step-Serves IoEvent.old_joined r st IoCall.joining IoThread.leaving f v = tt
step-Serves IoEvent.old_joined r st IoCall.joining IoThread.ended f v = λ h. inl refl
step-Serves IoEvent.old_joined r st IoCall.closing t f v = tt
step-Serves IoEvent.old_joined r st IoCall.closed t f v = tt
step-Serves IoEvent.loop_begun r st c t f v = elim f [ ]
step-Serves IoEvent.loop_thrown r st c t f v = elim f [ ]
step-Serves IoEvent.context_returned r st c t f v = elim f [ ]
step-Serves IoEvent.flag_cleared r st c t f v = elim f [ ]
step-Serves IoEvent.thread_ended r st c t f v = elim f [ ]
step-Serves IoEvent.stop_called r st c t f v = elim f [ ]
step-Serves IoEvent.last_joined r st c t f v = elim f [ ]

-- In whatever order the calls, the io thread and its exceptions go on, a call of run that returns leaves a
-- thread that is in its loop or goes to it, but for one case: it was called between the return of the io
-- context's run and the clearing of the flag, found the flag set, and leaves the thread that exits.
pub run-Serves :
    (es : List IoEvent) (e : IoEvent) (s s' : IoState)
    → MayReturn e
    → io_exec es new_io ≡ some s
    → io_step e s ≡ some s'
    → s'.call ≡ IoCall.idle
    → (is_serving s'.thread ≡ true) ⊎ FoundSet e s'
run-Serves es e s s' f reached h = subst (IfSome (Serves e)) h (
    step-Serves e s.is_running s.stopped s.call s.thread f
      (io_exec-Covered es new_io s (λ r. cc) reached))
