-- ===== src/Http/Timed.antt =====
-- `runTimedOperation`: an operation and its timer on one io context.
use bybit_cpp_api.Base.{
  ◌≡◌, refl, Bool, true, false, not, ◌&&◌, Option, some, List, [], ◌∷◌, if◌then◌else◌, arith,
}
use bybit_cpp_api.Text.{Text, codes}

-- What the io context runs: the timer's handler, with whether it was cancelled, or the operation's, with its
-- error, if any.
pub data Handler : Type 0 where
  timer : Bool → Handler
  completed : Option Text → Handler

pub record TimedOperation : Type 0 where
  pub operation_error : Option Text
  pub finished : Bool
  pub timed_out : Bool
  pub cancelled : Bool  -- the operation was cancelled

abbrev pub operation_aborted : Text
operation_aborted = codes "operation_aborted"

abbrev pub timed_out_error : Text
timed_out_error = codes "timed_out"

abbrev pub not_started : TimedOperation
not_started = record {
  operation_error = some operation_aborted;
  finished = false;
  timed_out = false;
  cancelled = false;
}

unfoldable pub run_handler : TimedOperation → Handler → TimedOperation
run_handler o (Handler.timer was_cancelled) =
    if not was_cancelled && not o.finished
    then record o { timed_out = true; cancelled = true }
    else o
run_handler o (Handler.completed ec) = record o { operation_error = ec; finished = true }

unfoldable pub run_handlers : TimedOperation → List Handler → TimedOperation
unfolding run_handler
run_handlers o [] = o
run_handlers o (h ∷ hs) = run_handlers (run_handler o h) hs

-- The error of the operation, by the handlers in the order they ran.
unfoldable pub run_timed_operation : List Handler → Option Text
unfolding run_handlers
run_timed_operation hs =
    let o = run_handlers not_started hs in
    if o.timed_out then some timed_out_error else o.operation_error

timed_out_stays :
    (o : TimedOperation) (hs : List Handler)
    → o.timed_out ≡ true
    → (run_handlers o hs).timed_out ≡ true
unfolding run_handlers run_handler
timed_out_stays o [] h = h
timed_out_stays o (Handler.timer c ∷ hs) h =
    timed_out_stays (run_handler o (Handler.timer c)) hs (ground arith)
timed_out_stays o (Handler.completed ec ∷ hs) h =
    timed_out_stays (run_handler o (Handler.completed ec)) hs h

-- The handler that runs first decides: behind the timer the error is the timeout, whatever the operation
-- reports, and behind the operation it is the operation's, whether the timer was cancelled in time or not.
pub run_timed_operation_lem :
    ((hs : List Handler) → run_timed_operation (Handler.timer false ∷ hs) ≡ some timed_out_error)
    × ((ec : Option Text) (was_cancelled : Bool)
        → run_timed_operation (Handler.completed ec ∷ Handler.timer was_cancelled ∷ []) ≡ ec)
unfolding run_timed_operation run_handlers run_handler
run_timed_operation_lem = (
  λ hs.
      rw (timed_out_stays (record not_started { timed_out = true; cancelled = true }) hs refl) refl,
  λ ec was_cancelled. ground arith,
)
