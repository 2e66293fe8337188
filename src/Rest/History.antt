-- ===== src/Rest/History.antt =====
-- `getHistoricalPrices`: pages of candles, with the probe over gaps in a symbol's history. Times are
-- not before the epoch, and the limit of a page is at least 1.
pub mod Ends
pub mod Ordered
use bybit_cpp_api.Base.{
  ℕ, zero, suc, ◌+◌, ◌-◌, ◌*◌, min, ◌≡◌, refl, Bool, true, false, not, Option, none, some, List, [],
  ◌∷◌, ◌++◌, reverse, arith, ltb, leb, if◌then◌else◌,
}
use bybit_cpp_api.Errors.{Error, Result, ok, err}
use bybit_cpp_api.Models.Enums.{CandleInterval}
use bybit_cpp_api.Models.Candles.{Candle}
use bybit_cpp_api.Rest.Responses.{Response, read_response}
use bybit_cpp_api.Rest.Candles.{number_of_ms_for_candle_interval}
use bybit_cpp_api.Rest.Calendar.{next_candle_start}

-- What a download did: the batches that it gave to the writer, oldest first, and its result, which is
-- `none` if the fuel ran out.
pub record Download (D : Type 0) : Type 0 where
  pub written : List (List (Candle D))
  pub result : Option (Result (List (Candle D)))

abbrev pub is_before : Option ℕ → ℕ → Bool
is_before none n = false
is_before (some t) n = ltb t n

abbrev pub is_after : Option ℕ → ℕ → Bool
is_after none n = false
is_after (some t) n = leb n t

abbrev pub overlaps : CandleInterval → ℕ → Option ℕ → Bool
overlaps interval to none = false
overlaps interval to (some t) = ltb to (next_candle_start t interval)

module _ {D : Type 0} where
  -- The start of the first candle, and of the last.
  unfoldable pub front_time : List (Candle D) → Option ℕ
  front_time [] = none
  front_time (c ∷ candles) = some c.start_time

  unfoldable pub back_time : List (Candle D) → Option ℕ
  back_time [] = none
  back_time (c ∷ []) = some c.start_time
  back_time (c ∷ d ∷ candles) = back_time (d ∷ candles)

  -- `erase(begin, lower_bound(from))`.
  unfoldable pub trim : ℕ → List (Candle D) → List (Candle D)
  trim from [] = []
  trim from (c ∷ candles) = if ltb c.start_time from then trim from candles else c ∷ candles

  unfoldable pub pop_back : List (Candle D) → List (Candle D)
  pop_back [] = []
  pop_back (c ∷ []) = []
  pop_back (c ∷ d ∷ candles) = c ∷ pop_back (d ∷ candles)

  -- The candles that do not begin after `to`.
  unfoldable pub until : ℕ → List (Candle D) → List (Candle D)
  until to [] = []
  until to (c ∷ candles) = if leb c.start_time to then c ∷ until to candles else until to candles

  -- One window of the probe: `rest` goes on behind it.
  unfoldable pub probed :
      ℕ
      → (Option (Result (Option (ℕ × List (Candle D)))))
      → Result (List (Candle D))
      → Option (Result (Option (ℕ × List (Candle D))))
  unfolding back_time
  probed from rest (err x) = some (err x)
  probed from rest (ok answer) =
      if is_after (back_time (reverse answer)) from
      then some (ok (some (from, reverse answer)))
      else rest

  -- The probe, for windows of `window_ms`: where it found candles, and these.
  unfoldable pub probe :
      (ℕ → ℕ → Response (List (Candle D)))
      → ℕ
      → ℕ
      → ℕ
      → ℕ
      → Option (Result (Option (ℕ × List (Candle D))))
  unfolding probed
  probe fetch window_ms to zero from = none
  probe fetch window_ms to (suc fuel) from =
      if not (leb from to)
      then some (ok none)
      else let window_end = min to (from + window_ms) in
        probed from (probe fetch window_ms to fuel (window_end + 1))
          (read_response (fetch from window_end))

  -- The first `if` of the loop: the candles from `from` on, with where that is after a probe.
  unfoldable pub settle :
      (ℕ → ℕ → Response (List (Candle D)))
      → ℕ
      → ℕ
      → ℕ
      → List (Candle D)
      → Option (Result (Option (ℕ × List (Candle D))))
  unfolding front_time back_time
  settle fetch window_ms to from candles =
      if is_before (front_time candles) from
      then (if is_before (back_time candles) from
          then probe fetch window_ms to (suc (suc to)) from
          else some (ok (some (from, candles))))
      else some (ok (some (from, candles)))

  -- The candle in progress goes.
  unfoldable pub drop_open : CandleInterval → ℕ → List (Candle D) → List (Candle D)
  unfolding pop_back back_time
  drop_open interval to candles =
      if overlaps interval to (back_time candles) then pop_back candles else candles

  -- The rest of the loop on the candles that are left, the last of which begins at a time.
  unfoldable pub take_batch :
      CandleInterval
      → ℕ
      → List (Candle D)
      → List (List (Candle D))
      → List (Candle D)
      → Option ℕ
      → (ℕ → List (Candle D) → List (List (Candle D)) → Download D)
      → Download D
  unfolding until
  take_batch interval to listed written batch none rest = record {
    written = written;
    result = some (ok listed);
  }
  take_batch interval to listed written batch (some t) rest =
      if ltb to t
      then record { written = written ++ batch ∷ []; result = some (ok (listed ++ until to batch)) }
      else rest (next_candle_start t interval) (listed ++ batch) (written ++ batch ∷ [])

  unfoldable pub settled_batch :
      CandleInterval
      → ℕ
      → List (Candle D)
      → List (List (Candle D))
      → Option (Result (Option (ℕ × List (Candle D))))
      → (ℕ → List (Candle D) → List (List (Candle D)) → Download D)
      → Download D
  unfolding trim drop_open take_batch back_time
  settled_batch interval to listed written none rest = record { written = written; result = none }
  settled_batch interval to listed written (some (err x)) rest = record {
    written = written;
    result = some (err x);
  }
  settled_batch interval to listed written (some (ok none)) rest = record {
    written = written;
    result = some (ok listed);
  }
  settled_batch interval to listed written (some (ok (some (from, candles)))) rest =
      let batch = drop_open interval to (trim from candles) in
      take_batch interval to listed written batch (back_time batch) rest

  -- One round of the loop on the answer that was fetched from `from` on.
  unfoldable pub next_candles :
      (ℕ → ℕ → Response (List (Candle D)))
      → CandleInterval
      → ℕ
      → ℕ
      → ℕ
      → List (Candle D)
      → List (List (Candle D))
      → (ℕ → List (Candle D) → List (List (Candle D)) → Download D)
      → Result (List (Candle D))
      → Download D
  unfolding settle settled_batch
  next_candles fetch interval window_ms to from listed written rest (err x) = record {
    written = written;
    result = some (err x);
  }
  next_candles fetch interval window_ms to from listed written rest (ok []) = record {
    written = written;
    result = some (ok listed);
  }
  next_candles fetch interval window_ms to from listed written rest (ok (c ∷ answer)) =
      settled_batch interval to listed written
        (settle fetch window_ms to from (reverse (c ∷ answer))) rest

  -- The loop.
  unfoldable pub list_candles :
      (ℕ → ℕ → Response (List (Candle D)))
      → CandleInterval
      → ℕ
      → ℕ
      → ℕ
      → ℕ
      → List (Candle D)
      → List (List (Candle D))
      → Download D
  unfolding next_candles
  list_candles fetch interval window_ms to zero from listed written = record {
    written = written;
    result = none;
  }
  list_candles fetch interval window_ms to (suc fuel) from listed written =
      next_candles fetch interval window_ms to from listed written
        (list_candles fetch interval window_ms to fuel) (read_response (fetch from 0))

  -- `RESTClient::getHistoricalPrices`. `fetch start end` is the answer to a request of `P`'s, which has
  -- no end if that is 0.
  unfoldable pub get_historical_prices :
      (ℕ → ℕ → Response (List (Candle D))) → CandleInterval → ℕ → ℕ → ℕ → Download D
  get_historical_prices fetch interval from to limit =
      list_candles fetch interval ((limit - 1) * number_of_ms_for_candle_interval interval) to
        (suc (suc to)) from [] []
