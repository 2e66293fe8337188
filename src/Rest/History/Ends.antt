-- ===== src/Rest/History/Ends.antt =====
-- The download of candles ends, and what it returns.
use bybit_cpp_api.Base.{
  ℕ, zero, suc, ◌+◌, ◌-◌, ◌*◌, ◌≤◌, ◌<◌, min, ◌≡◌, refl, sym, ap, ◌∙◌, Option, none, some, List, [],
  ◌∷◌, ◌++◌, reverse, arith, ltb, leb, if-elim, Bool-cases, inl, inr,
}
use bybit_cpp_api.Errors.{Result, ok, err}
use bybit_cpp_api.Models.Enums.{CandleInterval}
use bybit_cpp_api.Models.Candles.{Candle}
use bybit_cpp_api.Rest.Responses.{Response, read_response}
use bybit_cpp_api.Rest.Candles.{number_of_ms_for_candle_interval}
use bybit_cpp_api.Rest.Calendar.{next_candle_start, next_candle_start_bounds}
use bybit_cpp_api.Rest.History.{
  Download, front_time, back_time, is_before, is_after, trim, until, probed, probe, settle,
  drop_open, take_batch, settled_batch, next_candles, list_candles, get_historical_prices,
}
use bybit_cpp_api.Rest.History.Ordered.{
  Ascends, AtMost, AllBelow, flat, flat-snoc, Ascends-weaken, trim-Ascends, drop_open-Ascends,
  back_time-AtMost, AtMost-AllBelow, AtMost-weaken, AllBelow-weaken, All-join, Ascends-append,
  until-Ascends, until-AtMost, until-all, until-append,
}

module _ {D : Type 0} where
  -- Each answer of the venue is in order, newest first.
  abbrev pub IsNewestFirst : (ℕ → ℕ → Response (List (Candle D))) → Type 0
  IsNewestFirst fetch =
      (from end : ℕ) (answer : List (Candle D))
      → read_response (fetch from end) ≡ ok answer
      → Ascends 0 (reverse answer)

  -- What a probe owes: it did not run out of fuel, and what it found is in order.
  abbrev Settled : ℕ → Option (Result (Option (ℕ × List (Candle D)))) → Type 0
  Settled from none = ⊥
  Settled from (some (err x)) = Unit
  Settled from (some (ok none)) = Unit
  Settled from (some (ok (some (start, candles)))) = (from ≤ start) × Ascends 0 candles

  Settled-weaken :
      (m n : ℕ) (o : Option (Result (Option (ℕ × List (Candle D)))))
      → m ≤ n
      → Settled n o
      → Settled m o
  Settled-weaken m n none l h = h
  Settled-weaken m n (some (err x)) l h = tt
  Settled-weaken m n (some (ok none)) l h = tt
  Settled-weaken m n (some (ok (some (start, candles)))) l h = (omega (arith, h.0), h.1)

  probed-Settled :
      (from : ℕ) (rest : Option (Result (Option (ℕ × List (Candle D)))))
      (answer : Result (List (Candle D)))
      → ((xs : List (Candle D)) → answer ≡ ok xs → Ascends 0 (reverse xs))
      → Settled from rest
      → Settled from (probed from rest answer)
  unfolding probed
  probed-Settled from rest (err x) sorted h = tt
  probed-Settled from rest (ok answer) sorted h =
      if-elim (Settled from) (is_after (back_time (reverse answer)) from)
        (some (ok (some (from, reverse answer)))) rest (omega arith, sorted answer refl) h

  -- What the download owes: it ends, and a list that it returns rises from the start, begins nowhere after
  -- the end, and is what was written, without what begins after the end.
  abbrev pub IsDownload :
      ℕ → ℕ → List (List (Candle D)) → Option (Result (List (Candle D))) → Type 0
  IsDownload from to written none = ⊥
  IsDownload from to written (some (err x)) = Unit
  IsDownload from to written (some (ok xs)) =
      Ascends from xs × AtMost to xs × (xs ≡ until to (flat written))

  module _ (fetch : ℕ → ℕ → Response (List (Candle D))) (sorted : IsNewestFirst fetch)
      (interval : CandleInterval) (window_ms begin to : ℕ) where
    probe-Settled :
        (fuel from : ℕ) → to + 1 - from < fuel → Settled from (probe fetch window_ms to fuel from)
    unfolding probe
    probe-Settled zero from h = elim h [ ]
    probe-Settled (suc fuel) from h =
        let window_end = min to (from + window_ms) in
        let rest = probe fetch window_ms to fuel (window_end + 1) in
        elim (Bool-cases (leb from to)) [
          | inr stop ↦ rw stop tt
          | inl go ↦ rw go (
              probed-Settled from rest (read_response (fetch from window_end))
                (sorted from window_end)
                (Settled-weaken from (window_end + 1) rest (ground (arith, go))
                  (probe-Settled fuel (window_end + 1) (ground (arith, go)))))
        ]

    settle-Settled :
        (from : ℕ) (candles : List (Candle D))
        → Ascends 0 candles
        → Settled from (settle fetch window_ms to from candles)
    unfolding settle
    settle-Settled from candles h =
        let here : Settled from (some (ok (some (from, candles)))) = (omega arith, h) in
        if-elim (Settled from) (is_before (front_time candles) from) _ _
          (if-elim (Settled from) (is_before (back_time candles) from) _ _
            (probe-Settled (suc (suc to)) from (omega arith)) here)
          here

    -- What the loop has listed when it goes on from a time.
    record IsListed (from : ℕ) (listed : List (Candle D)) (written : List (List (Candle D)))
        : Type 0 where
      later : begin ≤ from
      rising : Ascends begin listed
      below : AllBelow from listed
      within : AtMost to listed
      same : listed ≡ until to (flat written)

    -- What a round owes for the rounds behind it.
    abbrev Goes : ℕ → (ℕ → List (Candle D) → List (List (Candle D)) → Download D) → Type 0
    Goes from rest =
        (next : ℕ) (listed : List (Candle D)) (written : List (List (Candle D)))
        → from < next
        → from ≤ to
        → IsListed next listed written
        → let d = rest next listed written in IsDownload begin to d.written d.result

    take_batch_lem :
        (from : ℕ) (listed : List (Candle D)) (written : List (List (Candle D)))
        (batch : List (Candle D)) (t : Option ℕ)
        (rest : ℕ → List (Candle D) → List (List (Candle D)) → Download D)
        → back_time batch ≡ t
        → Ascends from batch
        → IsListed from listed written
        → Goes from rest
        → let d = take_batch interval to listed written batch t rest in
          IsDownload begin to d.written d.result
    unfolding take_batch
    take_batch_lem from listed written batch none rest e a v go = (v.rising, v.within, v.same)
    take_batch_lem from listed written batch (some t) rest e a v go =
        let last = back_time-AtMost from t batch a e in
        let joined : until to (flat (written ++ batch ∷ []))
            ≡ until to (flat written) ++ until to batch =
          ap (until to) (flat-snoc written batch) ∙ until-append to (flat written) batch in
        elim (Bool-cases (ltb to t)) [
          | inl c ↦ rw c (
            Ascends-append begin from listed (until to batch) v.later v.rising v.below
                (until-Ascends to from batch a),
            All-join _ listed (until to batch) v.within (until-AtMost to batch),
            ap (λ l. l ++ until to batch) v.same ∙ sym joined,
          )
          | inr c ↦ rw c (
              let next = next_candle_start t interval in
              let later = next_candle_start_bounds t interval in
              let fits : AtMost to batch = AtMost-weaken t to batch (ground (arith, c)) last.1 in
              go next (listed ++ batch) (written ++ batch ∷ []) (omega (arith, last.0, later.0))
                (ground (arith, c, last.0))
                (record {
                  later = omega (arith, v.later, last.0, later.0);
                  rising = Ascends-append begin from listed batch v.later v.rising v.below a;
                  below =
                      All-join _ listed batch
                        (AllBelow-weaken from next listed (omega (arith, last.0, later.0)) v.below)
                        (AtMost-AllBelow t next batch later.0 last.1);
                  within = All-join _ listed batch v.within fits;
                  same =
                      ap (λ l. l ++ batch) v.same
                      ∙ (ap (λ l. until to (flat written) ++ l) (sym (until-all to batch fits))
                          ∙ sym joined);
                }))
        ]

    settled_batch_lem :
        (from : ℕ) (listed : List (Candle D)) (written : List (List (Candle D)))
        (o : Option (Result (Option (ℕ × List (Candle D)))))
        (rest : ℕ → List (Candle D) → List (List (Candle D)) → Download D)
        → Settled from o
        → IsListed from listed written
        → Goes from rest
        → let d = settled_batch interval to listed written o rest in
          IsDownload begin to d.written d.result
    unfolding settled_batch
    settled_batch_lem from listed written none rest h v go = h
    settled_batch_lem from listed written (some (err x)) rest h v go = tt
    settled_batch_lem from listed written (some (ok none)) rest h v go =
        (v.rising, v.within, v.same)
    settled_batch_lem from listed written (some (ok (some (start, candles)))) rest h v go =
        let batch = drop_open interval to (trim start candles) in
        take_batch_lem from listed written batch (back_time batch) rest refl
          (Ascends-weaken from start batch h.0 (
            drop_open-Ascends interval to start (trim start candles)
              (trim-Ascends 0 start candles h.1)))
          v go

    next_candles_lem :
        (from : ℕ) (listed : List (Candle D)) (written : List (List (Candle D)))
        (rest : ℕ → List (Candle D) → List (List (Candle D)) → Download D)
        (answer : Result (List (Candle D)))
        → ((xs : List (Candle D)) → answer ≡ ok xs → Ascends 0 (reverse xs))
        → IsListed from listed written
        → Goes from rest
        → let d = next_candles fetch interval window_ms to from listed written rest answer in
          IsDownload begin to d.written d.result
    unfolding next_candles
    next_candles_lem from listed written rest (err x) s v go = tt
    next_candles_lem from listed written rest (ok []) s v go = (v.rising, v.within, v.same)
    next_candles_lem from listed written rest (ok (c ∷ answer)) s v go =
        settled_batch_lem from listed written
          (settle fetch window_ms to from (reverse (c ∷ answer))) rest
          (settle-Settled from (reverse (c ∷ answer)) (s (c ∷ answer) refl)) v go

    list_candles_lem :
        (fuel from : ℕ) (listed : List (Candle D)) (written : List (List (Candle D)))
        → to + 1 - from < fuel
        → IsListed from listed written
        → let d = list_candles fetch interval window_ms to fuel from listed written in
          IsDownload begin to d.written d.result
    unfolding list_candles
    list_candles_lem zero from listed written h v = elim h [ ]
    list_candles_lem (suc fuel) from listed written h v =
        next_candles_lem from listed written (list_candles fetch interval window_ms to fuel)
          (read_response (fetch from 0)) (sorted from 0) v
          (λ next l w later inside v'.
            list_candles_lem fuel next l w (omega (arith, h, later, inside)) v')

  -- A download of candles ends, if the venue's answers are in order. A list that it returns rises from the
  -- start, with no candle twice, has none that begins after the end, and holds just the candles that
  -- the writer got, less those that begin after the end.
  pub get_historical_prices_lem :
      (fetch : ℕ → ℕ → Response (List (Candle D))) (interval : CandleInterval) (from to limit : ℕ)
      → IsNewestFirst fetch
      → let d = get_historical_prices fetch interval from to limit in
        IsDownload from to d.written d.result
  unfolding get_historical_prices flat until
  get_historical_prices_lem fetch interval from to limit sorted =
      list_candles_lem fetch sorted interval
        ((limit - 1) * number_of_ms_for_candle_interval interval) from to (suc (suc to)) from [] []
        (omega arith)
        (record { later = omega arith; rising = tt; below = tt; within = tt; same = refl })
