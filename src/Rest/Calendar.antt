-- ===== src/Rest/Calendar.antt =====
-- `nextCandleStart`. A candle of a month ends with its month of the civil calendar (std::chrono), walked
-- here from the epoch on; times are not before the epoch.
use bybit_cpp_api.Base.{
  ℕ, zero, suc, ◌+◌, ◌*◌, ◌/◌, ◌%◌, ◌≤◌, ◌<◌, Bool, not, ◌&&◌, ◌||◌, arith, ltb, ◌==◌,
  if◌then◌else◌, Bool-cases, inl, inr,
}
use bybit_cpp_api.Models.Enums.{CandleInterval, mo}
use bybit_cpp_api.Rest.Candles.{number_of_ms_for_candle_interval}

abbrev pub ms_per_day : ℕ
ms_per_day = 86400000

unfoldable pub is_leap : ℕ → Bool
is_leap y = y % 400 == 0 || (not (y % 100 == 0) && y % 4 == 0)

unfoldable pub days_in_month : ℕ → ℕ → ℕ
unfolding is_leap
days_in_month y m =
    let long = (m + m / 8) % 2 in if m == 2 then (if is_leap y then 29 else 28) else 30 + long

-- The day on which the month after `day`'s begins, from the month `m` of `y` on, which begins at `first`.
unfoldable pub month_after : ℕ → ℕ → ℕ → ℕ → ℕ → ℕ
month_after zero y m first day = first
month_after (suc fuel) y m first day =
    let next = first + days_in_month y m in
    let later =
      month_after fuel (if m == 12 then y + 1 else y) (if m == 12 then 1 else m + 1) next day in
    if ltb day next then next else later

unfoldable pub next_month : ℕ → ℕ
next_month t = ms_per_day * month_after (suc (t / ms_per_day)) 1970 1 0 (t / ms_per_day)

-- `nextCandleStart`.
unfoldable pub next_candle_start : ℕ → CandleInterval → ℕ
unfolding next_month
next_candle_start t mo = next_month t
next_candle_start t i = t + number_of_ms_for_candle_interval i

days_in_month_bounds : (y m : ℕ) → (28 ≤ days_in_month y m) × (days_in_month y m ≤ 31)
unfolding days_in_month
days_in_month_bounds y m = ground arith

-- Each month takes at least one unit of fuel's worth of days.
month_after_bounds :
    (fuel y m first day : ℕ)
    → first ≤ day
    → day < first + fuel
    → (day < month_after fuel y m first day) × (month_after fuel y m first day ≤ day + 31)
unfolding month_after
month_after_bounds zero y m first day h b = omega arith
month_after_bounds (suc fuel) y m first day h b =
    let len = days_in_month_bounds y m in
    let next = first + days_in_month y m in
    elim (Bool-cases (ltb day next)) [
      | inl c ↦ rw c (ground (arith, c, len))
      | inr c ↦ rw c (
          month_after_bounds fuel (if m == 12 then y + 1 else y) (if m == 12 then 1 else m + 1) next
            day (ground (arith, c)) (omega (arith, len, b)))
    ]

-- A candle is followed by one that begins later, and at most 31 days after it began.
pub next_candle_start_bounds :
    (t : ℕ) (i : CandleInterval)
    → (t < next_candle_start t i) × (next_candle_start t i ≤ t + 31 * ms_per_day)
unfolding next_candle_start next_month number_of_ms_for_candle_interval
next_candle_start_bounds t i =
    elim i as (λ i. (t < next_candle_start t i) × (next_candle_start t i ≤ t + 31 * ms_per_day)) [
      | mo ↦
          (let b =
              month_after_bounds (suc (t / ms_per_day)) 1970 1 0 (t / ms_per_day) (omega arith)
                (omega arith) in
            omega (arith, b))
      | _ ↦ omega arith
    ]
