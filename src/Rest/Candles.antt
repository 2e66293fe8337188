-- ===== src/Rest/Candles.antt =====
-- Candle intervals (src/bybit.cpp).
use bybit_cpp_api.Base.{
  ℕ, ◌*◌, ◌/◌, ◌≡◌, refl, Option, none, some, arith, ◌==◌, Bool-cases, inl, inr, if◌then◌else◌,
}
use bybit_cpp_api.Models.Enums.{
  CandleInterval, m1, m3, m5, m15, m30, m60, m120, m240, m360, m720, d, mo, w,
}

-- `numberOfMsForCandleInterval`; its default case is no enumerator.
unfoldable pub number_of_ms_for_candle_interval : CandleInterval → ℕ
number_of_ms_for_candle_interval m1 = 60000
number_of_ms_for_candle_interval m3 = 60000 * 3
number_of_ms_for_candle_interval m5 = 60000 * 5
number_of_ms_for_candle_interval m15 = 60000 * 15
number_of_ms_for_candle_interval m30 = 60000 * 30
number_of_ms_for_candle_interval m60 = 60000 * 60
number_of_ms_for_candle_interval m120 = 60000 * 120
number_of_ms_for_candle_interval m240 = 60000 * 240
number_of_ms_for_candle_interval m360 = 60000 * 360
number_of_ms_for_candle_interval m720 = 60000 * 720
number_of_ms_for_candle_interval d = 86400000
number_of_ms_for_candle_interval w = 86400000 * 7
number_of_ms_for_candle_interval mo = 86400000 * 30

-- `isValidCandleResolution`, for a resolution that is not negative: the interval that it writes, if
-- it returns true.
unfoldable pub is_valid_candle_resolution : ℕ → Option CandleInterval
is_valid_candle_resolution r =
    if r == 1
    then some m1
    else if r == 3
    then some m3
    else if r == 5
    then some m5
    else if r == 15
    then some m15
    else if r == 30
    then some m30
    else if r == 60
    then some m60
    else if r == 120
    then some m120
    else if r == 240
    then some m240
    else if r == 360
    then some m360
    else if r == 720
    then some m720
    else if r == 1440
    then some d
    else if r == 10080
    then some w
    else if r == 43200
    then some mo
    else none

-- One test of the `switch`, with what follows it.
pick :
    (r : ℕ) (i : CandleInterval) (k : ℕ) (j : CandleInterval) (rest : Option CandleInterval)
    → number_of_ms_for_candle_interval j ≡ k * 60000
    → (rest ≡ some i → number_of_ms_for_candle_interval i ≡ r * 60000)
    → (if r == k then some j else rest) ≡ some i
    → number_of_ms_for_candle_interval i ≡ r * 60000
pick r i k j rest e next h = elim (Bool-cases (r == k)) [
  | inl b ↦ grind arith
  | inr b ↦ grind arith
]

-- The interval of a valid resolution lasts as many minutes as the resolution says.
pub is_valid_candle_resolution-ms :
    (r : ℕ) (i : CandleInterval)
    → is_valid_candle_resolution r ≡ some i
    → number_of_ms_for_candle_interval i ≡ r * 60000
unfolding is_valid_candle_resolution number_of_ms_for_candle_interval
is_valid_candle_resolution-ms r i =
    (pick r i 1 m1 _ refl (
      pick r i 3 m3 _ refl (
        pick r i 5 m5 _ refl (
          pick r i 15 m15 _ refl (
            pick r i 30 m30 _ refl (
              pick r i 60 m60 _ refl (
                pick r i 120 m120 _ refl (
                  pick r i 240 m240 _ refl (
                    pick r i 360 m360 _ refl (
                      pick r i 720 m720 _ refl (
                        pick r i 1440 d _ refl (
                          pick r i 10080 w _ refl (pick r i 43200 mo _ refl (λ h. cc h))))))))))))))

-- Each interval is the one of its length in minutes.
pub is_valid_candle_resolution-interval :
    (i : CandleInterval)
    → is_valid_candle_resolution (number_of_ms_for_candle_interval i / 60000) ≡ some i
unfolding is_valid_candle_resolution number_of_ms_for_candle_interval
is_valid_candle_resolution-interval m1 = refl
is_valid_candle_resolution-interval i = refl
