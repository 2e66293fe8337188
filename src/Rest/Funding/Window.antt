-- ===== src/Rest/Funding/Window.antt =====
-- The download of funding rates against a history of the venue.
use bybit_cpp_api.Base.{
  ℕ, zero, suc, ◌+◌, ◌-◌, ◌≤◌, ◌<◌, ◌≡◌, refl, ap, true, List, [], ◌∷◌, ◌++◌, arith, ltb, leb,
  if◌then◌else◌,
}
use bybit_cpp_api.Models.Candles.{FundingRate}
use bybit_cpp_api.Rest.Funding.{back_time}

module _ {D : Type 0} where
  -- The rates of a history from a time on.
  unfoldable pub since : ℕ → List (FundingRate D) → List (FundingRate D)
  since start_time [] = []
  since start_time (r ∷ rates) =
      if leb start_time r.funding_rate_timestamp
      then r ∷ since start_time rates
      else since start_time rates

  -- What is left of a history, newest first, without what is newer than an end.
  unfoldable pub upto : ℕ → List (FundingRate D) → List (FundingRate D)
  upto end_time [] = []
  upto end_time (r ∷ rates) =
      if ltb end_time r.funding_rate_timestamp then upto end_time rates else r ∷ rates

  unfoldable pub take : ℕ → List (FundingRate D) → List (FundingRate D)
  take zero rates = []
  take (suc n) [] = []
  take (suc n) (r ∷ rates) = r ∷ take n rates

  unfoldable pub drop : ℕ → List (FundingRate D) → List (FundingRate D)
  drop zero rates = rates
  drop (suc n) [] = []
  drop (suc n) (r ∷ rates) = drop n rates

  -- Newest first, more than a millisecond apart, and after time 0.
  abbrev pub IsSpaced : List (FundingRate D) → Type 0
  IsSpaced [] = Unit
  IsSpaced (r ∷ []) = 0 < r.funding_rate_timestamp
  IsSpaced (r ∷ s ∷ rates) =
      (s.funding_rate_timestamp + 2 ≤ r.funding_rate_timestamp) × IsSpaced (s ∷ rates)

  pub IsSpaced-tail :
      (r : FundingRate D) (rates : List (FundingRate D)) → IsSpaced (r ∷ rates) → IsSpaced rates
  IsSpaced-tail r [] h = tt
  IsSpaced-tail r (s ∷ rates) h = h.1

  pub IsSpaced-pos :
      (r : FundingRate D) (rates : List (FundingRate D))
      → IsSpaced (r ∷ rates)
      → 0 < r.funding_rate_timestamp
  IsSpaced-pos r [] h = h
  IsSpaced-pos r (s ∷ rates) h = omega (arith, h.0)

  pub take-drop : (n : ℕ) (rates : List (FundingRate D)) → take n rates ++ drop n rates ≡ rates
  unfolding take drop
  take-drop zero rates = refl
  take-drop (suc n) [] = refl
  take-drop (suc n) (r ∷ rates) = ap (λ l. r ∷ l) (take-drop n rates)

  pub upto_again :
      (m n : ℕ) (rates : List (FundingRate D)) → m ≤ n → upto m (upto n rates) ≡ upto m rates
  unfolding upto
  upto_again m n [] h = refl
  upto_again m n (r ∷ rates) h = ground (arith, upto_again m n rates)

  pub back_time-lt :
      (n : ℕ) (r : FundingRate D) (rates : List (FundingRate D))
      → IsSpaced (r ∷ rates)
      → back_time r (take n rates) ≤ r.funding_rate_timestamp
  unfolding take
  back_time-lt zero r rates h = omega arith
  back_time-lt (suc n) r [] h = omega arith
  back_time-lt (suc n) r (s ∷ rates) h = omega (arith, h.0, back_time-lt n s rates h.1)

  -- Below the last rate of a page is what the page leaves.
  pub upto-page :
      (n : ℕ) (r : FundingRate D) (rates : List (FundingRate D))
      → IsSpaced (r ∷ rates)
      → upto (back_time r (take n rates) - 1) (r ∷ rates) ≡ drop n rates
  unfolding upto take drop
  upto-page zero r [] h = ground arith
  upto-page zero r (s ∷ rates) h = ground (arith, IsSpaced-pos s rates h.1)
  upto-page (suc n) r [] h = ground arith
  upto-page (suc n) r (s ∷ rates) h =
      let less : ltb (back_time s (take n rates) - 1) r.funding_rate_timestamp ≡ true =
        ground (arith, back_time-lt n s rates h.1) in
      rw less (upto-page n s rates h.1)
