-- ===== src/Rest/Funding.antt =====
-- `getFundingRates`: pages of funding rates, walked from the newest to the oldest.
pub mod Window
pub mod Refinement
use bybit_cpp_api.Base.{
  ℕ, zero, suc, ◌+◌, ◌-◌, ◌≤◌, ◌<◌, ◌≡◌, refl, Bool, true, false, not, Option, none, some, List, [],
  ◌∷◌, ◌++◌, reverse, arith, ltb, if◌then◌else◌, Bool-cases, inl, inr, All,
}
use bybit_cpp_api.Text.{Text}
use bybit_cpp_api.Errors.{Result, ok, err}
use bybit_cpp_api.Models.Candles.{FundingRate}
use bybit_cpp_api.Rest.Responses.{Response, read_response}

module _ {D : Type 0} where
  -- `fr.back().fundingRateTimestamp` of a page that is not empty.
  abbrev pub back_time : FundingRate D → List (FundingRate D) → ℕ
  back_time r [] = r.funding_rate_timestamp
  back_time r (s ∷ rates) = back_time s rates

  -- One round of the loop on the page that was fetched: `rest` goes on below a new end. A rate of
  -- time 0 ends the loop, as the end -1 of the source does.
  unfoldable pub next_rates :
      List (FundingRate D)
      → (ℕ → List (FundingRate D) → Option (Result (List (FundingRate D))))
      → Result (List (FundingRate D))
      → Option (Result (List (FundingRate D)))
  next_rates listed rest (err x) = some (err x)
  next_rates listed rest (ok []) = some (ok (reverse listed))
  next_rates listed rest (ok (r ∷ rates)) = rest (back_time r rates - 1) (listed ++ r ∷ rates)

  -- The loop; `none` means that the fuel ran out.
  unfoldable pub list_rates :
      (ℕ → ℕ → Response (List (FundingRate D)))
      → ℕ
      → ℕ
      → ℕ
      → List (FundingRate D)
      → Option (Result (List (FundingRate D)))
  unfolding next_rates
  list_rates fetch zero start_time end_time listed = none
  list_rates fetch (suc fuel) start_time end_time listed =
      if not (ltb start_time end_time)
      then some (ok (reverse listed))
      else next_rates listed (list_rates fetch fuel start_time)
          (read_response (fetch start_time end_time))

  -- `RESTClient::getFundingRates`. `fetch start end` is the answer to a request of `P`'s.
  unfoldable pub get_funding_rates :
      (ℕ → ℕ → Response (List (FundingRate D))) → ℕ → ℕ → Option (Result (List (FundingRate D)))
  get_funding_rates fetch start_time end_time =
      list_rates fetch (suc end_time) start_time end_time []

  -- The venue answers no rate after the end that it was asked for.
  abbrev pub IsBounded : (ℕ → ℕ → Response (List (FundingRate D))) → Type 0
  IsBounded fetch =
      (start_time end_time : ℕ) (rates : List (FundingRate D))
      → read_response (fetch start_time end_time) ≡ ok rates
      → All (λ (r : FundingRate D). r.funding_rate_timestamp ≤ end_time) rates

  back_time-le :
      (n : ℕ) (r : FundingRate D) (rates : List (FundingRate D))
      → All (λ (r : FundingRate D). r.funding_rate_timestamp ≤ n) (r ∷ rates)
      → back_time r rates ≤ n
  back_time-le n r [] h = h.0
  back_time-le n r (s ∷ rates) h = back_time-le n s rates h.1

  Returns : Option (Result (List (FundingRate D))) → Type 0
  Returns o = (r : Result (List (FundingRate D))) × (o ≡ some r)

  next_rates-Returns :
      (n : ℕ) (listed : List (FundingRate D))
      (rest : ℕ → List (FundingRate D) → Option (Result (List (FundingRate D))))
      (answer : Result (List (FundingRate D)))
      → ((rates : List (FundingRate D))
          → answer ≡ ok rates
          → All (λ (r : FundingRate D). r.funding_rate_timestamp ≤ n) rates)
      → ((m : ℕ) (l : List (FundingRate D)) → m ≤ n - 1 → Returns (rest m l))
      → Returns (next_rates listed rest answer)
  unfolding next_rates Returns
  next_rates-Returns n listed rest (err x) b h = (_, refl)
  next_rates-Returns n listed rest (ok []) b h = (_, refl)
  next_rates-Returns n listed rest (ok (r ∷ rates)) b h =
      h (back_time r rates - 1) (listed ++ r ∷ rates)
        (omega (arith, back_time-le n r rates (b (r ∷ rates) refl)))

  list_rates-Returns :
      (fetch : ℕ → ℕ → Response (List (FundingRate D)))
      → IsBounded fetch
      → (fuel start_time end_time : ℕ) (listed : List (FundingRate D)) → end_time < fuel
      → Returns (list_rates fetch fuel start_time end_time listed)
  unfolding list_rates Returns
  list_rates-Returns fetch b zero start_time end_time listed h = elim h [ ]
  list_rates-Returns fetch b (suc fuel) start_time end_time listed h =
      elim (Bool-cases (ltb start_time end_time)) [
        | inr stop ↦ rw stop (_, refl)
        | inl go ↦ rw go (
            next_rates-Returns end_time listed (list_rates fetch fuel start_time)
              (read_response (fetch start_time end_time)) (b start_time end_time)
              (λ m l e. list_rates-Returns fetch b fuel start_time m l (ground (arith, go))))
      ]

  -- The download of funding rates ends, if the venue keeps to the end of each request: with a list, or
  -- with the error of a request.
  pub get_funding_rates_ends :
      (fetch : ℕ → ℕ → Response (List (FundingRate D))) (start_time end_time : ℕ)
      → IsBounded fetch
      → (r : Result (List (FundingRate D))) × (get_funding_rates fetch start_time end_time ≡ some r)
  unfolding get_funding_rates Returns
  get_funding_rates_ends fetch start_time end_time b =
      list_rates-Returns fetch b (suc end_time) start_time end_time [] (omega arith)
