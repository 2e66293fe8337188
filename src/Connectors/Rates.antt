-- ===== src/Connectors/Rates.antt =====
-- The futures connector's funding rates come in the order of their times.
use mathlib.Core.Path.{subst}
use mathlib.Core.List.{reverse-cons}
use mathlib.Core.Option
use bybit_cpp_api.Base.{
  ℕ, suc, ◌≤◌, ◌<◌, ◌≡◌, refl, sym, ap, some, ◌++◌, reverse, All, ◌∙◌, List, [], ◌∷◌, map, arith,
}
use bybit_cpp_api.Errors.{ok}
use bybit_cpp_api.Rest.Responses.{Response}
use bybit_cpp_api.Models.Candles.{FundingRate}
use bybit_cpp_api.Rest.Funding.{get_funding_rates}
use bybit_cpp_api.Rest.Funding.Window.{since, upto, IsSpaced, IsSpaced-tail}
use bybit_cpp_api.Rest.Funding.Refinement.{
  Answers, get_funding_rates_lem, since-IsSpaced, upto-IsSpaced,
}
use bybit_cpp_api.Connectors.{
  ExchangeRate, insert_rate, sort_rates, exchange_rate, historical_funding_rates,
}

module _ {D : Type 0} where
  -- The times do not fall.
  abbrev pub IsChronological : List (ExchangeRate D) → Type 0
  IsChronological [] = Unit
  IsChronological (r ∷ []) = Unit
  IsChronological (r ∷ s ∷ rates) = (r.funding_time ≤ s.funding_time) × IsChronological (s ∷ rates)

  insert_rate-front :
      (r : ExchangeRate D) (rates : List (ExchangeRate D))
      → IsChronological (r ∷ rates)
      → insert_rate r rates ≡ r ∷ rates
  unfolding insert_rate
  insert_rate-front r [] h = refl
  insert_rate-front r (s ∷ rates) h = ground (arith, h.0)

  -- Rates in the order of their times stay as they are.
  pub sort_rates-IsChronological :
      (rates : List (ExchangeRate D)) → IsChronological rates → sort_rates rates ≡ rates
  unfolding sort_rates
  sort_rates-IsChronological [] h = refl
  sort_rates-IsChronological (r ∷ []) h = insert_rate-front r [] tt
  sort_rates-IsChronological (r ∷ s ∷ rates) h =
      ap (insert_rate r) (sort_rates-IsChronological (s ∷ rates) h.1)
      ∙ insert_rate-front r (s ∷ rates) h

module _ {D : Type 0} where
  -- Rates of the REST client, whose times do not fall.
  abbrev Rises : List (FundingRate D) → Type 0
  Rises [] = Unit
  Rises (r ∷ []) = Unit
  Rises (r ∷ s ∷ rates) = (r.funding_rate_timestamp ≤ s.funding_rate_timestamp) × Rises (s ∷ rates)

  abbrev NotAfter : ℕ → List (FundingRate D) → Type 0
  NotAfter t = All (λ (r : FundingRate D). r.funding_rate_timestamp ≤ t)

  map-IsChronological :
      (rates : List (FundingRate D)) → Rises rates → IsChronological (map exchange_rate rates)
  map-IsChronological [] h = tt
  map-IsChronological (r ∷ []) h = tt
  map-IsChronological (r ∷ s ∷ rates) h = (h.0, map-IsChronological (s ∷ rates) h.1)

  NotAfter-weaken :
      (t u : ℕ) (rates : List (FundingRate D)) → t ≤ u → NotAfter t rates → NotAfter u rates
  NotAfter-weaken t u [] l h = tt
  NotAfter-weaken t u (r ∷ rates) l h = (omega (arith, h.0), NotAfter-weaken t u rates l h.1)

  IsSpaced-NotAfter :
      (r : FundingRate D) (rates : List (FundingRate D))
      → IsSpaced (r ∷ rates)
      → NotAfter r.funding_rate_timestamp rates
  IsSpaced-NotAfter r [] h = tt
  IsSpaced-NotAfter r (s ∷ rates) h = (
    omega (arith, h.0),
    NotAfter-weaken s.funding_rate_timestamp r.funding_rate_timestamp rates (omega (arith, h.0))
        (IsSpaced-NotAfter s rates h.1),
  )

  snoc-NotAfter :
      (t : ℕ) (rates : List (FundingRate D)) (r : FundingRate D)
      → NotAfter t rates
      → r.funding_rate_timestamp ≤ t
      → NotAfter t (rates ++ r ∷ [])
  snoc-NotAfter t [] r h l = (l, tt)
  snoc-NotAfter t (s ∷ rates) r h l = (h.0, snoc-NotAfter t rates r h.1 l)

  snoc-Rises :
      (rates : List (FundingRate D)) (r : FundingRate D)
      → Rises rates
      → NotAfter r.funding_rate_timestamp rates
      → Rises (rates ++ r ∷ [])
  snoc-Rises [] r h b = tt
  snoc-Rises (s ∷ []) r h b = (b.0, tt)
  snoc-Rises (s ∷ q ∷ rates) r h b = (h.0, snoc-Rises (q ∷ rates) r h.1 b.1)

  reverse-NotAfter :
      (t : ℕ) (rates : List (FundingRate D)) → NotAfter t rates → NotAfter t (reverse rates)
  reverse-NotAfter t [] h = tt
  reverse-NotAfter t (r ∷ rates) h =
      subst (NotAfter t) (sym (reverse-cons r rates))
        (snoc-NotAfter t (reverse rates) r (reverse-NotAfter t rates h.1) h.0)

  reverse-Rises : (rates : List (FundingRate D)) → IsSpaced rates → Rises (reverse rates)
  reverse-Rises [] h = tt
  reverse-Rises (r ∷ rates) h = subst Rises (sym (reverse-cons r rates)) (
      snoc-Rises (reverse rates) r (reverse-Rises rates (IsSpaced-tail r rates h))
        (reverse-NotAfter r.funding_rate_timestamp rates (IsSpaced-NotAfter r rates h)))

  -- What the futures connector returns as historical funding rates, against a venue that answers with the
  -- newest rates of a history in the range, any limit of a page, is exactly the history from the start to the
  -- end, oldest first, if the range is not empty and the rates are more than a millisecond apart.
  pub historical_funding_rates_lem :
      (fetch : ℕ → ℕ → Response (List (FundingRate D))) (n start_time end_time : ℕ)
      (history : List (FundingRate D))
      → IsSpaced history
      → Answers fetch (suc n) history
      → start_time < end_time
      → Option.map historical_funding_rates (get_funding_rates fetch start_time end_time)
        ≡ some (ok (map exchange_rate (reverse (upto end_time (since start_time history)))))
  unfolding historical_funding_rates
  historical_funding_rates_lem fetch n start_time end_time history spaced answers h =
      let rates = upto end_time (since start_time history) in
      rw
        (
          get_funding_rates_lem fetch n start_time end_time history spaced answers h,
          sort_rates-IsChronological (map exchange_rate (reverse rates)) (
              map-IsChronological (reverse rates) (
                reverse-Rises rates (
                  upto-IsSpaced end_time (since start_time history)
                    (since-IsSpaced start_time history spaced)))),
        )
        refl
