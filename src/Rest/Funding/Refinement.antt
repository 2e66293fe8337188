-- ===== src/Rest/Funding/Refinement.antt =====
-- `getFundingRates` returns the part of the venue's history that was asked for, whatever the limit
-- of a page.
use bybit_cpp_api.Base.{
  ℕ, zero, suc, ◌+◌, ◌-◌, ◌≤◌, ◌<◌, ◌≡◌, refl, sym, ap, ◌∙◌, false, some, List, [], ◌∷◌, ◌++◌,
  reverse, append_assoc, append-nil, arith, ltb, leb, if-elim, Bool-cases, inl, inr, All,
}
use bybit_cpp_api.Errors.{ok}
use bybit_cpp_api.Rest.Responses.{Response, read_response}
use bybit_cpp_api.Models.Candles.{FundingRate}
use bybit_cpp_api.Rest.Funding.{back_time, next_rates, list_rates, get_funding_rates}
use bybit_cpp_api.Rest.Funding.Window.{
  since, upto, take, drop, IsSpaced, IsSpaced-tail, IsSpaced-pos, take-drop, upto_again, upto-page,
  back_time-lt,
}

module _ {D : Type 0} where
  -- The venue of a history, newest first: the newest `limit` rates from the start to the end.
  abbrev pub Answers : (ℕ → ℕ → Response (List (FundingRate D))) → ℕ → List (FundingRate D) → Type 0
  Answers fetch limit history =
      (start_time end_time : ℕ)
      → read_response (fetch start_time end_time)
        ≡ ok (take limit (upto end_time (since start_time history)))

  abbrev Recent : ℕ → List (FundingRate D) → Type 0
  Recent start_time = All (λ (r : FundingRate D). start_time ≤ r.funding_rate_timestamp)

  since-Recent : (n : ℕ) (rates : List (FundingRate D)) → Recent n (since n rates)
  unfolding since
  since-Recent n [] = tt
  since-Recent n (r ∷ rates) = ground (arith, since-Recent n rates)

  -- The newest rate that is left is at least two milliseconds below a time.
  abbrev FarBelow : ℕ → List (FundingRate D) → Type 0
  FarBelow n [] = Unit
  FarBelow n (r ∷ rates) = r.funding_rate_timestamp + 2 ≤ n

  IsSpaced-FarBelow :
      (r : FundingRate D) (rates : List (FundingRate D))
      → IsSpaced (r ∷ rates)
      → FarBelow r.funding_rate_timestamp rates
  IsSpaced-FarBelow r [] h = tt
  IsSpaced-FarBelow r (s ∷ rates) h = h.0

  IsSpaced-cons :
      (r : FundingRate D) (rates : List (FundingRate D))
      → 0 < r.funding_rate_timestamp
      → FarBelow r.funding_rate_timestamp rates
      → IsSpaced rates
      → IsSpaced (r ∷ rates)
  IsSpaced-cons r [] p f h = p
  IsSpaced-cons r (s ∷ rates) p f h = (f, h)

  FarBelow-tail :
      (n : ℕ) (r : FundingRate D) (rates : List (FundingRate D))
      → IsSpaced (r ∷ rates)
      → r.funding_rate_timestamp + 2 ≤ n
      → FarBelow n rates
  FarBelow-tail n r [] h l = tt
  FarBelow-tail n r (s ∷ rates) h l = omega (arith, h.0)

  since-FarBelow :
      (n t : ℕ) (rates : List (FundingRate D))
      → IsSpaced rates
      → FarBelow t rates
      → FarBelow t (since n rates)
  unfolding since
  since-FarBelow n t [] h f = tt
  since-FarBelow n t (r ∷ rates) h f =
      if-elim (FarBelow t) (leb n r.funding_rate_timestamp) (r ∷ since n rates) (since n rates) f
        (since-FarBelow n t rates (IsSpaced-tail r rates h) (FarBelow-tail t r rates h f))

  pub since-IsSpaced :
      (n : ℕ) (rates : List (FundingRate D)) → IsSpaced rates → IsSpaced (since n rates)
  unfolding since
  since-IsSpaced n [] h = tt
  since-IsSpaced n (r ∷ rates) h =
      let ih = since-IsSpaced n rates (IsSpaced-tail r rates h) in
      if-elim IsSpaced (leb n r.funding_rate_timestamp) (r ∷ since n rates) (since n rates)
        (IsSpaced-cons r (since n rates) (IsSpaced-pos r rates h)
          (since-FarBelow n r.funding_rate_timestamp rates (IsSpaced-tail r rates h)
            (IsSpaced-FarBelow r rates h))
          ih)
        ih

  pub upto-IsSpaced :
      (n : ℕ) (rates : List (FundingRate D)) → IsSpaced rates → IsSpaced (upto n rates)
  unfolding upto
  upto-IsSpaced n [] h = tt
  upto-IsSpaced n (r ∷ rates) h = ground (arith, upto-IsSpaced n rates (IsSpaced-tail r rates h))

  upto-Recent : (m n : ℕ) (rates : List (FundingRate D)) → Recent m rates → Recent m (upto n rates)
  unfolding upto
  upto-Recent m n [] h = tt
  upto-Recent m n (r ∷ rates) h = ground (arith, upto-Recent m n rates h.1)

  drop-FarBelow :
      (n : ℕ) (r : FundingRate D) (rates : List (FundingRate D))
      → IsSpaced (r ∷ rates)
      → FarBelow (back_time r (take n rates)) (drop n rates)
  unfolding take drop
  drop-FarBelow zero r [] h = tt
  drop-FarBelow zero r (s ∷ rates) h = h.0
  drop-FarBelow (suc n) r [] h = tt
  drop-FarBelow (suc n) r (s ∷ rates) h = drop-FarBelow n s rates h.1

  drop-Recent : (m n : ℕ) (rates : List (FundingRate D)) → Recent m rates → Recent m (drop n rates)
  unfolding drop
  drop-Recent m zero rates h = h
  drop-Recent m (suc n) [] h = tt
  drop-Recent m (suc n) (r ∷ rates) h = drop-Recent m n rates h.1

  -- A walk that stops at its start leaves nothing.
  nothing_left :
      (m t : ℕ) (rates : List (FundingRate D))
      → FarBelow t rates
      → Recent m rates
      → ltb m (t - 1) ≡ false
      → rates ≡ []
  nothing_left m t [] f h stop = refl
  nothing_left m t (r ∷ rates) f h stop = ground arith

  AtMost : ℕ → List (FundingRate D) → Type 0
  AtMost n [] = Unit
  AtMost n (r ∷ rates) = r.funding_rate_timestamp ≤ n

  upto-AtMost : (n : ℕ) (rates : List (FundingRate D)) → AtMost n (upto n rates)
  unfolding upto AtMost
  upto-AtMost n [] = tt
  upto-AtMost n (r ∷ rates) = elim (Bool-cases (ltb n r.funding_rate_timestamp)) [
    | inl c ↦ rw c (upto-AtMost n rates)
    | inr c ↦ rw c (ground arith)
  ]

  module _ (fetch : ℕ → ℕ → Response (List (FundingRate D))) (n start_time : ℕ)
      (rates : List (FundingRate D)) (spaced : IsSpaced rates) (recent : Recent start_time rates)
      (answers : (end_time : ℕ)
        → read_response (fetch start_time end_time) ≡ ok (take (suc n) (upto end_time rates))) where
    -- What the loop owes from an end on.
    abbrev Lists : ℕ → ℕ → List (FundingRate D) → Type 0
    Lists fuel end_time listed =
        list_rates fetch fuel start_time end_time listed
        ≡ some (ok (reverse (listed ++ upto end_time rates)))

    next_rates_lem :
        (fuel end_time : ℕ) (listed left : List (FundingRate D))
        → upto end_time rates ≡ left
        → ((m : ℕ) (l : List (FundingRate D))
            → m ≤ end_time - 1
            → (ltb start_time m ≡ false → upto m rates ≡ [])
            → Lists fuel m l)
        → next_rates listed (list_rates fetch fuel start_time) (ok (take (suc n) left))
          ≡ some (ok (reverse (listed ++ left)))
    unfolding next_rates take AtMost
    next_rates_lem fuel end_time listed [] e ih =
        ap (λ l. some (ok (reverse l))) (sym (append-nil listed))
    next_rates_lem fuel end_time listed (r ∷ left) e ih =
        let t = back_time r (take n left) in
        let here : IsSpaced (r ∷ left) = rw e at (upto-IsSpaced end_time rates spaced) in
        let old : Recent start_time (r ∷ left) =
          rw e at (upto-Recent start_time end_time rates recent) in
        let newest : AtMost end_time (r ∷ left) = rw e at (upto-AtMost end_time rates) in
        let t_le : t ≤ end_time = omega (arith, back_time-lt n r left here, newest) in
        let below : upto (t - 1) rates ≡ drop n left =
          sym (upto_again (t - 1) end_time rates (omega (arith, t_le)))
          ∙ (ap (upto (t - 1)) e ∙ upto-page n r left here) in
        let stops : ltb start_time (t - 1) ≡ false → upto (t - 1) rates ≡ [] = λ stop.
          below
          ∙ nothing_left start_time t (drop n left) (drop-FarBelow n r left here)
              (drop-Recent start_time n left old.1) stop in
        ih (t - 1) (listed ++ r ∷ take n left) (omega (arith, t_le)) stops
        ∙ ap (λ l. some (ok (reverse l)))
            (ap (λ l. (listed ++ r ∷ take n left) ++ l) below
              ∙ (append_assoc listed (r ∷ take n left) (drop n left)
                  ∙ ap (λ l. listed ++ r ∷ l) (take-drop n left)))

    list_rates_lem :
        (fuel end_time : ℕ) (listed : List (FundingRate D))
        → end_time < fuel
        → (ltb start_time end_time ≡ false → upto end_time rates ≡ [])
        → Lists fuel end_time listed
    unfolding list_rates
    list_rates_lem zero end_time listed h stop = elim h [ ]
    list_rates_lem (suc fuel) end_time listed h stop = elim (Bool-cases (ltb start_time end_time)) [
      | inr c ↦ rw (c, stop c) (ap (λ l. some (ok (reverse l))) (sym (append-nil listed)))
      | inl c ↦
          rw (c, answers end_time)
            (next_rates_lem fuel end_time listed (upto end_time rates) refl
              (λ m l b s. list_rates_lem fuel m l (ground (arith, c)) s))
    ]

  -- A download of funding rates returns exactly the venue's rates from the start to the end, oldest
  -- first, whatever the limit of a page, if the range is not empty and the venue's rates are more than
  -- a millisecond apart.
  pub get_funding_rates_lem :
      (fetch : ℕ → ℕ → Response (List (FundingRate D))) (n start_time end_time : ℕ)
      (history : List (FundingRate D))
      → IsSpaced history
      → Answers fetch (suc n) history
      → start_time < end_time
      → get_funding_rates fetch start_time end_time
        ≡ some (ok (reverse (upto end_time (since start_time history))))
  unfolding get_funding_rates
  get_funding_rates_lem fetch n start_time end_time history spaced answers h =
      list_rates_lem fetch n start_time (since start_time history)
        (since-IsSpaced start_time history spaced) (since-Recent start_time history)
        (answers start_time) (suc end_time) end_time [] (omega arith) (λ c. ground (arith, h))
