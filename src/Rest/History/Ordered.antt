-- ===== src/Rest/History/Ordered.antt =====
-- Candles in the order of their starts.
use bybit_cpp_api.Base.{
  ℕ, suc, ◌≤◌, ◌<◌, ◌≡◌, refl, some, List, [], ◌∷◌, ◌++◌, append-nil, append_assoc, arith, ltb, leb,
  if-elim, Bool-cases, inl, inr, All,
}
use bybit_cpp_api.Models.Enums.{CandleInterval}
use bybit_cpp_api.Models.Candles.{Candle}
use bybit_cpp_api.Rest.History.{back_time, trim, pop_back, until, drop_open, overlaps}

module _ {D : Type 0} where
  -- The starts rise, from a time on.
  abbrev pub Ascends : ℕ → List (Candle D) → Type 0
  Ascends lo [] = Unit
  Ascends lo (c ∷ candles) = (lo ≤ c.start_time) × Ascends (suc c.start_time) candles

  -- No candle begins after a time.
  abbrev pub AtMost : ℕ → List (Candle D) → Type 0
  AtMost hi = All (λ (c : Candle D). c.start_time ≤ hi)

  abbrev pub AllBelow : ℕ → List (Candle D) → Type 0
  AllBelow hi = All (λ (c : Candle D). c.start_time < hi)

  unfoldable pub flat : List (List (Candle D)) → List (Candle D)
  flat [] = []
  flat (batch ∷ batches) = batch ++ flat batches

  pub flat-snoc :
      (batches : List (List (Candle D))) (batch : List (Candle D))
      → flat (batches ++ batch ∷ []) ≡ flat batches ++ batch
  unfolding flat
  flat-snoc [] batch = append-nil batch
  flat-snoc (b ∷ batches) batch = rw (flat-snoc batches batch, append_assoc b (flat batches) batch)

  pub Ascends-weaken :
      (m n : ℕ) (candles : List (Candle D)) → m ≤ n → Ascends n candles → Ascends m candles
  Ascends-weaken m n [] l h = tt
  Ascends-weaken m n (c ∷ candles) l h = (omega (arith, h.0), h.1)

  pub trim-Ascends :
      (lo from : ℕ) (candles : List (Candle D))
      → Ascends lo candles
      → Ascends from (trim from candles)
  unfolding trim
  trim-Ascends lo from [] h = tt
  trim-Ascends lo from (c ∷ candles) h = elim (Bool-cases (ltb c.start_time from)) [
    | inl b ↦ rw b (trim-Ascends (suc c.start_time) from candles h.1)
    | inr b ↦ rw b (ground arith, h.1)
  ]

  pop_back-Ascends :
      (lo : ℕ) (candles : List (Candle D)) → Ascends lo candles → Ascends lo (pop_back candles)
  unfolding pop_back
  pop_back-Ascends lo [] h = tt
  pop_back-Ascends lo (c ∷ []) h = tt
  pop_back-Ascends lo (c ∷ d ∷ candles) h =
      (h.0, pop_back-Ascends (suc c.start_time) (d ∷ candles) h.1)

  pub drop_open-Ascends :
      (interval : CandleInterval) (to lo : ℕ) (candles : List (Candle D))
      → Ascends lo candles
      → Ascends lo (drop_open interval to candles)
  unfolding drop_open
  drop_open-Ascends interval to lo candles h =
      if-elim (Ascends lo) (overlaps interval to (back_time candles)) (pop_back candles) candles
        (pop_back-Ascends lo candles h) h

  -- The last candle of a rising list begins at its end, and no other after it.
  pub back_time-AtMost :
      (lo t : ℕ) (candles : List (Candle D))
      → Ascends lo candles
      → back_time candles ≡ some t
      → (lo ≤ t) × AtMost t candles
  unfolding back_time
  back_time-AtMost lo t [] h e = cc e
  back_time-AtMost lo t (c ∷ []) h e = grind arith
  back_time-AtMost lo t (c ∷ d ∷ candles) h e =
      let rest = back_time-AtMost (suc c.start_time) t (d ∷ candles) h.1 e in
      (omega (arith, h.0, rest.0), (omega (arith, rest.0), rest.1))

  pub AtMost-AllBelow :
      (m n : ℕ) (candles : List (Candle D)) → m < n → AtMost m candles → AllBelow n candles
  AtMost-AllBelow m n [] l h = tt
  AtMost-AllBelow m n (c ∷ candles) l h = (omega (arith, h.0), AtMost-AllBelow m n candles l h.1)

  pub AtMost-weaken :
      (m n : ℕ) (candles : List (Candle D)) → m ≤ n → AtMost m candles → AtMost n candles
  AtMost-weaken m n [] l h = tt
  AtMost-weaken m n (c ∷ candles) l h = (omega (arith, h.0), AtMost-weaken m n candles l h.1)

  pub AllBelow-weaken :
      (m n : ℕ) (candles : List (Candle D)) → m ≤ n → AllBelow m candles → AllBelow n candles
  AllBelow-weaken m n [] l h = tt
  AllBelow-weaken m n (c ∷ candles) l h = (omega (arith, h.0), AllBelow-weaken m n candles l h.1)

  pub All-join {κ} :
      (P : Candle D → Type κ) (xs ys : List (Candle D)) → All P xs → All P ys → All P (xs ++ ys)
  All-join P [] ys h k = k
  All-join P (c ∷ xs) ys h k = (h.0, All-join P xs ys h.1 k)

  pub Ascends-append :
      (lo mid : ℕ) (xs ys : List (Candle D))
      → lo ≤ mid
      → Ascends lo xs
      → AllBelow mid xs
      → Ascends mid ys
      → Ascends lo (xs ++ ys)
  Ascends-append lo mid [] ys l h b k = Ascends-weaken lo mid ys l k
  Ascends-append lo mid (c ∷ xs) ys l h b k =
      (h.0, Ascends-append (suc c.start_time) mid xs ys (omega (arith, b.0)) h.1 b.1 k)

  pub until-Ascends :
      (to lo : ℕ) (candles : List (Candle D)) → Ascends lo candles → Ascends lo (until to candles)
  unfolding until
  until-Ascends to lo [] h = tt
  until-Ascends to lo (c ∷ candles) h = elim (Bool-cases (leb c.start_time to)) [
    | inl b ↦ rw b (h.0, until-Ascends to (suc c.start_time) candles h.1)
    | inr b ↦ rw b (
        until-Ascends to lo candles
          (Ascends-weaken lo (suc c.start_time) candles (omega (arith, h.0)) h.1))
  ]

  pub until-AtMost : (to : ℕ) (candles : List (Candle D)) → AtMost to (until to candles)
  unfolding until
  until-AtMost to [] = tt
  until-AtMost to (c ∷ candles) = ground (arith, until-AtMost to candles)

  pub until-all :
      (to : ℕ) (candles : List (Candle D)) → AtMost to candles → until to candles ≡ candles
  unfolding until
  until-all to [] h = refl
  until-all to (c ∷ candles) h = ground (arith, until-all to candles h.1)

  pub until-append :
      (to : ℕ) (xs ys : List (Candle D)) → until to (xs ++ ys) ≡ until to xs ++ until to ys
  unfolding until
  until-append to [] ys = refl
  until-append to (c ∷ xs) ys = ground (arith, until-append to xs ys)
