-- ===== src/Rest/Pages.antt =====
-- The listings that follow their page cursor without a limit: `getPositionInfo`, `getInstrumentsInfo` and
-- `getOpenOrders`.
use bybit_cpp_api.Base.{
  ℕ, zero, suc, ◌≤◌, ◌≡◌, refl, ◌∙◌, true, false, Option, none, some, List, [], ◌++◌, append_assoc,
  arith, if◌then◌else◌, is_empty, Bool-cases, inl, inr,
}
use bybit_cpp_api.Text.{Text}
use bybit_cpp_api.Errors.{Result, ok, err}
use bybit_cpp_api.Rest.Responses.{Response, read_response}

-- A parsed page: `Positions`, `Instruments` or `OrdersResponse`.
pub record Batch (E : Type 0) : Type 0 where
  pub rows : List E
  pub next_page_cursor : Text

module _ {E : Type 0} where
  -- The end of one round: `rest` is the next one.
  unfoldable pub gathered :
      List E
      → (Text → List E → Option (Result (List E)))
      → Result (Batch E)
      → Option (Result (List E))
  gathered listed rest (err x) = some (err x)
  gathered listed rest (ok p) =
      if is_empty p.next_page_cursor
      then some (ok (listed ++ p.rows))
      else rest p.next_page_cursor (listed ++ p.rows)

  -- The `do` loop; `none` means that the fuel ran out. `fetch n cursor` is the answer to the n-th request.
  unfoldable pub gather :
      (ℕ → Text → Response (Batch E)) → ℕ → ℕ → Text → List E → Option (Result (List E))
  unfolding gathered
  gather fetch zero n cursor listed = none
  gather fetch (suc fuel) n cursor listed =
      gathered listed (gather fetch fuel (suc n)) (read_response (fetch n cursor))

  -- A whole listing from a request on, by the pages that it takes.
  pub data Chain (fetch : ℕ → Text → Response (Batch E)) : ℕ → ℕ → Text → List E → Type 0 where
    last :
        {n : ℕ} {cursor : Text} {p : Batch E}
        → read_response (fetch n cursor) ≡ ok p
        → is_empty p.next_page_cursor ≡ true
        → Chain fetch 1 n cursor p.rows
    more :
        {pages n : ℕ} {cursor : Text} {p : Batch E} {xs : List E}
        → read_response (fetch n cursor) ≡ ok p
        → is_empty p.next_page_cursor ≡ false
        → Chain fetch pages (suc n) p.next_page_cursor xs
        → Chain fetch (suc pages) n cursor (p.rows ++ xs)

  abbrev From : (ℕ → Text → Response (Batch E)) → ℕ → ℕ → Text → List E → List E → Type 0
  From fetch fuel n cursor listed xs =
      (pages : ℕ) × (ys : List E) × (pages ≤ fuel)
      × Chain fetch pages n cursor ys
      × (xs ≡ listed ++ ys)

  gathered-ok :
      (fetch : ℕ → Text → Response (Batch E)) (fuel n : ℕ) (cursor : Text) (listed xs : List E)
      (answer : Result (Batch E))
      → read_response (fetch n cursor) ≡ answer
      → ((c : Text) (l : List E)
          → gather fetch fuel (suc n) c l ≡ some (ok xs)
          → From fetch fuel (suc n) c l xs)
      → gathered listed (gather fetch fuel (suc n)) answer ≡ some (ok xs)
      → From fetch (suc fuel) n cursor listed xs
  unfolding gathered
  gathered-ok fetch fuel n cursor listed xs (err x) e ih = λ h. cc h
  gathered-ok fetch fuel n cursor listed xs (ok p) e ih =
      elim (Bool-cases (is_empty p.next_page_cursor)) [
        | inl b ↦ rw b (λ h. (1, p.rows, omega arith, last e b, grind arith))
        | inr b ↦ rw b (λ h.
            let r = ih p.next_page_cursor (listed ++ p.rows) h in
            (
              suc r.0,
              p.rows ++ r.1,
              omega (arith, r.2),
              more e b r.3,
              r.4 ∙ append_assoc listed p.rows r.1,
            ))
      ]

  gather-From :
      (fetch : ℕ → Text → Response (Batch E)) (fuel n : ℕ) (cursor : Text) (listed xs : List E)
      → gather fetch fuel n cursor listed ≡ some (ok xs)
      → From fetch fuel n cursor listed xs
  unfolding gather
  gather-From fetch zero n cursor listed xs h = cc h
  gather-From fetch (suc fuel) n cursor listed xs h =
      gathered-ok fetch fuel n cursor listed xs (read_response (fetch n cursor)) refl
        (λ c l. gather-From fetch fuel (suc n) c l xs) h

  -- What such a listing returns is whole: each page was asked for by the cursor of the page before, and
  -- the last one has no cursor.
  pub gather-Chain :
      (fetch : ℕ → Text → Response (Batch E)) (fuel : ℕ) (xs : List E)
      → gather fetch fuel 0 [] [] ≡ some (ok xs)
      → (pages : ℕ) × (pages ≤ fuel) × Chain fetch pages 0 [] xs
  gather-Chain fetch fuel xs h =
      let r = gather-From fetch fuel 0 [] [] xs h in (r.0, r.2, rw (← r.4) at r.3)

  -- A venue that answers every request with a further cursor holds such a listing in its loop for ever:
  -- no number of rounds is enough.
  pub gather_endless :
      (fetch : ℕ → Text → Response (Batch E)) (rows : List E) (next : Text)
      → ((n : ℕ) (cursor : Text)
          → read_response (fetch n cursor) ≡ ok (record { rows = rows; next_page_cursor = next }))
      → is_empty next ≡ false
      → (fuel n : ℕ) (cursor : Text) (listed : List E) → gather fetch fuel n cursor listed ≡ none
  unfolding gather
  gather_endless fetch rows next same c zero n cursor listed = refl
  gather_endless fetch rows next same c (suc fuel) n cursor listed =
      rw (same n cursor, c)
        (gather_endless fetch rows next same c fuel (suc n) next (listed ++ rows))
