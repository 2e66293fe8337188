-- ===== src/Rest/Executions.antt =====
-- `getExecutions`: the listing of executions over its pages.
use bybit_cpp_api.Base.{
  ℕ, zero, suc, ◌≤◌, ◌≡◌, refl, ap, ◌∙◌, true, false, List, [], ◌++◌, append_assoc, arith,
  if◌then◌else◌, is_empty, Bool-cases, inl, inr,
}
use bybit_cpp_api.Text.{Text, codes, same_text}
use bybit_cpp_api.Errors.{Result, ok, err, runtime_error}
use bybit_cpp_api.Rest.Responses.{Response, read_response}

abbrev pub max_pages : ℕ
max_pages = 20

-- The parsed part of one answer; a `list` that is missing or no array is an empty one.
pub record Page (E : Type 0) : Type 0 where
  pub executions : List E
  pub next_cursor : Text

none_left : {n : ℕ} → suc n ≤ 0 → ⊥
none_left h = omega arith

module _ {E : Type 0} where
  -- What the loop does with one page: `rest` is the next round, from a cursor and what is listed.
  unfoldable pub next_page :
      Text → List E → (Text → List E → Result (List E)) → Result (Page E) → Result (List E)
  next_page cursor listed rest (err x) = err x
  next_page cursor listed rest (ok p) =
      if is_empty p.next_cursor
      then ok (listed ++ p.executions)
      else if same_text p.next_cursor cursor
      then err (runtime_error (codes "Bybit execution list repeated its page cursor"))
      else rest p.next_cursor (listed ++ p.executions)

  -- The loop, with the pages that are left. `fetch n cursor` is the answer to the n-th request.
  unfoldable pub list_pages :
      (ℕ → Text → Response (Page E)) → ℕ → ℕ → Text → List E → Result (List E)
  unfolding next_page
  list_pages fetch zero n cursor listed =
      err (runtime_error (codes "Bybit execution list exceeded its pages and is still incomplete"))
  list_pages fetch (suc left) n cursor listed =
      next_page cursor listed (list_pages fetch left (suc n)) (read_response (fetch n cursor))

  unfoldable pub get_executions : (ℕ → Text → Response (Page E)) → Result (List E)
  get_executions fetch = list_pages fetch max_pages 0 [] []

  -- A whole listing from a request on, by its number, its cursor, and the pages that it takes.
  pub data Listing (fetch : ℕ → Text → Response (Page E)) : ℕ → ℕ → Text → List E → Type 0 where
    last :
        {n : ℕ} {cursor : Text} {p : Page E}
        → read_response (fetch n cursor) ≡ ok p
        → is_empty p.next_cursor ≡ true
        → Listing fetch 1 n cursor p.executions
    more :
        {left n : ℕ} {cursor : Text} {p : Page E} {xs : List E}
        → read_response (fetch n cursor) ≡ ok p
        → is_empty p.next_cursor ≡ false
        → same_text p.next_cursor cursor ≡ false
        → Listing fetch left (suc n) p.next_cursor xs
        → Listing fetch (suc left) n cursor (p.executions ++ xs)

  -- A listing that goes on from what is listed already.
  abbrev Onward : (ℕ → Text → Response (Page E)) → ℕ → ℕ → Text → List E → List E → Type 0
  Onward fetch left n cursor listed xs =
      (pages : ℕ) × (ys : List E) × (pages ≤ left)
      × Listing fetch pages n cursor ys
      × (xs ≡ listed ++ ys)

  next_page-ok :
      (fetch : ℕ → Text → Response (Page E)) (left n : ℕ) (cursor : Text) (listed xs : List E)
      (answer : Result (Page E))
      → read_response (fetch n cursor) ≡ answer
      → ((c : Text) (l : List E)
          → list_pages fetch left (suc n) c l ≡ ok xs
          → Onward fetch left (suc n) c l xs)
      → next_page cursor listed (list_pages fetch left (suc n)) answer ≡ ok xs
      → Onward fetch (suc left) n cursor listed xs
  unfolding next_page
  next_page-ok fetch left n cursor listed xs (err x) e ih = λ h. cc h
  next_page-ok fetch left n cursor listed xs (ok p) e ih =
      elim (Bool-cases (is_empty p.next_cursor)) [
        | inl b ↦ rw b (λ h. (1, p.executions, omega arith, last e b, grind arith))
        | inr b ↦ elim (Bool-cases (same_text p.next_cursor cursor)) [
          | inl c ↦ rw (b, c) (λ h. cc h)
          | inr c ↦
              rw (b, c)
                (λ h.
                  let r = ih p.next_cursor (listed ++ p.executions) h in
                  (
                    suc r.0,
                    p.executions ++ r.1,
                    omega (arith, r.2),
                    more e b c r.3,
                    r.4 ∙ append_assoc listed p.executions r.1,
                  ))
        ]
      ]

  list_pages-ok :
      (fetch : ℕ → Text → Response (Page E)) (left n : ℕ) (cursor : Text) (listed xs : List E)
      → list_pages fetch left n cursor listed ≡ ok xs
      → Onward fetch left n cursor listed xs
  unfolding list_pages
  list_pages-ok fetch zero n cursor listed xs h = cc h
  list_pages-ok fetch (suc left) n cursor listed xs h =
      next_page-ok fetch left n cursor listed xs (read_response (fetch n cursor)) refl
        (λ c l. list_pages-ok fetch left (suc n) c l xs) h

  list_pages-Listing :
      (fetch : ℕ → Text → Response (Page E)) (pages left n : ℕ) (cursor : Text) (listed xs : List E)
      → pages ≤ left
      → Listing fetch pages n cursor xs
      → list_pages fetch left n cursor listed ≡ ok (listed ++ xs)
  unfolding list_pages next_page
  list_pages-Listing fetch _ zero n cursor listed _ l (last e b) = elim (none_left l) [ ]
  list_pages-Listing fetch _ zero n cursor listed _ l (more e b c h) = elim (none_left l) [ ]
  list_pages-Listing fetch _ (suc left) n cursor listed _ l (last e b) = rw (e, b) refl
  list_pages-Listing fetch _ (suc left) n cursor listed _ l (more {p} {xs} e b c h) =
      rw (e, b, c)
        (list_pages-Listing fetch _ left (suc n) p.next_cursor (listed ++ p.executions) xs
            (omega arith) h
          ∙ ap ok (append_assoc listed p.executions xs))

  -- Executions are returned only as a whole listing of at most 20 pages: each page was asked for by
  -- the cursor of the page before, and the last one has no cursor.
  pub get_executions-ok :
      (fetch : ℕ → Text → Response (Page E)) (xs : List E)
      → get_executions fetch ≡ ok xs
      → (pages : ℕ) × (pages ≤ max_pages) × Listing fetch pages 0 [] xs
  unfolding get_executions
  get_executions-ok fetch xs h =
      let r = list_pages-ok fetch max_pages 0 [] [] xs h in (r.0, r.2, rw (← r.4) at r.3)

  -- A listing of at most 20 pages is returned whole.
  pub get_executions_complete :
      (fetch : ℕ → Text → Response (Page E)) (pages : ℕ) (xs : List E)
      → pages ≤ max_pages
      → Listing fetch pages 0 [] xs
      → get_executions fetch ≡ ok xs
  unfolding get_executions
  get_executions_complete fetch pages xs = list_pages-Listing fetch pages max_pages 0 [] [] xs
