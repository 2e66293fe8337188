-- ===== src/Rest/Instruments/Cache.antt =====
-- What may stand in the instrument cache.
use bybit_cpp_api.Base.{
  ◌≡◌, refl, ◌⊎◌, inl, inr, Bool, true, false, Option, none, some, List, [], ◌∷◌, is_empty, arith,
}
use bybit_cpp_api.Text.{Text}
use bybit_cpp_api.Errors.{Result, ok, err}
use bybit_cpp_api.Models.Enums.{Category}
use bybit_cpp_api.Models.Orders.{Doubles}
use bybit_cpp_api.Models.Instruments.{Instrument}
use bybit_cpp_api.Rest.Instruments.{
  Venue, Fetched, all_pages, primed, fetched, find_instrument, spot_by_status, get_instruments_info,
  found_here, found_or, search_forced, find_steps, get_instrument_info,
}

module _ (ds : Doubles) (v : Venue ds.Double) where
  -- A cache that holds what it held, or a whole listing of a category that an empty one was primed with.
  abbrev pub Primed : List (Instrument ds.Double) → Category → List (Instrument ds.Double) → Type 0
  Primed cache category cache' =
      (cache' ≡ cache) ⊎ ((cache ≡ []) × (all_pages v category [] [] ≡ some (ok cache')))

  -- A listing for a symbol, by no status, leaves the cache as it is.
  pub get_instruments_info-cache :
      (cache : List (Instrument ds.Double)) (category : Category) (symbol : Text) (force : Bool)
      → is_empty symbol ≡ false
      → (get_instruments_info ds v cache category symbol force []).cache ≡ cache
  unfolding get_instruments_info fetched
  get_instruments_info-cache cache category symbol force h = rw h (ground arith)

  primed-Primed :
      (category : Category) (temp : Option (Result (List (Instrument ds.Double))))
      → all_pages v category [] [] ≡ temp
      → Primed [] category (primed [] temp).cache
  unfolding primed
  primed-Primed category none e = inl refl
  primed-Primed category (some (err x)) e = inl refl
  primed-Primed category (some (ok temp)) e = inr (refl, e)

  whole-Primed :
      (cache : List (Instrument ds.Double)) (category : Category)
      → Primed cache category (get_instruments_info ds v cache category [] false []).cache
  unfolding get_instruments_info fetched
  whole-Primed [] category = primed-Primed category (all_pages v category [] []) refl
  whole-Primed (i ∷ cache) category = inl refl

  found_or-cache :
      (P : List (Instrument ds.Double) → Type 0) (symbol : Text)
      (cache : List (Instrument ds.Double))
      (listing : Option (Result (List (Instrument ds.Double))))
      (next : List (Instrument ds.Double) → Fetched ds.Double (Option (Instrument ds.Double)))
      → P cache
      → P (next cache).cache
      → P (found_or ds symbol cache listing next).cache
  found_or-cache P symbol cache none next h k = h
  found_or-cache P symbol cache (some (err x)) next h k = h
  found_or-cache P symbol cache (some (ok instruments)) next h k =
      elim (find_instrument instruments symbol) as (λ o. P (found_here ds cache o next).cache) [
        | some i ↦ h
        | none ↦ k
      ]

  search_forced-cache :
      (P : List (Instrument ds.Double) → Type 0) (category : Category) (symbol : Text)
      (cache : List (Instrument ds.Double))
      → is_empty symbol ≡ false
      → P cache
      → P (search_forced ds v category symbol cache).cache
  unfolding search_forced
  search_forced-cache P category symbol cache h p =
      found_or-cache P symbol (get_instruments_info ds v cache category symbol true []).cache
        (get_instruments_info ds v cache category symbol true []).result
        (λ cache. record { cache = cache; result = some (ok none) })
        (rw (get_instruments_info-cache cache category symbol true h) p)
        (rw (get_instruments_info-cache cache category symbol true h) p)

  -- The search for the steps of a symbol that is not empty leaves the cache as it is, but for an empty one,
  -- which it primes with a whole listing of the category.
  pub find_steps-Primed :
      (cache : List (Instrument ds.Double)) (category : Category) (symbol : Text)
      → is_empty symbol ≡ false
      → Primed cache category (find_steps ds v cache category symbol).cache
  unfolding find_steps
  find_steps-Primed cache category symbol h =
      found_or-cache (Primed cache category) symbol
        (get_instruments_info ds v cache category [] false []).cache
        (get_instruments_info ds v cache category [] false []).result
        (search_forced ds v category symbol) (whole-Primed cache category)
        (search_forced-cache (Primed cache category) category symbol
          (get_instruments_info ds v cache category [] false []).cache h
          (whole-Primed cache category))

  pub get_instrument_info-Primed :
      (cache : List (Instrument ds.Double)) (category : Category) (symbol : Text)
      → is_empty symbol ≡ false
      → Primed cache category (get_instrument_info ds v cache category symbol).cache
  unfolding get_instrument_info
  get_instrument_info-Primed [] category symbol h =
      found_or-cache (Primed [] category) symbol
        (get_instruments_info ds v [] category [] false []).cache
        (get_instruments_info ds v [] category [] false []).result
        (search_forced ds v category symbol) (whole-Primed [] category)
        (search_forced-cache (Primed [] category) category symbol
          (get_instruments_info ds v [] category [] false []).cache h (whole-Primed [] category))
  get_instrument_info-Primed (i ∷ cache) category symbol h =
      found_or-cache (Primed (i ∷ cache) category) symbol (i ∷ cache) (some (ok (i ∷ cache)))
        (search_forced ds v category symbol) (inl refl)
        (search_forced-cache (Primed (i ∷ cache) category) category symbol (i ∷ cache) h (inl refl))

  -- A listing by status of spot symbols puts a listing filtered by a symbol into an empty cache.
  pub spot_by_status-filtered :
      (symbol : Text) (temp : List (Instrument ds.Double))
      → all_pages v Category.spot symbol [] ≡ some (ok temp)
      → (spot_by_status ds v [] symbol).cache ≡ temp
  unfolding spot_by_status primed
  spot_by_status-filtered symbol temp h = rw h refl
