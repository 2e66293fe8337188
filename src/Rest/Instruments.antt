-- ===== src/Rest/Instruments.antt =====
-- The instrument cache of the REST client, and what reads it.
pub mod Cache
pub mod Search
use bybit_cpp_api.Base.{
  ℕ, ◌≡◌, refl, Bool, true, false, not, ◌&&◌, ◌||◌, Option, none, some, List, [], ◌∷◌, ◌++◌,
  reverse, if◌then◌else◌, is_empty,
}
use bybit_cpp_api.Text.{Text, codes, same_text, starts_with}
use bybit_cpp_api.Errors.{Error, Result, ok, err}
use bybit_cpp_api.Models.Enums.{Category, ContractStatus}
use bybit_cpp_api.Models.Orders.{Doubles}
use bybit_cpp_api.Models.Instruments.{Instrument, new_instrument}
use bybit_cpp_api.Rest.Responses.{Response}
use bybit_cpp_api.Rest.Pages.{Batch, gather}

-- The venue's answers during one call: the pages of instruments by category, symbol and status, the
-- symbols of its public site, and a number of pages as fuel.
pub record Venue (D : Type 0) : Type 0 where
  pub instruments : Category → Text → Text → ℕ → Text → Response (Batch (Instrument D))
  pub public_symbols : List Text
  pub fuel : ℕ

-- A call that may change the cache: the cache behind it, and its result, which is `none` if the fuel
-- ran out.
pub record Fetched (D A : Type 0) : Type 0 where
  pub cache : List (Instrument D)
  pub result : Option (Result A)

module _ {D : Type 0} where
  -- The pages of `P::getInstrumentsInfo`.
  abbrev pub all_pages : Venue D → Category → Text → Text → Option (Result (List (Instrument D)))
  all_pages v category symbol status = gather (v.instruments category symbol status) v.fuel 0 [] []

  -- A listing that goes into the cache.
  unfoldable pub primed :
      List (Instrument D) → Option (Result (List (Instrument D))) → Fetched D (List (Instrument D))
  primed cache none = record { cache = cache; result = none }
  primed cache (some (err x)) = record { cache = cache; result = some (err x) }
  primed cache (some (ok temp)) = record { cache = temp; result = some (ok temp) }

  -- A listing for a symbol stays out of the cache.
  unfoldable pub fetched :
      List (Instrument D)
      → Text
      → Option (Result (List (Instrument D)))
      → Fetched D (List (Instrument D))
  unfolding primed
  fetched cache symbol temp =
      if is_empty symbol then primed cache temp else record { cache = cache; result = temp }

  -- `findInstrument`.
  unfoldable pub find_instrument : List (Instrument D) → Text → Option (Instrument D)
  find_instrument [] symbol = none
  find_instrument (i ∷ instruments) symbol =
      if same_text i.symbol symbol then some i else find_instrument instruments symbol

abbrev pub ends_with : Text → Text → Bool
ends_with part t = starts_with (reverse part) (reverse t)

module _ (ds : Doubles) where
  open ds use {Double}

  -- The symbols of the public site that are not active.
  unfoldable pub delisted : List (Instrument Double) → List Text → List (Instrument Double)
  unfolding find_instrument
  delisted active [] = []
  delisted active (symbol ∷ symbols) =
      let rest = delisted active symbols in
      elim (find_instrument active symbol) [
        | some i ↦ rest
        | none ↦
            if ends_with (codes "USDT") symbol
            then record (new_instrument ds) {
              symbol = symbol;
              quote_coin = codes "USDT";
              contract_status = ContractStatus.closed;
            }
              ∷ rest
            else rest
      ]

  abbrev pub delisted_result :
      List Text
      → Option (Result (List (Instrument Double)))
      → Option (Result (List (Instrument Double)))
  delisted_result symbols none = none
  delisted_result symbols (some (err x)) = some (err x)
  delisted_result symbols (some (ok active)) = some (ok (delisted active symbols))

  -- A listing of spot symbols by status: it primes an empty cache, with the symbol that was asked for.
  unfoldable pub spot_by_status :
      Venue Double → List (Instrument Double) → Text → Fetched Double (List (Instrument Double))
  unfolding primed
  spot_by_status v cache symbol =
      let f =
        if is_empty cache
        then primed cache (all_pages v Category.spot symbol [])
        else record { cache = cache; result = some (ok cache) } in
      record { cache = f.cache; result = delisted_result v.public_symbols f.result }

  abbrev pub is_spot : Category → Bool
  is_spot Category.spot = true
  is_spot _ = false

  -- `getInstrumentsInfo`.
  unfoldable pub get_instruments_info :
      Venue Double
      → List (Instrument Double)
      → Category
      → Text
      → Bool
      → Text
      → Fetched Double (List (Instrument Double))
  unfolding spot_by_status fetched
  get_instruments_info v cache category symbol force status =
      if not (is_empty status)
      then (if is_spot category
          then spot_by_status v cache symbol
          else record { cache = cache; result = all_pages v category symbol status })
      else if is_empty cache || force
      then fetched cache symbol (all_pages v category symbol [])
      else record { cache = cache; result = some (ok cache) }

  abbrev pub found_here :
      List (Instrument Double)
      → Option (Instrument Double)
      → (List (Instrument Double) → Fetched Double (Option (Instrument Double)))
      → Fetched Double (Option (Instrument Double))
  found_here cache (some i) next = record { cache = cache; result = some (ok (some i)) }
  found_here cache none next = next cache

  -- A listing is searched for the symbol; where it is not found, `next` goes on.
  abbrev pub found_or :
      Text
      → List (Instrument Double)
      → Option (Result (List (Instrument Double)))
      → (List (Instrument Double) → Fetched Double (Option (Instrument Double)))
      → Fetched Double (Option (Instrument Double))
  found_or symbol cache none next = record { cache = cache; result = none }
  found_or symbol cache (some (err x)) next = record { cache = cache; result = some (err x) }
  found_or symbol cache (some (ok instruments)) next =
      found_here cache (find_instrument instruments symbol) next

  -- A forced listing for the symbol.
  unfoldable pub search_forced :
      Venue Double
      → Category
      → Text
      → List (Instrument Double)
      → Fetched Double (Option (Instrument Double))
  search_forced v category symbol cache =
      let f = get_instruments_info v cache category symbol true [] in
      found_or symbol f.cache f.result (λ cache. record { cache = cache; result = some (ok none) })

  -- The search of `findPricePrecisionsForInstrument`, whose steps are those of the instrument.
  unfoldable pub find_steps :
      Venue Double
      → List (Instrument Double)
      → Category
      → Text
      → Fetched Double (Option (Instrument Double))
  unfolding search_forced
  find_steps v cache category symbol =
      let f = get_instruments_info v cache category [] false [] in
      found_or symbol f.cache f.result (search_forced v category symbol)

  -- `getInstrumentInfo`.
  unfoldable pub get_instrument_info :
      Venue Double
      → List (Instrument Double)
      → Category
      → Text
      → Fetched Double (Option (Instrument Double))
  unfolding search_forced
  get_instrument_info v cache category symbol =
      let f =
        if is_empty cache
        then get_instruments_info v cache category [] false []
        else record { cache = cache; result = some (ok cache) } in
      found_or symbol f.cache f.result (search_forced v category symbol)
