-- ===== src/Rest/Instruments/Search.antt =====
-- Where `findPricePrecisionsForInstrument` finds its instrument.
use bybit_cpp_api.Base.{
  ◌≡◌, refl, sym, ap, ◌⊎◌, ◌++◌, ◌||◌, if◌then◌else◌, Bool, true, false, Bool-cases, inl, inr,
  Option, none, some, List, [], ◌∷◌, is_empty, All,
}
use bybit_cpp_api.Text.{Text, same_text}
use bybit_cpp_api.Errors.{Result, ok, err}
use bybit_cpp_api.Models.Enums.{Category}
use bybit_cpp_api.Models.Orders.{Doubles}
use bybit_cpp_api.Models.Instruments.{Instrument}
use bybit_cpp_api.Rest.Instruments.{
  Venue, all_pages, primed, fetched, find_instrument, found_here, found_or, search_forced,
  find_steps, get_instruments_info,
}

module _ {D : Type 0} (symbol : Text) where
  abbrev pub Differs : Instrument D → Type 0
  Differs i = same_text i.symbol symbol ≡ false

  -- The first instrument of a listing that has the symbol.
  abbrev pub IsFirst : List (Instrument D) → Instrument D → Type 0
  IsFirst l i =
      (before : List (Instrument D)) × (after : List (Instrument D)) × (l ≡ before ++ (i ∷ after))
      × All Differs before
      × (same_text i.symbol symbol ≡ true)

  abbrev pub Search : List (Instrument D) → Option (Instrument D) → Type 0
  Search l none = All Differs l
  Search l (some i) = IsFirst l i

  Search-cons :
      (i : Instrument D) (l : List (Instrument D)) (o : Option (Instrument D))
      → Differs i
      → Search l o
      → Search (i ∷ l) o
  Search-cons i l none h k = (h, k)
  Search-cons i l (some j) h k = (i ∷ k.0, k.1, ap (λ r. i ∷ r) k.2, (h, k.3), k.4)

  find_instrument-Search : (l : List (Instrument D)) → Search l (find_instrument l symbol)
  unfolding find_instrument
  find_instrument-Search [] = tt
  find_instrument-Search (i ∷ l) = elim (Bool-cases (same_text i.symbol symbol)) [
    | inl h ↦ rw h ([], l, refl, tt, h)
    | inr h ↦ rw h (Search-cons i l (find_instrument l symbol) h (find_instrument-Search l))
  ]

module _ {D : Type 0} (v : Venue D) (cache : List (Instrument D)) (category : Category)
    (symbol : Text) where
  -- The listing that is searched first: the cache, or the venue's listing if the cache is empty.
  abbrev pub first_listing : Option (Result (List (Instrument D)))
  first_listing = if is_empty cache then all_pages v category [] [] else some (ok cache)

  -- The first instrument with the symbol, of that listing or, where it has none, of the venue's listing
  -- for the symbol.
  abbrev pub IsKnown : Instrument D → Type 0
  IsKnown i =
      (l : List (Instrument D)) × (first_listing ≡ some (ok l))
      × (IsFirst symbol l i
          ⊎ (All (Differs symbol) l
              × ((m : List (Instrument D)) × (all_pages v category symbol [] ≡ some (ok m))
                  × IsFirst symbol m i)))

  abbrev pub FoundKnown : Option (Result (Option (Instrument D))) → Type 0
  FoundKnown (some (ok (some i))) = IsKnown i
  FoundKnown _ = Unit

primed-result :
    {D : Type 0} (cache : List (Instrument D)) (o : Option (Result (List (Instrument D))))
    → (primed cache o).result ≡ o
unfolding primed
primed-result cache none = refl
primed-result cache (some (err x)) = refl
primed-result cache (some (ok l)) = refl

fetched-result :
    {D : Type 0} (cache : List (Instrument D)) (symbol : Text)
    (o : Option (Result (List (Instrument D))))
    → (fetched cache symbol o).result ≡ o
unfolding fetched
fetched-result cache [] o = primed-result cache o
fetched-result cache (c ∷ symbol) o = refl

or_true : (b : Bool) → (b || true) ≡ true
or_true true = refl
or_true false = refl

module _ (ds : Doubles) (v : Venue ds.Double) (category : Category) where
  listing-first :
      (cache : List (Instrument ds.Double)) (symbol : Text)
      → (get_instruments_info ds v cache category [] false []).result
        ≡ first_listing v cache category symbol
  unfolding get_instruments_info
  listing-first [] symbol = fetched-result [] [] (all_pages v category [] [])
  listing-first (i ∷ cache) symbol = refl

  listing-forced :
      (cache : List (Instrument ds.Double)) (symbol : Text)
      → (get_instruments_info ds v cache category symbol true []).result
        ≡ all_pages v category symbol []
  unfolding get_instruments_info
  listing-forced cache symbol =
      rw (or_true (is_empty cache)) (fetched-result cache symbol (all_pages v category symbol []))

module _ (ds : Doubles) (v : Venue ds.Double) (cache : List (Instrument ds.Double))
    (category : Category) (symbol : Text) where
  found_forced :
      (l c m : List (Instrument ds.Double)) (o : Option (Instrument ds.Double))
      → first_listing v cache category symbol ≡ some (ok l)
      → All (Differs symbol) l
      → all_pages v category symbol [] ≡ some (ok m)
      → Search symbol m o
      → FoundKnown v cache category symbol
          (found_here ds c o (λ c. record { cache = c; result = some (ok none) })).result
  found_forced l c m none e k p q = tt
  found_forced l c m (some i) e k p q = (l, e, inr (k, (m, p, q)))

  forced_lem :
      (l c : List (Instrument ds.Double)) (o : Option (Result (List (Instrument ds.Double))))
      → first_listing v cache category symbol ≡ some (ok l)
      → All (Differs symbol) l
      → all_pages v category symbol [] ≡ o
      → FoundKnown v cache category symbol
          (found_or ds symbol c o (λ c. record { cache = c; result = some (ok none) })).result
  forced_lem l c none e k p = tt
  forced_lem l c (some (err x)) e k p = tt
  forced_lem l c (some (ok m)) e k p =
      found_forced l c m (find_instrument m symbol) e k p (find_instrument-Search symbol m)

  search_forced-FoundKnown :
      (l c : List (Instrument ds.Double))
      → first_listing v cache category symbol ≡ some (ok l)
      → All (Differs symbol) l
      → FoundKnown v cache category symbol (search_forced ds v category symbol c).result
  unfolding search_forced
  search_forced-FoundKnown l c e k =
      forced_lem l (get_instruments_info ds v c category symbol true []).cache
        (get_instruments_info ds v c category symbol true []).result e k
        (sym (listing-forced ds v category c symbol))

  found_first :
      (l c : List (Instrument ds.Double)) (o : Option (Instrument ds.Double))
      → first_listing v cache category symbol ≡ some (ok l)
      → Search symbol l o
      → FoundKnown v cache category symbol
          (found_here ds c o (search_forced ds v category symbol)).result
  found_first l c none e k = search_forced-FoundKnown l c e k
  found_first l c (some i) e k = (l, e, inl k)

  first_lem :
      (c : List (Instrument ds.Double)) (o : Option (Result (List (Instrument ds.Double))))
      → first_listing v cache category symbol ≡ o
      → FoundKnown v cache category symbol
          (found_or ds symbol c o (search_forced ds v category symbol)).result
  first_lem c none e = tt
  first_lem c (some (err x)) e = tt
  first_lem c (some (ok l)) e =
      found_first l c (find_instrument l symbol) e (find_instrument-Search symbol l)

  pub find_steps-FoundKnown :
      FoundKnown v cache category symbol (find_steps ds v cache category symbol).result
  unfolding find_steps
  find_steps-FoundKnown =
      first_lem (get_instruments_info ds v cache category [] false []).cache
        (get_instruments_info ds v cache category [] false []).result
        (sym (listing-first ds v category cache symbol))
