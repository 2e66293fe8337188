-- ===== src/Gateway/Specs/Kept.antt =====
-- Specifications that are kept, and a start that ends with a live stream.
use mathlib.Core.Path.{subst}
use bybit_cpp_api.Base.{
  ℕ, zero, suc, ◌≡◌, refl, true, false, Bool-cases, ◌++◌, inl, inr, Option, none, some, List, [],
  ◌∷◌, if◌then◌else◌, lookup, lookup-insert_or_assign, arith,
}
use bybit_cpp_api.Text.{Text, codes, same_text, same_text-IsEquality}
use bybit_cpp_api.Errors.{Result, ok, err, runtime_error}
use bybit_cpp_api.Models.Enums.{Category}
use bybit_cpp_api.Models.Orders.{Doubles}
use bybit_cpp_api.Models.Instruments.{Instrument}
use bybit_cpp_api.Rest.Instruments.{
  Venue, find_instrument, get_instruments_info, fetched, primed, all_pages,
}
use bybit_cpp_api.Client.{Client}
use bybit_cpp_api.Client.Private.{connect, is_live}
use bybit_cpp_api.Gateway.Specs.{
  Specs, InstrumentSpec, Called, keep_or, known_or, pass, spec_of, forced_pass, instrument_spec,
  refresh_instruments, Done, await_live, started_with, start,
}

module _ {D : Type 0} (symbol : Text) where
  -- A specification that a call returns is kept.
  abbrev KeptIn : List (Text × InstrumentSpec D) → Option (Result (InstrumentSpec D)) → Type 0
  KeptIn spec_cache (some (ok spec)) = lookup same_text symbol spec_cache ≡ some spec
  KeptIn spec_cache _ = Unit

  abbrev Keeps : Called D (InstrumentSpec D) → Type 0
  Keeps c = KeptIn c.specs.spec_cache c.result

  keep_or-Keeps :
      (instruments : List (Instrument D)) (spec_cache : List (Text × InstrumentSpec D))
      (next : List (Instrument D) → Called D (InstrumentSpec D)) (o : Option (Instrument D))
      → ((instruments : List (Instrument D)) → Keeps (next instruments))
      → Keeps (keep_or symbol instruments spec_cache next o)
  keep_or-Keeps instruments spec_cache next none k = k instruments
  keep_or-Keeps instruments spec_cache next (some i) k =
      lookup-insert_or_assign same_text same_text-IsEquality symbol (spec_of symbol i) spec_cache

  pass-Keeps :
      (instruments : List (Instrument D)) (spec_cache : List (Text × InstrumentSpec D))
      (next : List (Instrument D) → Called D (InstrumentSpec D))
      (o : Option (Result (List (Instrument D))))
      → ((instruments : List (Instrument D)) → Keeps (next instruments))
      → Keeps (pass symbol instruments spec_cache next o)
  pass-Keeps instruments spec_cache next none k = tt
  pass-Keeps instruments spec_cache next (some (err x)) k = tt
  pass-Keeps instruments spec_cache next (some (ok listing)) k =
      keep_or-Keeps instruments spec_cache next (find_instrument listing symbol) k

  kept :
      (spec_cache : List (Text × InstrumentSpec D)) (o : Option (Result (InstrumentSpec D)))
      (spec : InstrumentSpec D)
      → o ≡ some (ok spec)
      → KeptIn spec_cache o
      → lookup same_text symbol spec_cache ≡ some spec
  kept spec_cache o spec h k = subst (KeptIn spec_cache) h k

  known_or-Keeps :
      (s : Specs D) (searched : Called D (InstrumentSpec D)) (o : Option (InstrumentSpec D))
      → lookup same_text symbol s.spec_cache ≡ o
      → Keeps searched
      → Keeps (known_or s searched o)
  known_or-Keeps s searched (some spec) e k = e
  known_or-Keeps s searched none e k = k

module _ (ds : Doubles) (v : Venue ds.Double) (symbol : Text) where
  known_spec :
      (s : Specs ds.Double) (spec : InstrumentSpec ds.Double)
      → lookup same_text symbol s.spec_cache ≡ some spec
      → instrument_spec ds v symbol s ≡ record { specs = s; result = some (ok spec) }
  unfolding instrument_spec
  known_spec s spec h = rw (instrument_spec, h) refl

module _ (ds : Doubles) (v : Venue ds.Double) (symbol : Text) where
  forced_pass-Keeps :
      (spec_cache : List (Text × InstrumentSpec ds.Double))
      (instruments : List (Instrument ds.Double))
      → Keeps symbol (forced_pass ds v symbol spec_cache instruments)
  unfolding forced_pass
  forced_pass-Keeps spec_cache instruments =
      let f = get_instruments_info ds v instruments Category.linear symbol true [] in
      pass-Keeps symbol f.cache spec_cache
        (λ instruments. record {
          specs = record { instruments = instruments; spec_cache = spec_cache };
          result = some (err (runtime_error (codes "Bybit: unknown instrument " ++ symbol)));
        })
        f.result (λ instruments. tt)

  instrument_spec-Keeps : (s : Specs ds.Double) → Keeps symbol (instrument_spec ds v symbol s)
  unfolding instrument_spec
  instrument_spec-Keeps s =
      let f = get_instruments_info ds v s.instruments Category.linear symbol false [] in
      let searched =
        pass symbol f.cache s.spec_cache (forced_pass ds v symbol s.spec_cache) f.result in
      known_or-Keeps symbol s searched (lookup same_text symbol s.spec_cache) refl (
        pass-Keeps symbol f.cache s.spec_cache (forced_pass ds v symbol s.spec_cache) f.result
          (forced_pass-Keeps s.spec_cache))

  -- A specification that `instrumentSpec` returned is the answer of every further call, which asks the
  -- venue nothing, whatever it would answer by then.
  pub instrument_spec_again :
      (later : Venue ds.Double) (s : Specs ds.Double) (spec : InstrumentSpec ds.Double)
      → (instrument_spec ds v symbol s).result ≡ some (ok spec)
      → let s' = (instrument_spec ds v symbol s).specs in
        instrument_spec ds later symbol s' ≡ record { specs = s'; result = some (ok spec) }
  instrument_spec_again later s spec h =
      known_spec ds later symbol (instrument_spec ds v symbol s).specs spec (
        kept symbol (instrument_spec ds v symbol s).specs.spec_cache
          (instrument_spec ds v symbol s).result spec h (instrument_spec-Keeps s))

forced :
    (ds : Doubles) (v : Venue ds.Double) (cache listing : List (Instrument ds.Double))
    → all_pages v Category.linear [] [] ≡ some (ok listing)
    → get_instruments_info ds v cache Category.linear [] true []
      ≡ record { cache = listing; result = some (ok listing) }
unfolding get_instruments_info fetched primed
forced ds v [] listing h = rw h refl
forced ds v (i ∷ cache) listing h = rw h refl

refreshed_specs :
    (ds : Doubles) (v : Venue ds.Double) (s : Specs ds.Double)
    (listing : List (Instrument ds.Double))
    → all_pages v Category.linear [] [] ≡ some (ok listing)
    → (refresh_instruments ds v s).specs ≡ record { instruments = listing; spec_cache = [] }
unfolding refresh_instruments
refreshed_specs ds v s listing h = rw (forced ds v s.instruments listing h) refl

-- A refresh and then a question: where the forced listing of the whole category answers with instruments, of
-- which one is the first with the symbol, the specification is that instrument's, whatever was kept before.
pub instrument_spec-refresh_instruments :
    (ds : Doubles) (v later : Venue ds.Double) (symbol : Text) (s : Specs ds.Double)
    (j i : Instrument ds.Double) (rest : List (Instrument ds.Double))
    → all_pages v Category.linear [] [] ≡ some (ok (j ∷ rest))
    → find_instrument (j ∷ rest) symbol ≡ some i
    → (instrument_spec ds later symbol (refresh_instruments ds v s).specs).result
      ≡ some (ok (spec_of symbol i))
unfolding instrument_spec get_instruments_info lookup
instrument_spec-refresh_instruments ds v later symbol s j i rest h f =
    rw (refreshed_specs ds v s (j ∷ rest) h, f) refl

-- The client that the loop left was live: its last `isLive` answered true.
abbrev pub LeftLive : Client × Done → Type 0
LeftLive r = (c : Client) × ((is_live c).1 ≡ true) × (r.0 ≡ (is_live c).0)

live_or :
    (c : Client) (rest : Client × Done)
    → (rest.1 ≡ ok tt → LeftLive rest)
    → (if (is_live c).1 then ((is_live c).0, ok tt) else rest).1 ≡ ok tt
    → LeftLive (if (is_live c).1 then ((is_live c).0, ok tt) else rest)
live_or c rest k = elim (Bool-cases (is_live c).1) [
  | inl l ↦ rw l (λ h. (c, l, refl))
  | inr l ↦ rw l k
]

await_live-LeftLive :
    (n : ℕ) (between : ℕ → Client → Client) (c : Client)
    → (await_live n between c).1 ≡ ok tt
    → LeftLive (await_live n between c)
unfolding await_live
await_live-LeftLive zero between c h = absurd (grind arith)
await_live-LeftLive (suc n) between c h =
    live_or c (await_live n between (between n (is_live c).0))
      (await_live-LeftLive n between (between n (is_live c).0)) h

-- A start that returned without an error left a live client.
abbrev pub LiveIfOk : Option (Client × Done) → Type 0
LiveIfOk none = Unit
LiveIfOk (some (c, err x)) = Unit
LiveIfOk (some (c, ok u)) = LeftLive (c, ok u)

live_if_ok : (r : Client × Done) → (r.1 ≡ ok tt → LeftLive r) → LiveIfOk (some r)
live_if_ok (c, err x) k = tt
live_if_ok (c, ok tt) k = k refl

started_with-LiveIfOk :
    (ds : Doubles) (v : Venue ds.Double) (between : ℕ → Client → Client) (c : Client)
    (o : Option (Result (List (Instrument ds.Double))))
    → LiveIfOk (started_with ds v between c o)
started_with-LiveIfOk ds v between c none = tt
started_with-LiveIfOk ds v between c (some (err x)) = tt
started_with-LiveIfOk ds v between c (some (ok listing)) =
    live_if_ok (await_live 100 between (connect c)) (await_live-LeftLive 100 between (connect c))

-- A `start` that returns without an error leaves a client that was live at its last look.
pub start-LiveIfOk :
    (ds : Doubles) (v : Venue ds.Double) (between : ℕ → Client → Client)
    (cache : List (Instrument ds.Double)) (c : Client)
    → LiveIfOk (start ds v between cache c).1
unfolding start
start-LiveIfOk ds v between cache c =
    started_with-LiveIfOk ds v between c
      (get_instruments_info ds v cache Category.linear [] true []).result
