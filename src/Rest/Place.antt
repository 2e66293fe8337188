-- ===== src/Rest/Place.antt =====
-- `placeOrder` and `amendOrder`: an order is sent with the steps of its instrument, or not at all.
pub mod Steps
use bybit_cpp_api.Base.{
  ℕ, ◌≡◌, ◌≢◌, refl, ap, ◌∙◌, sym, ◌⊎◌, inl, inr, Bool, true, false, not, Option, none, some, List,
  [], ◌∷◌, ◌++◌, if◌then◌else◌, is_empty, All, arith,
}
use bybit_cpp_api.Text.{Text, codes, same_text}
use bybit_cpp_api.Errors.{Error, Result, ok, err, ◌>>=◌, runtime_error}
use bybit_cpp_api.Models.Enums.{Category}
use bybit_cpp_api.Models.Enums.Names
use bybit_cpp_api.Models.Orders.{Doubles, Order}
use bybit_cpp_api.Models.Payload.{
  Decimals, Payload, Value, set_if, to_json, decimal_places_from_step,
}
use bybit_cpp_api.Models.Instruments.{Instrument}
use bybit_cpp_api.Rest.Responses.{Response, read_response}
use bybit_cpp_api.Rest.Instruments.{
  Venue, Fetched, find_instrument, found_here, found_or, search_forced, find_steps,
  get_instruments_info,
}

-- A call that may post: the payloads it posted, and its result, which is `none` if the fuel of the
-- instruments ran out.
pub record Sent (A : Type 0) : Type 0 where
  pub posted : List Payload
  pub result : Option (Result A)

-- The message of the refusal.
abbrev pub no_metadata : Text → Text → Text
no_metadata caller symbol =
    codes "Bybit "
    ++ (caller
        ++ (codes ": no instrument metadata for "
            ++ (symbol ++ codes " — refusing to guess price/qty precision")))

module _ {D A : Type 0} (post : Payload → Result (Response A)) where
  -- What follows the search: the payload is posted with the steps of the instrument that was found.
  unfoldable pub sent_with :
      Text → Text → (Instrument D → Payload) → Option (Result (Option (Instrument D))) → Sent A
  sent_with caller symbol payload none = record { posted = []; result = none }
  sent_with caller symbol payload (some (err x)) = record { posted = []; result = some (err x) }
  sent_with caller symbol payload (some (ok none)) = record {
    posted = [];
    result = some (err (runtime_error (no_metadata caller symbol)));
  }
  sent_with caller symbol payload (some (ok (some i))) = record {
    posted = payload i ∷ [];
    result = some (post (payload i) >>= read_response);
  }

module _ (ds : Doubles) (dec : Decimals ds.Double) where
  open ds use {Double}

  -- The order with the steps of the instrument.
  unfoldable pub with_steps : Order Double → Instrument Double → Order Double
  with_steps order i = record order {
    price_step = i.price_filter.tick_size;
    qty_step = i.lot_size_filter.qty_step;
  }

  -- `placeOrder`.
  unfoldable pub place_order :
      {A : Type 0}
      → (Payload → Result (Response A))
      → Venue Double
      → List (Instrument Double)
      → Order Double
      → Sent A
  unfolding sent_with with_steps
  place_order post v cache order =
      sent_with post (codes "placeOrder") order.symbol (λ i. to_json ds dec (with_steps order i))
        (find_steps ds v cache order.category order.symbol).result

  -- The payload of `amendOrder`.
  unfoldable pub amendment :
      Category → Text → Text → Text → Double → Double → Instrument Double → Payload
  amendment category symbol order_id order_link_id price qty i =
      ((codes "category", Value.text (Names.category category))
        ∷ (codes "symbol", Value.text symbol)
        ∷ [])
      ++ (set_if (not (is_empty order_id)) (codes "orderId") (Value.text order_id)
          ++ (set_if (not (is_empty order_link_id)) (codes "orderLinkId") (Value.text order_link_id)
              ++ (set_if (ds.less ds.zero price) (codes "price") (
                    Value.text
                      (dec.fixed (decimal_places_from_step ds dec i.price_filter.tick_size) price))
                  ++ set_if (ds.less ds.zero qty) (codes "qty") (
                      Value.text (
                        dec.fixed (decimal_places_from_step ds dec i.lot_size_filter.qty_step)
                          qty)))))

  -- `amendOrder`.
  unfoldable pub amend_order :
      {A : Type 0}
      → (Payload → Result (Response A))
      → Venue Double
      → List (Instrument Double)
      → Category
      → Text
      → Text
      → Text
      → Double
      → Double
      → Sent A
  unfolding sent_with amendment
  amend_order post v cache category symbol order_id order_link_id price qty =
      sent_with post (codes "amendOrder") symbol
        (amendment category symbol order_id order_link_id price qty)
        (find_steps ds v cache category symbol).result
