-- ===== src/Rest/Place/Steps.antt =====
-- What is posted carries the steps of an instrument that the cache or the venue lists.
use bybit_cpp_api.Base.{
  ◌≡◌, refl, Bool, true, false, Option, none, some, List, is_empty, All, arith,
}
use bybit_cpp_api.Text.{Text, codes}
use bybit_cpp_api.Errors.{Result, ok, err}
use bybit_cpp_api.Models.Enums.{Category}
use bybit_cpp_api.Models.Orders.{Doubles}
use bybit_cpp_api.Models.Payload.{Decimals, Payload}
use bybit_cpp_api.Models.Instruments.{Instrument}
use bybit_cpp_api.Rest.Responses.{Response}
use bybit_cpp_api.Rest.Instruments.{Venue, find_steps}
use bybit_cpp_api.Rest.Instruments.Search.{IsKnown, FoundKnown, find_steps-FoundKnown}
use bybit_cpp_api.Rest.Place.{Sent, sent_with, amendment, amend_order}

abbrev pub is_accepted : {A : Type 0} → Option (Result A) → Bool
is_accepted (some (ok a)) = true
is_accepted _ = false

-- What was posted is the payload of an instrument that is known, and without a post nothing is accepted.
abbrev pub PostsWithSteps :
    {D A : Type 0} → (Instrument D → Type 0) → (Instrument D → Payload) → Sent A → Type 0
PostsWithSteps {D} Known payload s =
    All (λ p. (i : Instrument D) × Known i × (p ≡ payload i)) s.posted
    × (is_empty s.posted ≡ true → is_accepted s.result ≡ false)

module _ {D A : Type 0} (post : Payload → Result (Response A)) (v : Venue D)
    (cache : List (Instrument D)) (category : Category) (symbol : Text) where
  sent_with-PostsWithSteps :
      (caller : Text) (payload : Instrument D → Payload)
      (o : Option (Result (Option (Instrument D))))
      → FoundKnown v cache category symbol o
      → PostsWithSteps
          (IsKnown v cache category symbol)
          payload
          (sent_with post caller symbol payload o)
  unfolding sent_with
  sent_with-PostsWithSteps caller payload none h = (tt, λ e. refl)
  sent_with-PostsWithSteps caller payload (some (err x)) h = (tt, λ e. refl)
  sent_with-PostsWithSteps caller payload (some (ok none)) h = (tt, λ e. refl)
  sent_with-PostsWithSteps caller payload (some (ok (some i))) h =
      (((i, h, refl), tt), λ e. grind arith)

module _ (ds : Doubles) (dec : Decimals ds.Double) {A : Type 0}
    (post : Payload → Result (Response A)) (v : Venue ds.Double)
    (cache : List (Instrument ds.Double)) where
  -- `amendOrder` posts at most the payload of the amendment with the steps of one instrument, found like
  -- that of an order, and without a post it accepts nothing.
  pub amend_order-PostsWithSteps :
      (category : Category) (symbol order_id order_link_id : Text) (price qty : ds.Double)
      → PostsWithSteps
          (IsKnown v cache category symbol)
          (amendment ds dec category symbol order_id order_link_id price qty)
          (amend_order ds dec post v cache category symbol order_id order_link_id price qty)
  unfolding amend_order
  amend_order-PostsWithSteps category symbol order_id order_link_id price qty =
      sent_with-PostsWithSteps post v cache category symbol (codes "amendOrder")
        (amendment ds dec category symbol order_id order_link_id price qty)
        (find_steps ds v cache category symbol).result
        (find_steps-FoundKnown ds v cache category symbol)
