-- ===== src/Gateway/Sweeps.antt =====
-- What the sweep of stray orders may touch, and what it counts.
use mathlib.Core.Path.{ap₂}
use bybit_cpp_api.Base.{
  ℕ, suc, ◌+◌, ◌≡◌, refl, ap, ◌∙◌, Bool, true, false, not, List, [], ◌∷◌, arith, if◌then◌else◌,
  Bool-cases, inl, inr, All, length,
}
use bybit_cpp_api.Text.{Text, starts_with}
use bybit_cpp_api.Errors.{
  Error, Result, ok, err, what, transport_error, execution_unknown, order_not_found, runtime_error,
  gateway_error,
}
use bybit_cpp_api.Models.Enums.{Category}
use bybit_cpp_api.Models.Orders.{Doubles, OrderResponse}
use bybit_cpp_api.Gateway.Interface.{RestApi, Gateway, FillEvent}
use bybit_cpp_api.Gateway.Reasons.{is_order_gone_reason}
use bybit_cpp_api.Gateway.Cancel.{
  CancelRequest, Sweep, cancel_answered, cancel_failed, reconcile_missed_fills, read_back,
  cancel_call, cancel_asked, ask_cancel, swept_with, swept_first, sweep, sweep_listed,
  cancel_stray_orders,
}

module _ (ds : Doubles) (api : RestApi ds.Double) (g : Gateway) (prefix : Text) where
  -- The cancel of an order by its link id, and those of the listed orders that carry the prefix.
  abbrev pub cancel_of : OrderResponse ds.Double → CancelRequest
  cancel_of order = record {
    category = Category.linear;
    symbol = order.symbol;
    order_id = [];
    order_link_id = order.order_link_id;
  }

  unfoldable pub strays : List (OrderResponse ds.Double) → List CancelRequest
  strays [] = []
  strays (order ∷ orders) =
      if not (starts_with prefix order.order_link_id)
      then strays orders
      else cancel_of order ∷ strays orders

  -- The venue consents to a cancel, or answers that the order is gone.
  abbrev pub is_granted : Result Text → Bool
  is_granted (ok order_id) = true
  is_granted (err e) = is_order_gone_reason (what e)

  -- What the venue answers to a request.
  abbrev pub answer_to : CancelRequest → Result Text
  answer_to r = api.cancel_order r.category r.symbol r.order_id r.order_link_id

  abbrev pub IsGranted : CancelRequest → Type 0
  IsGranted r = is_granted (answer_to r) ≡ true

  -- All requests carry the prefix, and a completed sweep has requested every stray, had it granted and
  -- counted it.
  abbrev Swept : List (OrderResponse ds.Double) → ℕ → Sweep ds → Type 0
  Swept orders n s =
      All (λ (r : CancelRequest). starts_with prefix r.order_link_id ≡ true) s.requested
      × ((m : ℕ)
          → s.result ≡ ok m
          → (s.requested ≡ strays orders)
            × (m ≡ n + length s.requested)
            × All IsGranted s.requested)

  cancel_failed-granted :
      (id symbol : Text) (e : Error) (b : Bool)
      → (cancel_failed ds api g id symbol e).result ≡ ok b
      → is_order_gone_reason (what e) ≡ true
  unfolding cancel_failed
  cancel_failed-granted id symbol e b = elim (Bool-cases (is_order_gone_reason (what e))) [
    | inl gone ↦ λ h. gone
    | inr other ↦ rw other (λ h. cc h)
  ]

  cancel_answered-granted :
      (id symbol : Text) (answer : Result Text) (b : Bool)
      → (cancel_answered ds api g id symbol answer).result ≡ ok b
      → is_granted answer ≡ true
  unfolding cancel_answered
  cancel_answered-granted id symbol (ok order_id) b h = refl
  cancel_answered-granted id symbol (err (transport_error m)) b h = cc h
  cancel_answered-granted id symbol (err (execution_unknown m)) b h =
      cancel_failed-granted id symbol (execution_unknown m) b h
  cancel_answered-granted id symbol (err (order_not_found m)) b h =
      cancel_failed-granted id symbol (order_not_found m) b h
  cancel_answered-granted id symbol (err (runtime_error m)) b h =
      cancel_failed-granted id symbol (runtime_error m) b h
  cancel_answered-granted id symbol (err (gateway_error kind m)) b h =
      cancel_failed-granted id symbol (gateway_error kind m) b h

  swept_with-Swept :
      (order : OrderResponse ds.Double) (orders : List (OrderResponse ds.Double)) (n : ℕ)
      (fills : List (FillEvent ds.Double)) (result : Result Bool) (rest : ℕ → Sweep ds)
      → starts_with prefix order.order_link_id ≡ true
      → ((b : Bool) → result ≡ ok b → IsGranted (cancel_of order))
      → ((n : ℕ) → Swept orders n (rest n))
      → Swept (order ∷ orders) n (swept_with ds order n (cancel_of order) fills result rest)
  unfolding swept_with strays
  swept_with-Swept order orders n fills (ok b) rest p granted h = (
    (p, (h (suc n)).0),
    λ m e.
        let r = (h (suc n)).1 m e in
        (rw p (ap (λ l. cancel_of order ∷ l) r.0), omega (arith, r.1), (granted b refl, r.2)),
  )
  swept_with-Swept order orders n fills (err x) rest p granted h = ((p, tt), λ m e. cc e)

  swept_first-Swept :
      (order : OrderResponse ds.Double) (orders : List (OrderResponse ds.Double)) (n : ℕ)
      (rest : ℕ → Sweep ds)
      → starts_with prefix order.order_link_id ≡ true
      → ((n : ℕ) → Swept orders n (rest n))
      → Swept
          (order ∷ orders)
          n
          (swept_first ds order n (cancel_call ds api g order.order_link_id order.symbol) rest)
  unfolding swept_first cancel_call cancel_asked ask_cancel
  swept_first-Swept order orders n rest p h =
      swept_with-Swept order orders n _ _ rest p
        (cancel_answered-granted order.order_link_id order.symbol (answer_to (cancel_of order))) h

  skip-Swept :
      (order : OrderResponse ds.Double) (orders : List (OrderResponse ds.Double)) (n : ℕ)
      (s : Sweep ds)
      → starts_with prefix order.order_link_id ≡ false
      → Swept orders n s
      → Swept (order ∷ orders) n s
  unfolding strays
  skip-Swept order orders n s p h = rw p h

  strays_nil : [] ≡ strays []
  unfolding strays
  strays_nil = refl

  sweep-Swept :
      (orders : List (OrderResponse ds.Double)) (n : ℕ)
      → Swept orders n (sweep ds api g prefix orders n)
  unfolding sweep
  sweep-Swept [] n = (tt, λ m e. (strays_nil, grind arith, tt))
  sweep-Swept (order ∷ orders) n = elim (Bool-cases (starts_with prefix order.order_link_id)) [
    | inl p ↦
        rw p
          (swept_first-Swept order orders n (sweep ds api g prefix orders) p (sweep-Swept orders))
    | inr p ↦
        rw p (skip-Swept order orders n (sweep ds api g prefix orders n) p (sweep-Swept orders n))
  ]

  sweep_listed-prefix :
      (answer : Result (List (OrderResponse ds.Double)))
      → All
          (λ (r : CancelRequest). starts_with prefix r.order_link_id ≡ true)
          (sweep_listed ds api g prefix answer).requested
  unfolding sweep_listed
  sweep_listed-prefix (ok orders) = (sweep-Swept orders 0).0
  sweep_listed-prefix (err x) = tt

  -- A sweep that completes has asked for the cancel of every listed open order with the prefix, in
  -- the order of the list, each of them was granted or its order was gone, and it returns their number.
  pub cancel_stray_orders-ok :
      (settle_coin : Text) (n : ℕ) (orders : List (OrderResponse ds.Double))
      → api.get_open_orders Category.linear [] settle_coin ≡ ok orders
      → (cancel_stray_orders ds api g prefix settle_coin).result ≡ ok n
      → ((cancel_stray_orders ds api g prefix settle_coin).requested ≡ strays orders)
        × (n ≡ length (strays orders))
        × All IsGranted (cancel_stray_orders ds api g prefix settle_coin).requested
  unfolding cancel_stray_orders sweep_listed
  cancel_stray_orders-ok settle_coin n orders e =
      rw e (λ h. let r = (sweep-Swept orders 0).1 n h in (r.0, grind (arith, r.0, r.1), r.2))

module _ (ds : Doubles) (api : RestApi ds.Double) (g : Gateway) (prefix : Text)
    (cancel_order : Category → Text → Text → Text → Result Text)
    (same : (symbol id : Text)
      → starts_with prefix id ≡ true
      → cancel_order Category.linear symbol [] id
        ≡ api.cancel_order Category.linear symbol [] id) where
  -- The venue with other answers to cancels.
  abbrev pub other : RestApi ds.Double
  other = record api { cancel_order = cancel_order }

  cancel_answered-other :
      (id symbol : Text) (answer : Result Text)
      → cancel_answered ds other g id symbol answer ≡ cancel_answered ds api g id symbol answer
  unfolding cancel_answered cancel_failed reconcile_missed_fills read_back
  cancel_answered-other id symbol (ok order_id) = refl
  cancel_answered-other id symbol (err (transport_error m)) = refl
  cancel_answered-other id symbol (err (execution_unknown m)) = refl
  cancel_answered-other id symbol (err (order_not_found m)) = refl
  cancel_answered-other id symbol (err (runtime_error m)) = refl
  cancel_answered-other id symbol (err (gateway_error kind m)) = refl

  cancel_call-other :
      (id symbol : Text)
      → starts_with prefix id ≡ true
      → cancel_call ds other g id symbol ≡ cancel_call ds api g id symbol
  unfolding cancel_call cancel_asked ask_cancel
  cancel_call-other id symbol p =
      let answered =
        cancel_answered-other id symbol (cancel_order Category.linear symbol [] id)
        ∙ ap (cancel_answered ds api g id symbol) (same symbol id p) in
      ap
        (λ o. record {
          request = record {
            category = Category.linear;
            symbol = symbol;
            order_id = [];
            order_link_id = id;
          };
          outcome = o;
        })
        answered

  sweep-other :
      (orders : List (OrderResponse ds.Double)) (n : ℕ)
      → sweep ds other g prefix orders n ≡ sweep ds api g prefix orders n
  unfolding sweep
  sweep-other [] n = refl
  sweep-other (order ∷ orders) n = elim (Bool-cases (starts_with prefix order.order_link_id)) [
    | inl p ↦ rw p (
        ap₂ (swept_first ds order n) (cancel_call-other order.order_link_id order.symbol p)
          (λ i m. sweep-other orders m i))
    | inr p ↦ rw p (sweep-other orders n)
  ]

  sweep_listed-other :
      (answer : Result (List (OrderResponse ds.Double)))
      → sweep_listed ds other g prefix answer ≡ sweep_listed ds api g prefix answer
  unfolding sweep_listed
  sweep_listed-other (ok orders) = sweep-other orders 0
  sweep_listed-other (err x) = refl

  -- A sweep of stray orders asks the venue only for cancels of orders that carry the prefix, whatever
  -- the venue answers and wherever the sweep stops: every request that it keeps is one, and it does the same
  -- at a venue that answers all other cancels differently.
  pub cancel_stray_orders-prefix :
      (settle_coin : Text)
      → All
          (λ (r : CancelRequest). starts_with prefix r.order_link_id ≡ true)
          (cancel_stray_orders ds api g prefix settle_coin).requested
        × (cancel_stray_orders ds other g prefix settle_coin
            ≡ cancel_stray_orders ds api g prefix settle_coin)
  unfolding cancel_stray_orders
  cancel_stray_orders-prefix settle_coin =
      let answer = api.get_open_orders Category.linear [] settle_coin in
      (sweep_listed-prefix ds api g prefix answer, sweep_listed-other answer)
