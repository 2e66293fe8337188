-- ===== src/Gateway/Fills.antt =====
-- What a cancel tells about fills: it fails closed.
use bybit_cpp_api.Base.{
  ◌≡◌, refl, sym, ap, ◌∙◌, Bool, true, false, not, Option, some, List, [], ◌∷◌, arith, inl, inr,
  ◌⊎◌, is_empty, Bool-cases, if-elim,
}
use mathlib.Core.List.{Memᴰ}
use mathlib.Core.List.Memᴰ
use bybit_cpp_api.Text.{Text}
use bybit_cpp_api.Errors.{
  Error, Result, ok, err, transport_error, execution_unknown, order_not_found, runtime_error,
  gateway_error, is_unknown_outcome, what,
}
use bybit_cpp_api.Models.Enums.{Category, is_trade}
use bybit_cpp_api.Models.Orders.{Doubles, OrderResponse, EventExecution}
use bybit_cpp_api.Gateway.Interface.{RestApi, Gateway, FillEvent, Outcome}
use bybit_cpp_api.Gateway.Reasons.{is_order_gone_reason}
use bybit_cpp_api.Gateway.Updates.{on_execution}
use bybit_cpp_api.Gateway.Cancel.{
  counts, fill_of, emitted, falls_short, settle_fills, read_back, reconcile_missed_fills, as_gone,
  cancel_failed, cancel_answered, cancel, cancel_call, cancel_asked, ask_cancel,
}

module _ (ds : Doubles) (api : RestApi ds.Double) (g : Gateway) (id symbol : Text) where
  -- What is not settled is an unknown outcome without fills.
  settle-failed :
      (back : Result (List (EventExecution ds.Double) × Option (OrderResponse ds.Double)))
      (x : Error)
      → (settle_fills ds id symbol back).result ≡ err x
      → (is_unknown_outcome x ≡ true) × ((settle_fills ds id symbol back).fills ≡ [])
  unfolding settle_fills
  settle-failed (err y) x h = (grind arith, refl)
  settle-failed (ok (xs, final)) x h = elim (Bool-cases (falls_short ds xs final)) [
    | inl b ↦ (grind arith, rw b refl)
    | inr b ↦ cc b
  ]

  as_gone-err : (r : Result (Unit {0})) (x : Error) → as_gone ds r ≡ err x → r ≡ err x
  as_gone-err (ok u) x h = cc
  as_gone-err (err y) x h = grind arith

  reconcile-failed :
      (x : Error)
      → (reconcile_missed_fills ds api g id symbol).result ≡ err x
      → (is_unknown_outcome x ≡ true) × ((reconcile_missed_fills ds api g id symbol).fills ≡ [])
  unfolding reconcile_missed_fills
  reconcile-failed x =
      if-elim
        (λ (o : Outcome ds.Double (Unit {0})).
          o.result ≡ err x → (is_unknown_outcome x ≡ true) × (o.fills ≡ []))
        (not g.has_fill_cb) _ _ (λ h. cc h) (settle-failed (read_back ds api id symbol) x)

  cancel_failed-no_fills :
      (e x : Error)
      → (cancel_failed ds api g id symbol e).result ≡ err x
      → (cancel_failed ds api g id symbol e).fills ≡ []
  unfolding cancel_failed
  cancel_failed-no_fills e x =
      if-elim (λ (o : Outcome ds.Double Bool). o.result ≡ err x → o.fills ≡ [])
        (is_order_gone_reason (what e)) _ _ (λ h. (reconcile-failed x (as_gone-err _ x h)).1)
        (λ h. refl)

  cancel_answered-no_fills :
      (answer : Result Text) (x : Error)
      → (cancel_answered ds api g id symbol answer).result ≡ err x
      → (cancel_answered ds api g id symbol answer).fills ≡ []
  unfolding cancel_answered
  cancel_answered-no_fills (ok order_id) x h = refl
  cancel_answered-no_fills (err (transport_error m)) x h = refl
  cancel_answered-no_fills (err (execution_unknown m)) x h =
      cancel_failed-no_fills (execution_unknown m) x h
  cancel_answered-no_fills (err (order_not_found m)) x h =
      cancel_failed-no_fills (order_not_found m) x h
  cancel_answered-no_fills (err (runtime_error m)) x h =
      cancel_failed-no_fills (runtime_error m) x h
  cancel_answered-no_fills (err (gateway_error kind m)) x h =
      cancel_failed-no_fills (gateway_error kind m) x h

  -- A cancel that fails has handed no fill to the callback.
  pub cancel-no_fills :
      (x : Error)
      → (cancel ds api g id symbol).result ≡ err x
      → (cancel ds api g id symbol).fills ≡ []
  unfolding cancel cancel_call cancel_asked ask_cancel
  cancel-no_fills = cancel_answered-no_fills (api.cancel_order Category.linear symbol [] id)

  -- The fills of an order that was gone: those of the list that was read back, which was not short.
  abbrev pub Settled : List (FillEvent ds.Double) → Type 0
  Settled fills =
      (xs : List (EventExecution ds.Double)) × (final : Option (OrderResponse ds.Double))
      × (read_back ds api id symbol ≡ ok (xs, final))
      × (falls_short ds xs final ≡ false)
      × (fills ≡ emitted id symbol xs)

  -- The venue's error said that the order was gone, and the cancel says so with its fills settled.
  abbrev pub FoundGone : Error → Bool → List (FillEvent ds.Double) → Type 0
  FoundGone e b fills = (is_order_gone_reason (what e) ≡ true) × (b ≡ false) × Settled fills

  -- How a cancel comes to its return value: the venue's consent, or an error that says that the order
  -- is gone.
  abbrev pub Returns : Result Text → Bool → List (FillEvent ds.Double) → Type 0
  Returns answer b fills =
      ((order_id : Text) × (answer ≡ ok order_id) × (b ≡ true) × (fills ≡ []))
      ⊎ ((e : Error) × (answer ≡ err e) × FoundGone e b fills)

on_execution-some :
    {D : Type 0} (g : Gateway) (x : EventExecution D) (fill : FillEvent D)
    → on_execution g x ≡ some fill
    → (is_trade x.exec_type ≡ true) × (fill ≡ fill_of x.order_link_id x.symbol x)
unfolding on_execution
on_execution-some g x fill h = grind arith

emitted-counts :
    {D : Type 0} (id symbol : Text) (x : EventExecution D) (xs : List (EventExecution D))
    → counts x ≡ true
    → Memᴰ x xs
    → Memᴰ (fill_of id symbol x) (emitted id symbol xs)
unfolding emitted
emitted-counts id symbol x [] c m = elim m [ ]
emitted-counts id symbol x (y ∷ ys) c (Memᴰ.head e) =
    let d : counts y ≡ true = ap counts (sym e) ∙ c in rw d (Memᴰ.head (ap (fill_of id symbol) e))
emitted-counts id symbol x (y ∷ ys) c (Memᴰ.tail m) =
    if-elim (λ l. Memᴰ (fill_of id symbol x) l) (counts y) _ _
      (Memᴰ.tail (emitted-counts id symbol x ys c m)) (emitted-counts id symbol x ys c m)

-- What the stream would report as a fill and has an id, a reconciliation of a list with the execution reports
-- too, with the same id, quantity and price, so that the caller can tell it is the same.
pub emitted-on_execution :
    {D : Type 0} (g : Gateway) (x : EventExecution D) (xs : List (EventExecution D))
    (fill : FillEvent D)
    → on_execution g x ≡ some fill
    → is_empty fill.fill_id ≡ false
    → Memᴰ x xs
    → Memᴰ fill (emitted fill.client_order_id fill.symbol xs)
unfolding on_execution emitted
emitted-on_execution g x xs fill h e m =
    let r = on_execution-some g x fill h in
    Memᴰ.cast (grind (arith, r.1))
      (emitted-counts fill.client_order_id fill.symbol x xs (grind (arith, r.0, r.1)) m)
