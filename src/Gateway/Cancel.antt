-- ===== src/Gateway/Cancel.antt =====
-- `cancel`, the reconciliation of fills behind it, and the sweep of stray orders.
use bybit_cpp_api.Base.{
  ℕ, suc, Bool, true, false, not, ◌&&◌, Option, none, some, List, [], ◌∷◌, ◌++◌, if◌then◌else◌,
  is_empty,
}
use bybit_cpp_api.Text.{Text, codes, starts_with}
use bybit_cpp_api.Errors.{
  Error, Result, ok, err, transport_error, execution_unknown, gateway_error, what, ◌>>=◌,
}
use bybit_cpp_api.Models.Enums.{Category, is_trade}
use bybit_cpp_api.Models.Orders.{Doubles, OrderResponse, EventExecution}
use bybit_cpp_api.Gateway.Interface.{RestApi, Gateway, FillEvent, Outcome}
use bybit_cpp_api.Gateway.Reasons.{is_order_gone_reason}
use bybit_cpp_api.Gateway.Orders.{reject}

-- A genuine trade with an id to dedup by.
abbrev pub counts : {D : Type 0} → EventExecution D → Bool
counts x = is_trade x.exec_type && not (is_empty x.exec_id)

-- The fill that `reconcileMissedFills` makes of an execution of an order.
abbrev pub fill_of : {D : Type 0} → Text → Text → EventExecution D → FillEvent D
fill_of id symbol x = record {
  client_order_id = id;
  symbol = symbol;
  fill_id = x.exec_id;
  qty = x.exec_qty;
  price = x.exec_price;
  is_maker = x.is_maker;
}

-- The loop that hands fills to the callback.
unfoldable pub emitted : {D : Type 0} → Text → Text → List (EventExecution D) → List (FillEvent D)
emitted id symbol [] = []
emitted id symbol (x ∷ xs) =
    if counts x then fill_of id symbol x ∷ emitted id symbol xs else emitted id symbol xs

-- The arguments of a `cancelOrder`.
pub record CancelRequest : Type 0 where
  pub category : Category
  pub symbol : Text
  pub order_id : Text
  pub order_link_id : Text

-- A `cancel`: the request that it made, and what came of it.
pub record CancelCall (D : Type 0) : Type 0 where
  pub request : CancelRequest
  pub outcome : Outcome D Bool

module _ (ds : Doubles) where
  open ds use {Double, zero as none_filled, add, less, tiny, show}

  -- The loop that sums the listed quantity.
  unfoldable pub listed_from : Double → List (EventExecution Double) → Double
  listed_from qty [] = qty
  listed_from qty (x ∷ xs) = listed_from (if counts x then add qty x.exec_qty else qty) xs

  abbrev pub listed_qty : List (EventExecution Double) → Double
  listed_qty = listed_from none_filled

  -- The history reports more than the list holds.
  unfoldable pub falls_short : List (EventExecution Double) → Option (OrderResponse Double) → Bool
  falls_short xs none = false
  falls_short xs (some final) = less (add (listed_qty xs) tiny) final.cum_exec_qty

  unreadable : Text → Text → Text → Text
  unreadable symbol id reason =
      codes "Bybit "
      ++ (symbol
          ++ (codes " order "
              ++ (id
                  ++ (codes " gone at cancel, but its fills could not be read back: " ++ reason))))

  not_indexed : Text → Text → List (EventExecution Double) → Option (OrderResponse Double) → Text
  not_indexed symbol id xs none = []
  not_indexed symbol id xs (some final) =
      codes "Bybit "
      ++ (symbol
          ++ (codes " order "
              ++ (id
                  ++ (codes " gone at cancel: history reports "
                      ++ (show final.cum_exec_qty
                          ++ (codes " filled, the execution list only "
                              ++ (show (listed_qty xs) ++ codes " — not indexed yet")))))))

  -- `reconcileMissedFills` behind its two reads.
  unfoldable pub settle_fills :
      Text
      → Text
      → Result (List (EventExecution Double) × Option (OrderResponse Double))
      → Outcome Double (Unit {0})
  unfolding unreadable not_indexed
  settle_fills id symbol (err x) = record {
    fills = [];
    result = err (execution_unknown (unreadable symbol id (what x)));
  }
  settle_fills id symbol (ok (xs, final)) =
      if falls_short xs final
      then record { fills = []; result = err (execution_unknown (not_indexed symbol id xs final)) }
      else record { fills = emitted id symbol xs; result = ok tt }

  -- The executions, and then the history.
  unfoldable pub read_back :
      RestApi Double
      → Text
      → Text
      → Result (List (EventExecution Double) × Option (OrderResponse Double))
  read_back api id symbol = api.get_executions Category.linear symbol id >>= λ xs.
      api.get_order_history Category.linear symbol [] id >>= λ final. ok (xs, final)

  -- `reconcileMissedFills`.
  unfoldable pub reconcile_missed_fills :
      RestApi Double → Gateway → Text → Text → Outcome Double (Unit {0})
  reconcile_missed_fills api g id symbol =
      if not g.has_fill_cb
      then record { fills = []; result = ok tt }
      else settle_fills id symbol (read_back api id symbol)

  abbrev pub as_gone : Result (Unit {0}) → Result Bool
  as_gone (ok u) = ok false
  as_gone (err x) = err x

  -- The second handler of `cancel`.
  unfoldable pub cancel_failed :
      RestApi Double → Gateway → Text → Text → Error → Outcome Double Bool
  cancel_failed api g id symbol x =
      if is_order_gone_reason (what x)
      then (let done = reconcile_missed_fills api g id symbol in
          record { fills = done.fills; result = as_gone done.result })
      else record { fills = []; result = err (reject x) }

  unfoldable pub cancel_answered :
      RestApi Double → Gateway → Text → Text → Result Text → Outcome Double Bool
  unfolding cancel_failed
  cancel_answered api g id symbol (ok order_id) = record { fills = []; result = ok true }
  cancel_answered api g id symbol (err (transport_error m)) = record {
    fills = [];
    result = err (transport_error m);
  }
  cancel_answered api g id symbol (err x) = cancel_failed api g id symbol x

  -- The request for a cancel is made here alone, and what it asks for is kept with the answer.
  unfoldable pub ask_cancel : RestApi Double → CancelRequest → CancelRequest × Result Text
  ask_cancel api r = (r, api.cancel_order r.category r.symbol r.order_id r.order_link_id)

  unfoldable pub cancel_asked :
      RestApi Double → Gateway → Text → Text → CancelRequest × Result Text → CancelCall Double
  unfolding cancel_answered
  cancel_asked api g id symbol asked = record {
    request = asked.0;
    outcome = cancel_answered api g id symbol asked.1;
  }

  -- `cancel`, with the request that it made of the venue.
  unfoldable pub cancel_call : RestApi Double → Gateway → Text → Text → CancelCall Double
  unfolding ask_cancel cancel_asked
  cancel_call api g id symbol = cancel_asked api g id symbol (
      ask_cancel api
        (record { category = Category.linear; symbol = symbol; order_id = []; order_link_id = id }))

  -- `cancel`.
  unfoldable pub cancel : RestApi Double → Gateway → Text → Text → Outcome Double Bool
  unfolding cancel_call
  cancel api g id symbol = (cancel_call api g id symbol).outcome

  -- The report of `cancelStrayOrders` on a stray that it could not cancel.
  stray_error : OrderResponse Double → Error → Error
  stray_error order (gateway_error kind m) = gateway_error kind (
      codes "stray order "
      ++ (order.order_link_id
          ++ (codes " on " ++ (order.symbol ++ (codes " could not be cancelled: " ++ m)))))
  stray_error order x = x

  -- What a sweep did: the cancels that it asked the venue for, the fills, and its result.
  pub record Sweep : Type 0 where
    pub requested : List CancelRequest
    pub fills : List (FillEvent Double)
    pub result : Result ℕ

  -- One order of the loop: what its cancel did, with the sweep of the rest.
  unfoldable pub swept_with :
      OrderResponse Double
      → ℕ
      → CancelRequest
      → List (FillEvent Double)
      → Result Bool
      → (ℕ → Sweep)
      → Sweep
  unfolding stray_error
  swept_with order n request fills (ok b) rest =
      let after = rest (suc n) in
      record {
        requested = request ∷ after.requested;
        fills = fills ++ after.fills;
        result = after.result;
      }
  swept_with order n request fills (err x) rest = record {
    requested = request ∷ [];
    fills = fills;
    result = err (stray_error order x);
  }

  unfoldable pub swept_first : OrderResponse Double → ℕ → CancelCall Double → (ℕ → Sweep) → Sweep
  unfolding swept_with
  swept_first order n done rest =
      swept_with order n done.request done.outcome.fills done.outcome.result rest

  -- The loop of `cancelStrayOrders`.
  unfoldable pub sweep : RestApi Double → Gateway → Text → List (OrderResponse Double) → ℕ → Sweep
  unfolding swept_first cancel_call
  sweep api g prefix [] n = record { requested = []; fills = []; result = ok n }
  sweep api g prefix (order ∷ orders) n =
      if not (starts_with prefix order.order_link_id)
      then sweep api g prefix orders n
      else swept_first order n (cancel_call api g order.order_link_id order.symbol)
          (sweep api g prefix orders)

  unfoldable pub sweep_listed :
      RestApi Double → Gateway → Text → Result (List (OrderResponse Double)) → Sweep
  sweep_listed api g prefix (ok orders) = sweep api g prefix orders 0
  sweep_listed api g prefix (err x) = record { requested = []; fills = []; result = err x }

  -- `cancelStrayOrders`.
  unfoldable pub cancel_stray_orders : RestApi Double → Gateway → Text → Text → Sweep
  unfolding sweep_listed
  cancel_stray_orders api g prefix settle_coin =
      sweep_listed api g prefix (api.get_open_orders Category.linear [] settle_coin)
