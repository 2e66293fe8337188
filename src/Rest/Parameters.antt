-- ===== src/Rest/Parameters.antt =====
-- The parameters of the requests: a `std::map` of texts, in the order of its keys.
use bybit_cpp_api.Base.{
  ℕ, ◌≡◌, refl, Bool, true, false, not, Option, none, some, List, [], ◌∷◌, if◌then◌else◌, if-elim,
  ltb, ◌==◌, is_empty, All,
}
use bybit_cpp_api.Text.{Text, codes}
use bybit_cpp_api.Text.Decimal.{digits}
use bybit_cpp_api.Errors.{Result, ok, ◌>>=◌}
use bybit_cpp_api.Models.Enums.{Category, CandleInterval}
use bybit_cpp_api.Models.Enums.Names.{category, interval}
use bybit_cpp_api.Models.Orders.{OrderResponse}
use bybit_cpp_api.Rest.Responses.{Response, read_response}

abbrev pub Parameters : Type 0
Parameters = List (Text × Text)

-- `std::less` on texts.
unfoldable pub is_less : Text → Text → Bool
is_less s [] = false
is_less [] (d ∷ t) = true
is_less (c ∷ s) (d ∷ t) =
    let rest = is_less s t in if ltb c d then true else if ltb d c then false else rest

-- `insert_or_assign` of a `std::map`.
unfoldable pub set_parameter : Text → Text → Parameters → Parameters
unfolding is_less
set_parameter key value [] = (key, value) ∷ []
set_parameter key value ((k, v) ∷ ps) =
    let rest = set_parameter key value ps in
    if is_less key k
    then (key, value) ∷ (k, v) ∷ ps
    else if is_less k key
    then (k, v) ∷ rest
    else (k, value) ∷ ps

-- `if (!value.empty()) parameters.insert_or_assign(key, value)`.
unfoldable pub set_given : Text → Text → Parameters → Parameters
unfolding set_parameter
set_given key value ps = if not (is_empty value) then set_parameter key value ps else ps

-- The two ids of an order, of which an empty one is not sent.
unfoldable pub order_ids : Text → Text → Parameters → Parameters
unfolding set_given
order_ids order_id order_link_id ps =
    set_given (codes "orderLinkId") order_link_id (set_given (codes "orderId") order_id ps)

-- The parameters of `getOpenOrder`, `getOrderHistory` and `cancelOrder`.
unfoldable pub open_order_parameters : Category → Text → Text → Text → Parameters
unfolding order_ids set_parameter
open_order_parameters c symbol order_id order_link_id =
    order_ids order_id order_link_id
      (set_parameter (codes "symbol") symbol (set_parameter (codes "category") (category c) []))

unfoldable pub order_history_parameters : Category → Text → Text → Text → Parameters
unfolding order_ids set_given set_parameter
order_history_parameters c symbol order_id order_link_id =
    order_ids order_id order_link_id
      (set_given (codes "symbol") symbol (set_parameter (codes "category") (category c) []))

unfoldable pub cancel_order_parameters : Category → Text → Text → Text → Parameters
unfolding order_ids set_parameter
cancel_order_parameters c symbol order_id order_link_id =
    order_ids order_id order_link_id
      (set_parameter (codes "category") (category c) (set_parameter (codes "symbol") symbol []))

-- The parameters of a page of `getExecutions`, `getOpenOrders`, `getPositionInfo` and
-- `P::getInstrumentsInfo`.
unfoldable pub executions_parameters : Category → Text → Text → Text → Parameters
unfolding set_given set_parameter
executions_parameters c symbol order_link_id cursor = set_given (codes "cursor") cursor (
    set_given (codes "orderLinkId") order_link_id (
      set_given (codes "symbol") symbol (
        set_parameter (codes "limit") (codes "100")
          (set_parameter (codes "category") (category c) []))))

unfoldable pub listed_parameters : Text → Category → Text → Text → Text → Parameters
unfolding set_given set_parameter
listed_parameters limit c symbol settle_coin cursor = set_given (codes "cursor") cursor (
    set_given (codes "settleCoin") settle_coin (
      set_given (codes "symbol") symbol
        (set_parameter (codes "limit") limit (set_parameter (codes "category") (category c) []))))

unfoldable pub open_orders_parameters : Category → Text → Text → Text → Parameters
unfolding listed_parameters
open_orders_parameters = listed_parameters (codes "50")

unfoldable pub position_info_parameters : Category → Text → Text → Text → Parameters
unfolding listed_parameters
position_info_parameters = listed_parameters (codes "200")

unfoldable pub instruments_info_parameters : Category → Text → Text → Text → Parameters
unfolding set_given set_parameter
instruments_info_parameters c symbol cursor status = set_given (codes "status") status (
    set_given (codes "cursor") cursor
      (set_given (codes "symbol") symbol (set_parameter (codes "category") (category c) [])))

-- `if (limit != 200) parameters.insert_or_assign("limit", std::to_string(limit))`.
unfoldable pub set_limit : ℕ → Parameters → Parameters
unfolding set_parameter
set_limit limit ps =
    if not (limit == 200) then set_parameter (codes "limit") (digits limit) ps else ps

-- The parameters of `P::getHistoricalPrices` and `P::getFundingRates`, for times after the epoch.
unfoldable pub historical_prices_parameters :
    Category → Text → CandleInterval → ℕ → ℕ → ℕ → Parameters
unfolding set_limit set_parameter
historical_prices_parameters c symbol i start_time limit end_time =
    let started = set_parameter (codes "start") (digits start_time) (
      set_parameter (codes "interval") (interval i) (
        set_parameter (codes "symbol") symbol
          (set_parameter (codes "category") (category c) []))) in
    set_limit limit
      (if ltb 0 end_time then set_parameter (codes "end") (digits end_time) started else started)

unfoldable pub funding_rates_parameters : Category → Text → ℕ → ℕ → ℕ → Parameters
unfolding set_limit set_parameter
funding_rates_parameters c symbol start_time end_time limit = set_limit limit (
    set_parameter (codes "endTime") (digits end_time) (
      set_parameter (codes "startTime") (digits start_time)
        (set_parameter (codes "symbol") symbol (set_parameter (codes "category") (category c) []))))

-- What `getOpenOrder` and `getOrderHistory` return of the orders that an answer lists.
abbrev pub front_order : {D : Type 0} → List (OrderResponse D) → Result (Option (OrderResponse D))
front_order [] = ok none
front_order (o ∷ os) = ok (some o)

unfoldable pub get_open_order :
    {D : Type 0}
    → (Parameters → Response (List (OrderResponse D)))
    → Category
    → Text
    → Text
    → Text
    → Result (Option (OrderResponse D))
unfolding open_order_parameters
get_open_order get c symbol order_id order_link_id =
    read_response (get (open_order_parameters c symbol order_id order_link_id)) >>= front_order

unfoldable pub get_order_history :
    {D : Type 0}
    → (Parameters → Response (List (OrderResponse D)))
    → Category
    → Text
    → Text
    → Text
    → Result (Option (OrderResponse D))
unfolding order_history_parameters
get_order_history get c symbol order_id order_link_id =
    read_response (get (order_history_parameters c symbol order_id order_link_id)) >>= front_order

unfoldable pub cancel_order :
    (Parameters → Response Text) → Category → Text → Text → Text → Result Text
unfolding cancel_order_parameters
cancel_order post c symbol order_id order_link_id =
    read_response (post (cancel_order_parameters c symbol order_id order_link_id))

-- No value is empty.
abbrev pub NoEmpty : Parameters → Type 0
NoEmpty = All (λ (p : Text × Text). is_empty p.1 ≡ false)

set_parameter-NoEmpty :
    (key value : Text) (ps : Parameters)
    → is_empty value ≡ false
    → NoEmpty ps
    → NoEmpty (set_parameter key value ps)
unfolding set_parameter
set_parameter-NoEmpty key value [] h n = (h, tt)
set_parameter-NoEmpty key value ((k, v) ∷ ps) h n =
    if-elim NoEmpty (is_less key k) ((key, value) ∷ (k, v) ∷ ps)
      (if is_less k key then (k, v) ∷ set_parameter key value ps else (k, value) ∷ ps) (h, n)
      (if-elim NoEmpty (is_less k key) ((k, v) ∷ set_parameter key value ps) ((k, value) ∷ ps)
        (n.0, set_parameter-NoEmpty key value ps h n.1) (h, n.1))

set_given-NoEmpty :
    (key value : Text) (ps : Parameters) → NoEmpty ps → NoEmpty (set_given key value ps)
unfolding set_given
set_given-NoEmpty key [] ps n = n
set_given-NoEmpty key (c ∷ value) ps n = set_parameter-NoEmpty key (c ∷ value) ps refl n

category-given : (c : Category) → is_empty (category c) ≡ false
category-given Category.spot = refl
category-given Category.linear = refl
category-given Category.inverse = refl
category-given Category.option = refl

order_ids-NoEmpty :
    (order_id order_link_id : Text) (ps : Parameters)
    → NoEmpty ps
    → NoEmpty (order_ids order_id order_link_id ps)
unfolding order_ids
order_ids-NoEmpty order_id order_link_id ps n =
    set_given-NoEmpty (codes "orderLinkId") order_link_id (set_given (codes "orderId") order_id ps)
      (set_given-NoEmpty (codes "orderId") order_id ps n)

-- `getOrderHistory` sends no empty value.
pub order_history_parameters-NoEmpty :
    (c : Category) (symbol order_id order_link_id : Text)
    → NoEmpty (order_history_parameters c symbol order_id order_link_id)
unfolding order_history_parameters
order_history_parameters-NoEmpty c symbol order_id order_link_id =
    order_ids-NoEmpty order_id order_link_id
      (set_given (codes "symbol") symbol (set_parameter (codes "category") (category c) []))
      (set_given-NoEmpty (codes "symbol") symbol (set_parameter (codes "category") (category c) [])
        (set_parameter-NoEmpty (codes "category") (category c) [] (category-given c) tt))

-- `cancelOrder` of a symbol that is not empty sends no empty value.
pub cancel_order_parameters-NoEmpty :
    (c : Category) (symbol order_id order_link_id : Text)
    → is_empty symbol ≡ false
    → NoEmpty (cancel_order_parameters c symbol order_id order_link_id)
unfolding cancel_order_parameters
cancel_order_parameters-NoEmpty c symbol order_id order_link_id h =
    order_ids-NoEmpty order_id order_link_id
      (set_parameter (codes "category") (category c) (set_parameter (codes "symbol") symbol []))
      (set_parameter-NoEmpty (codes "category") (category c)
        (set_parameter (codes "symbol") symbol []) (category-given c)
        (set_parameter-NoEmpty (codes "symbol") symbol [] h tt))
