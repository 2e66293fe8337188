-- ===== src/Models/Json/Responses.antt =====
-- The readers of whole answers: `Response::fromJson`, and the listings on top of it.
use bybit_cpp_api.Base.{ℕ, ◌≡◌, sym, ap, ◌∙◌, none, some, List, [], ◌∷◌, map}
use bybit_cpp_api.Text.{Text, codes}
use bybit_cpp_api.Models.Enums.{Category}
use bybit_cpp_api.Models.Enums.Casts.{category_cast}
use bybit_cpp_api.Models.Orders.{Doubles, OrderResponse}
use bybit_cpp_api.Models.Market.{Position}
use bybit_cpp_api.Models.Tickers.{Ticker}
use bybit_cpp_api.Models.Candles.{Candle, FundingRate}
use bybit_cpp_api.Models.Instruments.{Instrument}
use bybit_cpp_api.Models.Json.{
  Json, Reading, read, ◌then◌, Step, steps, Field, fields, into, member_or, read_rows, list_rows,
}
use bybit_cpp_api.Models.Json.Laws.{then-read, read-injective, read_rows-read}
use bybit_cpp_api.Models.Json.Market.{position_from_json, ticker_from_json}
use bybit_cpp_api.Models.Json.Orders.{order_response_from_json}
use bybit_cpp_api.Models.Json.Instruments.{instrument_from_json}
use bybit_cpp_api.Models.Json.Funding.{candle_from_json, funding_rate_from_json}

-- `Response`.
pub record Envelope (J : Type 0) : Type 0 where
  pub ret_code : ℕ
  pub ret_ext_info : J
  pub ret_msg : Text
  pub time : ℕ
  pub result : J

-- What a listing has besides the answer: not every listing has all of these members.
pub record Listed (A : Type 0) : Type 0 where
  pub category : Category
  pub symbol : Text
  pub next_page_cursor : Text
  pub rows : List A

module _ {J D : Type 0} (json : Json J D) where
  abbrev pub new_envelope : Envelope J
  new_envelope = record {
    ret_code = 0;
    ret_ext_info = json.null;
    ret_msg = [];
    time = 0;
    result = json.null;
  }

  -- A member that is taken as it is, where it is there.
  unfoldable pub taken : (Envelope J → J → Envelope J) → Text → J → Step (Envelope J)
  taken set key j r = elim (json.find j key) [ none ↦ read r | some value ↦ read (set r value) ]

  -- `Response::fromJson` of a new `Response`.
  unfoldable pub envelope_from_json : J → Reading (Envelope J)
  unfolding into fields steps taken
  envelope_from_json j =
      steps
        (fields (
            into (λ r m. record r { ret_code = member_or r.ret_code m })
              (json.integer j (codes "retCode"))
            ∷ [])
          ∷ taken (λ r v. record r { ret_ext_info = v }) (codes "retExtInfo") j
          ∷ fields (
              into (λ r m. record r { ret_msg = member_or r.ret_msg m })
                (json.text j (codes "retMsg"))
              ∷ into (λ r m. record r { time = member_or r.time m }) (json.integer j (codes "time"))
              ∷ [])
          ∷ taken (λ r v. record r { result = v }) (codes "result") j
          ∷ [])
        new_envelope

  -- The members of a `result` before its list, of those that the listing has.
  abbrev pub category_field : {A : Type 0} → J → Field (Listed A)
  category_field result =
      into (λ r m. record r { category = member_or r.category m })
        (json.enumerator category_cast result (codes "category"))

  abbrev pub symbol_field : {A : Type 0} → J → Field (Listed A)
  symbol_field result =
      into (λ r m. record r { symbol = member_or r.symbol m }) (json.text result (codes "symbol"))

  abbrev pub cursor_field : {A : Type 0} → J → Field (Listed A)
  cursor_field result =
      into (λ r m. record r { next_page_cursor = member_or r.next_page_cursor m })
        (json.text result (codes "nextPageCursor"))

  -- `fromJson` of a listing: the answer, those members, and each row of the list.
  unfoldable pub listed_from_json :
      {A : Type 0}
      → (J → List (Field (Listed A)))
      → (J → Reading A)
      → J
      → Reading (Envelope J × Listed A)
  unfolding envelope_from_json fields read_rows list_rows ◌then◌
  listed_from_json head reader j = envelope_from_json j then (λ e.
      fields (head e.result)
        (record { category = Category.linear; symbol = []; next_page_cursor = []; rows = [] })
      then (λ l.
          list_rows json e.result
          then read_rows reader
          then (λ rows. read (e, record l { rows = rows }))))

  -- Where a listing is read, each item of its list was read, in the items' order.
  pub listed_from_json-rows :
      {A : Type 0} (head : J → List (Field (Listed A))) (reader : J → Reading A) (j : J)
      (e : Envelope J) (l : Listed A)
      → listed_from_json head reader j ≡ read (e, l)
      → (items : List J) × (list_rows json e.result ≡ read items)
        × (map reader items ≡ map (λ a. read a) l.rows)
  unfolding listed_from_json
  listed_from_json-rows {A = A} head reader j e l h =
      let envelope = then-read (envelope_from_json j) _ (e, l) h in
      let members = then-read (fields (head envelope.0.result) _) _ (e, l) envelope.2 in
      let all =
        then-read (list_rows json envelope.0.result then read_rows reader) _ (e, l) members.2 in
      let items = then-read (list_rows json envelope.0.result) (read_rows reader) all.0 all.1 in
      let same = read-injective all.2 in
      (
        items.0,
        sym (ap (λ (p : Envelope J × Listed A). list_rows json p.0.result) same) ∙ items.1,
        read_rows-read reader items.0 all.0 items.2
            ∙ ap (λ (p : Envelope J × Listed A). map (λ a. read a) p.1.rows) same,
      )

module _ (ds : Doubles) {J : Type 0} (json : Json J ds.Double) where
  open ds use {Double}

  unfoldable pub positions_answer : J → Reading (Envelope J × Listed (Position Double))
  unfolding listed_from_json
  positions_answer =
      listed_from_json json (λ r. category_field json r ∷ cursor_field json r ∷ [])
        (position_from_json ds json)

  unfoldable pub instruments_answer : J → Reading (Envelope J × Listed (Instrument Double))
  unfolding listed_from_json
  instruments_answer =
      listed_from_json json (λ r. category_field json r ∷ cursor_field json r ∷ [])
        (instrument_from_json ds json)

  unfoldable pub orders_answer : J → Reading (Envelope J × Listed (OrderResponse Double))
  unfolding listed_from_json
  orders_answer =
      listed_from_json json (λ r. category_field json r ∷ cursor_field json r ∷ [])
        (order_response_from_json ds json)

  unfoldable pub tickers_answer : J → Reading (Envelope J × Listed (Ticker Double))
  unfolding listed_from_json
  tickers_answer =
      listed_from_json json (λ r. category_field json r ∷ []) (ticker_from_json ds json)

  unfoldable pub funding_rates_answer : J → Reading (Envelope J × Listed (FundingRate Double))
  unfolding listed_from_json
  funding_rates_answer =
      listed_from_json json (λ r. category_field json r ∷ []) (funding_rate_from_json ds json)

  unfoldable pub candles_answer : J → Reading (Envelope J × Listed (Candle Double))
  unfolding listed_from_json
  candles_answer =
      listed_from_json json (λ r. symbol_field json r ∷ category_field json r ∷ [])
        (candle_from_json ds json)
