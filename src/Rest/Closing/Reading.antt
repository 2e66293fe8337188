-- ===== src/Rest/Closing/Reading.antt =====
-- `closeAllPositions` of the positions that the venue's answer lists.
use bybit_cpp_api.Base.{
  ◌≡◌, sym, ap, ◌∙◌, Bool, true, false, not, ◌&&◌, List, [], ◌∷◌, map, if◌then◌else◌,
}
use bybit_cpp_api.Text.{Text, codes}
use bybit_cpp_api.Models.Enums.{Category}
use bybit_cpp_api.Models.Orders.{Doubles}
use bybit_cpp_api.Models.Market.{Position, new_position}
use bybit_cpp_api.Models.Json.{Json, read, ◌then◌, fields, into, member_or, read_rows, list_rows}
use bybit_cpp_api.Models.Json.Laws.{then-read, read-injective, steps-end, steps-read, fields-read}
use bybit_cpp_api.Models.Json.Market.{
  decimal_size, position_head, position_tail, set_zero_size, position_steps, position_from_json,
  positions_from_json,
}
use bybit_cpp_api.Rest.Closing.{closing_orders}

module _ (ds : Doubles) {J : Type 0} (json : Json J ds.Double) where
  open ds use {Double}

  -- What a row of the answer says: its symbol, and whether its size is a decimal number other than 0.
  abbrev pub row_symbol : J → Text
  row_symbol row = member_or [] (json.text row (codes "symbol"))

  abbrev pub row_open : J → Bool
  row_open row = elim (decimal_size ds json row) [ read b ↦ b | _ ↦ false ]

  abbrev pub open_rows : List J → List J
  open_rows [] = []
  open_rows (row ∷ rows) = if row_open row then row ∷ open_rows rows else open_rows rows

  decimal_size-open : (row : J) (b : Bool) → decimal_size ds json row ≡ read b → row_open row ≡ b
  decimal_size-open row b e = ap (λ r. elim r [ read c ↦ c | _ ↦ false ]) e

  -- The size step of a row that is read.
  set_zero_size-row :
      (row : J) (before after : Position Double)
      → set_zero_size ds json row before ≡ read after
      → (record before { zero_size = before.zero_size && not (row_open row) }) ≡ after
  unfolding set_zero_size
  set_zero_size-row row before after e =
      let size = then-read (decimal_size ds json row) _ after e in
      ap (λ b. record before { zero_size = before.zero_size && not b })
        (decimal_size-open row size.0 size.1)
      ∙ read-injective size.2

  position_from_json-row :
      (row : J) (pos : Position Double)
      → position_from_json ds json row ≡ read pos
      → (pos.symbol ≡ row_symbol row) × (pos.zero_size ≡ not (row_open row))
  unfolding position_from_json position_steps position_head position_tail into
  position_from_json-row row pos e =
      let head =
        steps-read (fields (position_head ds json row))
          (set_zero_size ds json row ∷ fields (position_tail ds json row) ∷ []) (new_position ds)
          pos e in
      let size =
        steps-read (set_zero_size ds json row) (fields (position_tail ds json row) ∷ []) head.0 pos
          head.2 in
      let tail = steps-read (fields (position_tail ds json row)) [] size.0 pos size.2 in
      let read_head = fields-read (position_head ds json row) (new_position ds) head.0 head.1 in
      let sized = set_zero_size-row row head.0 size.0 size.1 in
      let read_tail = fields-read (position_tail ds json row) size.0 tail.0 tail.1 in
      let last = steps-end tail.2 in
      (
        ap (λ p. p.symbol) last
            ∙ ap (λ p. p.symbol) read_tail
            ∙ sym (ap (λ p. p.symbol) sized)
            ∙ ap (λ p. p.symbol) read_head,
        ap (λ p. p.zero_size) last
            ∙ ap (λ p. p.zero_size) read_tail
            ∙ sym (ap (λ p. p.zero_size) sized)
            ∙ ap (λ p. p.zero_size && not (row_open row)) read_head,
      )

  -- One position and its row.
  closing-row :
      {A B : Type 0} (f : A → Text) (g : B → Text) (zero_size is_open : Bool) (a : A) (b : B)
      (placed : List A) (rows : List B)
      → zero_size ≡ not is_open
      → f a ≡ g b
      → map f placed ≡ map g rows
      → map f (if not zero_size then a ∷ placed else placed)
        ≡ map g (if is_open then b ∷ rows else rows)
  closing-row f g true true a b placed rows h s e = cc
  closing-row f g false true a b placed rows h s e =
      ap (λ t. t ∷ map f placed) s ∙ ap (λ l. g b ∷ l) e
  closing-row f g true false a b placed rows h s e = e
  closing-row f g false false a b placed rows h s e = cc

  closing_orders-rows :
      (category : Category) (rows : List J) (positions : List (Position Double))
      → read_rows (position_from_json ds json) rows ≡ read positions
      → map (λ order. order.symbol) (closing_orders ds category positions)
        ≡ map row_symbol (open_rows rows)
  unfolding closing_orders read_rows
  closing_orders-rows category [] positions e =
      ap (λ l. map (λ order. order.symbol) (closing_orders ds category l)) (sym (read-injective e))
  closing_orders-rows category (row ∷ rows) positions e =
      let first = then-read (position_from_json ds json row) _ positions e in
      let others = then-read (read_rows (position_from_json ds json) rows) _ positions first.2 in
      let fields_of = position_from_json-row row first.0 first.1 in
      ap (λ l. map (λ order. order.symbol) (closing_orders ds category l))
        (sym (read-injective others.2))
      ∙ closing-row (λ order. order.symbol) row_symbol first.0.zero_size (row_open row) _ row _
          (open_rows rows) fields_of.1 fields_of.0
          (closing_orders-rows category rows others.0 others.1)

  -- Where the venue's answer is read, the orders that close positions are one for each listed row whose
  -- size is a decimal number other than 0, in the rows' order and each with the symbol that the row has.
  pub closing_orders-from_json :
      (category : Category) (result : J) (rows : List J) (positions : List (Position Double))
      → list_rows json result ≡ read rows
      → positions_from_json ds json result ≡ read positions
      → map (λ order. order.symbol) (closing_orders ds category positions)
        ≡ map row_symbol (open_rows rows)
  unfolding positions_from_json
  closing_orders-from_json category result rows positions listed e =
      let all = then-read (list_rows json result) _ positions e in
      closing_orders-rows category rows positions
        (ap (read_rows (position_from_json ds json)) (read-injective (sym listed ∙ all.1)) ∙ all.2)
