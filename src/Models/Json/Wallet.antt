-- ===== src/Models/Json/Wallet.antt =====
-- The readers of balances.
use bybit_cpp_api.Base.{List, [], ◌∷◌, ◌++◌, if◌then◌else◌}
use bybit_cpp_api.Text.{codes}
use bybit_cpp_api.Models.Enums.Casts.{account_type_cast}
use bybit_cpp_api.Models.Orders.{Doubles}
use bybit_cpp_api.Models.Wallet.{Coin, new_coin, AccountBalance, new_account_balance, ServerTime}
use bybit_cpp_api.Models.Json.{
  Json, Reading, read, ◌then◌, Step, steps, Field, fields, into, member_or, read_rows, list_rows,
  member_of,
}

module _ (ds : Doubles) {J : Type 0} (json : Json J ds.Double) where
  open ds use {Double}

  unfoldable pub coin_fields : J → List (Field (Coin Double))
  unfolding into
  coin_fields j =
      into (λ r m. record r { accrued_interest = member_or r.accrued_interest m })
        (json.double j (codes "accruedInterest"))
      ∷ into (λ r m. record r { available_to_borrow = member_or r.available_to_borrow m })
          (json.double j (codes "availableToBorrow"))
      ∷ into (λ r m. record r { available_to_withdraw = member_or r.available_to_withdraw m })
          (json.double j (codes "availableToWithdraw"))
      ∷ into (λ r m. record r { bonus = member_or r.bonus m }) (json.double j (codes "bonus"))
      ∷ into (λ r m. record r { borrow_amount = member_or r.borrow_amount m })
          (json.double j (codes "borrowAmount"))
      ∷ into (λ r m. record r { coin = member_or r.coin m }) (json.text j (codes "coin"))
      ∷ into (λ r m. record r { collateral_switch = member_or r.collateral_switch m })
          (json.flag j (codes "collateralSwitch"))
      ∷ into (λ r m. record r { cum_realised_pnl = member_or r.cum_realised_pnl m })
          (json.double j (codes "cumRealisedPnl"))
      ∷ into (λ r m. record r { equity = member_or r.equity m }) (json.double j (codes "equity"))
      ∷ into (λ r m. record r { locked = member_or r.locked m }) (json.double j (codes "locked"))
      ∷ into (λ r m. record r { margin_collateral = member_or r.margin_collateral m })
          (json.flag j (codes "marginCollateral"))
      ∷ into (λ r m. record r { total_order_im = member_or r.total_order_im m })
          (json.double j (codes "totalOrderIM"))
      ∷ into (λ r m. record r { total_position_im = member_or r.total_position_im m })
          (json.double j (codes "totalPositionIM"))
      ∷ into (λ r m. record r { total_position_mm = member_or r.total_position_mm m })
          (json.double j (codes "totalPositionMM"))
      ∷ into (λ r m. record r { unrealised_pnl = member_or r.unrealised_pnl m })
          (json.double j (codes "unrealisedPnl"))
      ∷ into (λ r m. record r { usd_value = member_or r.usd_value m })
          (json.double j (codes "usdValue"))
      ∷ into (λ r m. record r { wallet_balance = member_or r.wallet_balance m })
          (json.double j (codes "walletBalance"))
      ∷ []

  -- `Coin::fromJson` of a new `Coin`.
  unfoldable pub coin_from_json : J → Reading (Coin Double)
  unfolding coin_fields fields
  coin_from_json j = fields (coin_fields j) (new_coin ds)

  unfoldable pub account_balance_steps : J → List (Step (AccountBalance Double))
  unfolding into fields coin_from_json read_rows member_of ◌then◌
  account_balance_steps j =
      fields (
        into (λ r m. record r { account_im_rate = member_or r.account_im_rate m })
          (json.double j (codes "accountIMRate"))
        ∷ into (λ r m. record r { account_ltv = member_or r.account_ltv m })
            (json.double j (codes "accountLTV"))
        ∷ into (λ r m. record r { account_mm_rate = member_or r.account_mm_rate m })
            (json.double j (codes "accountMMRate"))
        ∷ into (λ r m. record r { account_type = member_or r.account_type m })
            (json.enumerator account_type_cast j (codes "accountType"))
        ∷ into (λ r m. record r { total_available_balance = member_or r.total_available_balance m })
            (json.double j (codes "totalAvailableBalance"))
        ∷ into (λ r m. record r { total_equity = member_or r.total_equity m })
            (json.double j (codes "totalEquity"))
        ∷ into (λ r m. record r { total_initial_margin = member_or r.total_initial_margin m })
            (json.double j (codes "totalInitialMargin"))
        ∷ into
            (λ r m. record r { total_maintenance_margin = member_or r.total_maintenance_margin m })
            (json.double j (codes "totalMaintenanceMargin"))
        ∷ into (λ r m. record r { total_margin_balance = member_or r.total_margin_balance m })
            (json.double j (codes "totalMarginBalance"))
        ∷ into (λ r m. record r { total_perp_upl = member_or r.total_perp_upl m })
            (json.double j (codes "totalPerpUPL"))
        ∷ into (λ r m. record r { total_wallet_balance = member_or r.total_wallet_balance m })
            (json.double j (codes "totalWalletBalance"))
        ∷ [])
      ∷ (λ r. member_of json (codes "coin") j then (λ c.
          read_rows coin_from_json (json.items c)
          then (λ cs. read (record r { coins = r.coins ++ cs }))))
      ∷ []

  -- `AccountBalance::fromJson` of a new `AccountBalance`.
  unfoldable pub account_balance_from_json : J → Reading (AccountBalance Double)
  unfolding account_balance_steps steps
  account_balance_from_json j = steps (account_balance_steps j) (new_account_balance ds)

  -- `WalletBalance::fromJson`, of the response's `result`: its list.
  unfoldable pub wallet_balance_from_json : J → Reading (List (AccountBalance Double))
  unfolding account_balance_from_json read_rows list_rows ◌then◌
  wallet_balance_from_json result = list_rows json result then read_rows account_balance_from_json

  unfoldable pub server_time_fields : J → List (Field ServerTime)
  unfolding into
  server_time_fields result =
      into (λ r m. record r { time_second = member_or r.time_second m })
        (json.number result (codes "timeSecond"))
      ∷ into (λ r m. record r { time_nano = member_or r.time_nano m })
          (json.number result (codes "timeNano"))
      ∷ []

  -- `ServerTime::fromJson`, of the response's `result`.
  unfoldable pub server_time_from_json : J → Reading ServerTime
  unfolding server_time_fields fields
  server_time_from_json result =
      fields (server_time_fields result) (record { time_second = 0; time_nano = 0 })
