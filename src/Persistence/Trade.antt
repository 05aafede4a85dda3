-- ===== src/Persistence/Trade.antt =====
-- The class `LocalTrade` of freqtrade/persistence/trade_model.py: its fields, and the properties
-- and queries over its orders. A datetime is its distance from the epoch in microseconds.
pub mod StopLoss
pub mod Profit
pub mod Ledger
pub mod Store
pub mod Updating
use freqtrade_llm.Base.{
  ℕ, Bool, true, false, not, ◌&&◌, ◌||◌, Option, none, some, List, String, str_eq, if◌then◌else◌,
  is_some, ◌≡◌, select, length, last?, ltb, ◌==◌, map,
}
use freqtrade_llm.Base.Float.{Float, truthy, or_else, truthy?}
use freqtrade_llm.Base.Float
use freqtrade_llm.Exchange.Precision.{PrecisionMode}
use freqtrade_llm.Persistence.Order.{
  Order, OrderSide, buy, sell, stoploss, side_eq, is_non_open, is_canceled,
}

pub data TradingMode : Type 0 where
  spot margin futures : TradingMode

pub record Trade (F : Type 0) : Type 0 where
  pub id : ℕ
  pub orders : List (Order F)
  pub exchange : String
  pub pair : String
  pub is_open : Bool
  pub fee_open : F
  pub fee_open_cost : Option F
  pub fee_open_currency : Option String
  pub fee_close : Option F
  pub fee_close_cost : Option F
  pub fee_close_currency : Option String
  pub open_rate : F
  pub open_trade_value : F
  pub close_rate : Option F
  pub close_rate_requested : Option F
  pub close_profit : Option F
  pub close_profit_abs : Option F
  pub realized_profit : F
  pub stake_amount : F
  pub max_stake_amount : Option F
  pub amount : F
  pub open_date : ℕ
  pub close_date : Option ℕ
  pub stop_loss : F
  pub stop_loss_pct : Option F
  pub initial_stop_loss : Option F
  pub initial_stop_loss_pct : Option F
  pub is_stop_loss_trailing : Bool
  pub max_rate : Option F
  pub min_rate : Option F
  pub exit_reason : Option String
  pub exit_order_status : Option String
  pub enter_tag : Option String
  pub trading_mode : TradingMode
  pub amount_precision : Option F
  pub price_precision : Option F
  pub precision_mode : Option PrecisionMode
  pub precision_mode_price : Option PrecisionMode
  pub contract_size : Option F
  pub liquidation_price : Option F
  pub is_short : Bool
  pub leverage : F
  pub interest_rate : F
  pub funding_fees : Option F
  pub funding_fee_running : Option F

module _ {F : Type 0} where
  unfoldable pub entry_side : Trade F → OrderSide
  entry_side t = if t.is_short then sell else buy

  unfoldable pub exit_side : Trade F → OrderSide
  exit_side t = if t.is_short then buy else sell

  unfoldable pub trade_direction : Trade F → String
  trade_direction t = if t.is_short then "short" else "long"

  unfoldable pub open_orders : Trade F → List (Order F)
  open_orders t = select (λ o. o.ft_is_open && not (side_eq o.ft_order_side stoploss)) t.orders

  unfoldable pub has_open_orders : Trade F → Bool
  has_open_orders t =
      ltb 0 (length (select (λ o. not (side_eq o.ft_order_side stoploss) && o.ft_is_open) t.orders))

  unfoldable pub open_sl_orders : Trade F → List (Order F)
  open_sl_orders t = select (λ o. side_eq o.ft_order_side stoploss && o.ft_is_open) t.orders

  unfoldable pub has_open_sl_orders : Trade F → Bool
  has_open_sl_orders t =
      ltb 0 (length (select (λ o. side_eq o.ft_order_side stoploss && o.ft_is_open) t.orders))

  unfoldable pub sl_orders : Trade F → List (Order F)
  sl_orders t = select (λ o. side_eq o.ft_order_side stoploss) t.orders

  unfoldable pub open_orders_ids : Trade F → List String
  unfolding open_orders
  open_orders_ids t =
      map (λ o. o.order_id) (select (λ o. not (side_eq o.ft_order_side stoploss)) (open_orders t))

  unfoldable pub canceled_exit_order_count : Trade F → ℕ
  unfolding exit_side
  canceled_exit_order_count t =
      length (select (λ o. side_eq o.ft_order_side (exit_side t) && is_canceled o.status) t.orders)

  unfoldable pub find_order : String → List (Order F) → Option (Order F)
  find_order id os = elim os [
    | List.[] ↦ none
    | List.◌∷◌ o (rest → found) ↦ if str_eq o.order_id id then some o else found
  ]

  unfoldable pub select_order_by_order_id : Trade F → String → Option (Order F)
  unfolding find_order
  select_order_by_order_id t order_id = find_order order_id t.orders

  -- Only the first currency of a side is recorded.
  unfoldable pub update_fee : Trade F → F → Option String → Option F → OrderSide → Trade F
  unfolding entry_side exit_side
  update_fee t fee_cost fee_currency fee_rate side =
      if side_eq (entry_side t) side && not (is_some t.fee_open_currency)
      then record t {
        fee_open_cost = some fee_cost;
        fee_open_currency = fee_currency;
        fee_open = elim fee_rate [ none ↦ t.fee_open | some rate ↦ rate ];
        fee_close = elim fee_rate [ none ↦ t.fee_close | some rate ↦ some rate ];
      }
      else if side_eq (exit_side t) side && not (is_some t.fee_close_currency)
      then record t {
        fee_close_cost = some fee_cost;
        fee_close_currency = fee_currency;
        fee_close = elim fee_rate [ none ↦ t.fee_close | some rate ↦ some rate ];
      }
      else t

  unfoldable pub fee_updated : Trade F → OrderSide → Bool
  unfolding entry_side exit_side
  fee_updated t side =
      if side_eq (entry_side t) side
      then is_some t.fee_open_currency
      else if side_eq (exit_side t) side
      then is_some t.fee_close_currency
      else false

-- The filters of `select_filled_orders` and `select_order`, where an argument may be left out.
abbrev pub optional_side : Option OrderSide → OrderSide → Bool
optional_side none s = true
optional_side (some side) s = side_eq s side

abbrev pub optional_open : Option Bool → Bool → Bool
optional_open none b = true
optional_open (some true) b = b
optional_open (some false) b = not b

abbrev pub wants_filled : Option Bool → Bool → Bool
wants_filled (some false) only_filled = only_filled
wants_filled _ only_filled = false

module _ {F : Type 0} ⦃f : Float F⦄ where
  open f use {zero, one, lt, eq, add, sub, mul, div}

  unfoldable pub stoploss_or_liquidation : Trade F → F
  stoploss_or_liquidation t = elim t.liquidation_price [
    | none ↦ t.stop_loss
    | some price ↦
        if truthy price
        then (if t.is_short then Float.min t.stop_loss price else Float.max t.stop_loss price)
        else t.stop_loss
  ]

  unfoldable pub has_no_leverage : Trade F → Bool
  has_no_leverage t = eq t.leverage one && not t.is_short

  unfoldable pub borrowed : Trade F → F
  unfolding has_no_leverage
  borrowed t =
      if has_no_leverage t
      then zero
      else if not t.is_short
      then mul (mul t.amount t.open_rate) (div (sub t.leverage one) t.leverage)
      else t.amount

  unfoldable pub has_open_position : Trade F → Bool
  has_open_position t = lt zero t.amount

  unfoldable pub fully_canceled_entry_order_count : Trade F → ℕ
  unfolding entry_side
  fully_canceled_entry_order_count t = length (
      select
        (λ o.
          side_eq o.ft_order_side (entry_side t)
          && is_canceled o.status
          && elim o.filled [ none ↦ false | some x ↦ eq x zero ])
        t.orders)

  unfoldable pub select_filled_orders : Trade F → Option OrderSide → List (Order F)
  select_filled_orders t side =
      select
        (λ o.
          optional_side side o.ft_order_side
          && not o.ft_is_open
          && truthy? o.filled
          && is_non_open o.status)
        t.orders

  unfoldable pub select_filled_or_open_orders : Trade F → List (Order F)
  select_filled_or_open_orders t =
      select
        (λ o.
          (not o.ft_is_open && lt zero (or_else o.filled zero) && is_non_open o.status)
          || (o.ft_is_open && is_some o.status))
        t.orders

  unfoldable pub select_order : Trade F → Option OrderSide → Option Bool → Bool → Option (Order F)
  select_order t side is_open only_filled =
      let of_side = select (λ o. optional_side side o.ft_order_side) t.orders in
      let of_state = select (λ o. optional_open is_open o.ft_is_open) of_side in
      last? (
        if wants_filled is_open only_filled
        then select (λ o. truthy? o.filled && is_non_open o.status) of_state
        else of_state)

  unfoldable pub nr_of_successful_entries : Trade F → ℕ
  unfolding select_filled_orders entry_side
  nr_of_successful_entries t = length (select_filled_orders t (some (entry_side t)))

  unfoldable pub nr_of_successful_exits : Trade F → ℕ
  unfolding select_filled_orders exit_side
  nr_of_successful_exits t = length (select_filled_orders t (some (exit_side t)))

  unfoldable pub adjust_min_max_rates : Trade F → F → F → Trade F
  adjust_min_max_rates t current_price current_price_low = record t {
    max_rate = some (Float.max current_price (or_else t.max_rate t.open_rate));
    min_rate = some (Float.min current_price_low (or_else t.min_rate t.open_rate));
  }

  -- The rounded price is `price_to_precision`'s.
  unfoldable pub set_funding_fees : Trade F → Option F → Trade F
  set_funding_fees t none = t
  set_funding_fees t (some fee) = record t {
    funding_fee_running = some fee;
    funding_fees = some (
        add
          (Float.sum
            (map (λ o. or_else o.funding_fee zero) (select (λ o. truthy? o.funding_fee) t.orders)))
          fee);
  }
