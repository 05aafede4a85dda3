-- ===== src/Persistence/Trade/Ledger.antt =====
-- How a trade follows its orders: `recalc_trade_from_orders` of class LocalTrade in
-- freqtrade/persistence/trade_model.py.
pub mod Loop
pub mod Mean
pub mod Filling
pub mod Keeping
pub mod Closing
use freqtrade_llm.Base.{
  ℕ, Bool, true, false, not, ◌&&◌, ◌||◌, Option, none, some, List, [], ◌∷◌, map, str_eq, ltb,
  if◌then◌else◌, is_some, is_empty, ◌==◌,
}
use freqtrade_llm.Base.Float.{Float, Precise, truthy, truthy?, or_else}
use freqtrade_llm.Base.Result.{Result, ok, err, ◌>>=◌}
use freqtrade_llm.Exchange.Precision.{
  Decimals, round, amount_to_contract_precision, price_to_precision,
}
use freqtrade_llm.Persistence.Order.{
  Order, OrderSide, buy, sell, stoploss, side_eq, safe_price, safe_filled, safe_amount_after_fee,
}
use freqtrade_llm.Persistence.Trade.{
  Trade, entry_side, exit_side, select_filled_orders, nr_of_successful_entries,
}
use freqtrade_llm.Persistence.Trade.Profit.{
  Python, ProfitError, ProfitStruct, calculate_profit, open_value_of, recalc_open_trade_value,
}
use freqtrade_llm.Persistence.Trade.StopLoss.{adjust_stop_loss, leverage_or_one}

-- The exceptions of `calculate_profit`, `UnboundLocalError`, for `price` before it is assigned, and
-- `ValueError`, for the maximum of no dates.
pub data LedgerError : Type 0 where
  profit_error : ProfitError → LedgerError
  unbound_local value_error : LedgerError

-- The local variables of the loop; `price` and `prof` are unassigned at first.
pub record Totals (F P : Type 0) : Type 0 where
  pub current_amount : P
  pub current_stake : P
  pub max_stake_amount : P
  pub total_stake : F
  pub avg_price : P
  pub price : Option P
  pub close_profit : F
  pub close_profit_abs : F
  pub prof : Option (ProfitStruct F)
  pub funding_fees : F
  -- `self.funding_fees`
  pub own_funding_fees : F

abbrev pub of_profit {ℓ} : {A : Type ℓ} → Result ProfitError A → Result LedgerError A
of_profit (ok a) = ok a
of_profit (err e) = err (profit_error e)

module _ {F P : Type 0} ⦃f : Float F⦄ (pr : Precise F P) (d : Decimals F) (py : Python F P) where
  open f use {zero, one, add, mul, div, lt, neg}
  open pr use {of_float, to_float}

  abbrev pub start : Totals F P
  start = record {
    current_amount = of_float zero;
    current_stake = of_float zero;
    max_stake_amount = of_float zero;
    total_stake = zero;
    avg_price = of_float zero;
    price = none;
    close_profit = zero;
    close_profit_abs = zero;
    prof = none;
    funding_fees = zero;
    own_funding_fees = zero;
  }

  abbrev pub is_exit : Trade F → Order F → Bool
  is_exit t o = not (side_eq o.ft_order_side (entry_side t))

  -- `if o.ft_is_open or not o.filled: continue`
  abbrev pub counts : Order F → Bool
  counts o = not (o.ft_is_open || not (truthy? o.filled))

  -- `FtPrecise(-1 if is_exit else 1)`
  abbrev pub signed : Bool → P
  signed exit = of_float (if exit then neg one else one)

  abbrev pub has_amount : Order F → Bool
  has_amount o = pr.lt (of_float zero) (of_float (safe_amount_after_fee o))

  -- The amounts and the average price, for an order whose amount is positive.
  unfoldable pub count_amount : Bool → Order F → Totals F P → Totals F P
  count_amount exit o s =
      let amount = of_float (safe_amount_after_fee o) in
      let price = if exit then s.avg_price else of_float (safe_price o) in
      let current = pr.add s.current_amount (pr.mul amount (signed exit)) in
      let stake = pr.add s.current_stake (pr.mul (pr.mul price amount) (signed exit)) in
      record s {
        current_amount = current;
        current_stake = stake;
        price = some price;
        avg_price =
            if pr.lt (of_float zero) current && not exit then pr.div stake current else s.avg_price;
      }

  -- The branch of an exit. Its profit is that of the trade with the funding fees so far.
  unfoldable pub count_exit :
      Trade F → ℕ → Bool → Order F → Totals F P → Result LedgerError (Totals F P)
  count_exit t clock last_of_closing o s =
      let own = if last_of_closing then s.funding_fees else s.own_funding_fees in
      of_profit (
        calculate_profit pr py (record t { funding_fees = some own }) clock (safe_price o)
          (some (safe_amount_after_fee o)) (some (to_float s.avg_price)))
      >>= λ prof.
          let total = add s.close_profit_abs prof.profit_abs in
          ok (record s {
            own_funding_fees = own;
            close_profit_abs = total;
            prof = some prof;
            close_profit =
                if lt zero s.total_stake
                then mul (div total s.total_stake) t.leverage
                else s.close_profit;
          })

  unfoldable pub count_entry : Trade F → Order F → Totals F P → Result LedgerError (Totals F P)
  count_entry t o s = elim s.price [
    | none ↦ err unbound_local
    | some price ↦
        let amount = of_float (safe_amount_after_fee o) in
        ok (record s {
          total_stake = add s.total_stake (open_value_of pr py t amount price);
          max_stake_amount = pr.add s.max_stake_amount (pr.mul amount price);
        })
  ]

  -- The body of the loop; the flag says that this is the last order, and the trade is closing.
  unfoldable pub count_order :
      Trade F → ℕ → Bool → Order F → Totals F P → Result LedgerError (Totals F P)
  count_order t clock last_of_closing o s =
      let paid = record s { funding_fees = add s.funding_fees (or_else o.funding_fee zero) } in
      let counted = if has_amount o then count_amount (is_exit t o) o paid else paid in
      if is_exit t o then count_exit t clock last_of_closing o counted else count_entry t o counted

  unfoldable pub count_orders :
      Trade F → ℕ → Bool → List (Order F) → Totals F P → Result LedgerError (Totals F P)
  count_orders t clock is_closing [] s = ok s
  count_orders t clock is_closing (o ∷ os) s =
      if counts o
      then (count_order t clock (is_closing && is_empty os) o s >>= λ u.
          count_orders t clock is_closing os u)
      else count_orders t clock is_closing os s

  -- `if close_profit:`, which is false unless an exit was counted
  unfoldable pub take_profit : Totals F P → Trade F → Trade F
  take_profit s t =
      if truthy s.close_profit
      then record t {
        close_profit = some s.close_profit;
        realized_profit = s.close_profit_abs;
        close_profit_abs = elim s.prof [ none ↦ none | some prof ↦ some prof.profit_abs ];
      }
      else t

  -- The trade is still open: its rate, amounts and fee, and its stop loss, which stays if no
  -- percentage is set.
  unfoldable pub still_open : Totals F P → F → Trade F → Trade F
  still_open s amount t =
      let rate =
        price_to_precision pr d (to_float (pr.div s.current_stake s.current_amount))
          t.price_precision t.precision_mode_price round in
      let u = recalc_open_trade_value pr py (record t {
        open_rate = rate;
        amount = amount;
        stake_amount = div (to_float s.current_stake) (leverage_or_one pr d t);
        fee_open_cost = some (mul t.fee_open (or_else t.max_stake_amount zero));
      }) in
      adjust_stop_loss pr d u rate u.stop_loss_pct false false

  abbrev pub tradable_amount : Totals F P → Trade F → F
  tradable_amount s t =
      amount_to_contract_precision pr d (to_float s.current_amount) t.amount_precision
        t.precision_mode t.contract_size

  abbrev pub with_totals : Totals F P → Trade F → Trade F
  with_totals s t = record t {
    funding_fees = some s.funding_fees;
    max_stake_amount = some (div (to_float s.max_stake_amount) (leverage_or_one pr d t));
  }

  -- `elif is_closing and total_stake > 0`
  unfoldable pub closed_out : Bool → Totals F P → Trade F → Trade F
  closed_out is_closing s t =
      if is_closing && lt zero s.total_stake
      then record t {
        close_profit = some (mul (div s.close_profit_abs s.total_stake) t.leverage);
        close_profit_abs = some s.close_profit_abs;
      }
      else t

  -- What follows the loop
  unfoldable pub settle : Bool → Totals F P → Trade F → Trade F
  settle is_closing s t =
      let u = take_profit s (with_totals s t) in
      if lt zero (tradable_amount s u)
      then still_open s (tradable_amount s u) u
      else closed_out is_closing s u

  unfoldable pub recalc_trade_from_orders : Bool → ℕ → Trade F → Result LedgerError (Trade F)
  recalc_trade_from_orders is_closing clock t =
      count_orders t clock is_closing t.orders start >>= λ s. ok (settle is_closing s t)
