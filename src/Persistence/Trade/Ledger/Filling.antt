-- ===== src/Persistence/Trade/Ledger/Filling.antt =====
-- How a filled order changes its trade: `update_trade` and `close` of class LocalTrade, and
-- `close_bt_order` of class Order, in freqtrade/persistence/trade_model.py. The clock is the time that
-- `dt_now()` returns. The commits to the database are left out.
use freqtrade_llm.Base.{
  ℕ, Bool, true, false, not, ◌&&◌, ◌||◌, Option, none, some, List, [], ◌∷◌, map, str_eq, ltb,
  if◌then◌else◌, ◌==◌,
}
use freqtrade_llm.Base.Float.{Float, Precise, truthy}
use freqtrade_llm.Base.Result.{Result, ok, err, ◌>>=◌}
use freqtrade_llm.Exchange.Precision.{Decimals, amount_to_contract_precision}
use freqtrade_llm.Persistence.Order.{Order, stoploss, side_eq, safe_price, safe_amount_after_fee}
use freqtrade_llm.Persistence.Trade.{
  Trade, entry_side, exit_side, select_filled_orders, nr_of_successful_entries,
}
use freqtrade_llm.Persistence.Trade.Profit.{Python}
use freqtrade_llm.Persistence.Trade.StopLoss.{adjust_stop_loss}
use freqtrade_llm.Persistence.Trade.Ledger.{LedgerError, value_error, recalc_trade_from_orders}

unfoldable pub dates : {F : Type 0} → List (Order F) → List ℕ
dates [] = []
dates (o ∷ os) =
    let rest = dates os in elim o.order_filled_date [ none ↦ rest | some date ↦ date ∷ rest ]

last_of : ℕ → List ℕ → ℕ
last_of best [] = best
last_of best (date ∷ rest) = last_of (if ltb best date then date else best) rest

unfoldable pub max_filled : {F : Type 0} → List (Order F) → Result LedgerError (Option ℕ)
unfolding dates last_of
max_filled [] = ok none
max_filled (o ∷ os) = elim (dates (o ∷ os)) [
  | [] ↦ err value_error
  | date ∷ rest ↦ ok (some (last_of date rest))
]

module _ {F P : Type 0} ⦃f : Float F⦄ (pr : Precise F P) (d : Decimals F) (py : Python F P) where
  open f use {zero, one, add, mul, div, lt, neg}
  open pr use {of_float, to_float}

  -- `_date_last_filled_utc`; `max` raises where no filled order has a date.
  unfoldable pub date_last_filled : Trade F → Result LedgerError (Option ℕ)
  unfolding max_filled
  date_last_filled t = max_filled (select_filled_orders t none)

  -- `self.close_date or self._date_last_filled_utc or dt_now()`
  unfoldable pub date_of_close : ℕ → Trade F → Result LedgerError ℕ
  date_of_close clock t = elim t.close_date [
    | some date ↦ ok date
    | none ↦ date_last_filled t >>= λ last. ok (elim last [ some date ↦ date | none ↦ clock ])
  ]

  unfoldable pub close : F → ℕ → Trade F → Result LedgerError (Trade F)
  close rate clock t = date_of_close clock t >>= λ date.
      recalc_trade_from_orders pr d py true clock (record t {
        close_rate = some rate;
        close_date = some date;
        is_open = false;
        exit_order_status = some "closed";
      })

  -- The order is one of the trade's own, so a change of it is seen there.
  abbrev pub put_order : Order F → List (Order F) → List (Order F)
  put_order o = map (λ x. if str_eq x.order_id o.order_id then o else x)

  abbrev pub funding_paid : Order F → Trade F → Trade F
  funding_paid o t = record t {
    orders = put_order (record o { funding_fee = t.funding_fee_running }) t.orders;
    funding_fee_running = some zero;
  }

  -- The running funding fees go to the order, unless it is a stop loss order.
  unfoldable pub pay_funding : Order F → Trade F → Trade F
  pay_funding o t = if side_eq o.ft_order_side stoploss then t else funding_paid o t

  -- The exit has the size of the trade. While recalculating only coming out to 0 closes it.
  unfoldable pub fills : Bool → Order F → Trade F → Bool
  fills recalculating o t =
      let amount =
        amount_to_contract_precision pr d t.amount t.amount_precision t.precision_mode
          t.contract_size in
      py.isclose (safe_amount_after_fee o) amount
      || (not recalculating && lt amount (safe_amount_after_fee o))

  abbrev pub ignored : Order F → Bool
  ignored o = elim o.status [ none ↦ false | some status ↦ str_eq status "open" ]

  abbrev pub stopped : Trade F → Trade F
  stopped t = record t {
    close_rate_requested = some t.stop_loss;
    exit_reason = some "stoploss_on_exchange";
  }

  unfoldable pub stopped_on_exchange : Order F → Trade F → Trade F
  stopped_on_exchange o t = if side_eq o.ft_order_side (exit_side t) then t else stopped t

  -- An order's side is the entry side, the exit side or "stoploss", so no other `ValueError` is left;
  -- its price is never `None`.
  unfoldable pub update_trade : Order F → Bool → ℕ → Trade F → Result LedgerError (Trade F)
  update_trade o recalculating clock t =
      let u = pay_funding o t in
      if ignored o
      then ok t
      else if side_eq o.ft_order_side (entry_side t)
      then recalc_trade_from_orders pr d py false clock
          (record u { open_rate = safe_price o; amount = safe_amount_after_fee o })
      else (let v = stopped_on_exchange o u in
          if fills recalculating o v
          then close (safe_price o) clock v
          else recalc_trade_from_orders pr d py false clock v)

  -- `recalc_trade_from_orders` does not touch the orders, so the order stays as it was closed here.
  unfoldable pub close_bt_order : ℕ → ℕ → Order F → Trade F → Result LedgerError (Trade F)
  close_bt_order close_date clock o t =
      let closed : Order F = record o {
        order_filled_date = some close_date;
        filled = o.amount;
        remaining = some zero;
        status = some "closed";
        ft_is_open = false;
        funding_fee = t.funding_fee_running;
      } in
      let u = record t { orders = put_order closed t.orders; funding_fee_running = some zero } in
      elim o.price [
        | none ↦ ok u
        | some price ↦
            if side_eq o.ft_order_side (entry_side t) && truthy price
            then (recalc_trade_from_orders pr d py false clock (record u { open_rate = price })
                >>= λ v.
                    let w =
                      if nr_of_successful_entries v == 1
                      then record v { initial_stop_loss_pct = none; is_stop_loss_trailing = false }
                      else v in
                    ok (adjust_stop_loss pr d w w.open_rate w.stop_loss_pct false false))
            else ok u
      ]
