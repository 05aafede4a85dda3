-- ===== src/FreqtradeBot/Orders.antt =====
-- freqtrade/freqtradebot.py: what follows when an order of a trade was filled. The state is the trade,
-- whether it is still in the database, and the pair locks; a raise keeps the state reached. Messages,
-- the callback `order_filled`, and the reasons of a cancellation that only messages show are left
-- out, and so is cross margin, where the liquidation prices of all open trades change.
pub mod Following
pub mod Keeping
pub mod Locking
use freqtrade_llm.Base.{
  arith, ◌≡◌, ℕ, Bool, true, false, not, ◌&&◌, ◌||◌, Option, none, some, List, [], ◌∷◌, String,
  str_eq, if◌then◌else◌, ltb,
}
use freqtrade_llm.Base.Float.{Float, Precise}
use freqtrade_llm.Base.Result.{Result, ok, err, ◌>>=◌}
use freqtrade_llm.Exchange.Fees.{CcxtOrder, check_order_canceled_empty}
use freqtrade_llm.Exchange.Precision.{Decimals}
use freqtrade_llm.Exchange.Timeframe.{Ccxt}
use freqtrade_llm.Persistence.Order.{Order, side_eq, is_non_open}
use freqtrade_llm.Persistence.Order.Updating.{UpdateError}
use freqtrade_llm.Persistence.PairLock.{Session}
use freqtrade_llm.Persistence.PairLocks.{PairLocks}
use freqtrade_llm.Persistence.Trade.{
  Trade, entry_side, exit_side, trade_direction, open_sl_orders, nr_of_successful_entries,
  select_order_by_order_id,
}
use freqtrade_llm.Persistence.Trade.Ledger.{LedgerError}
use freqtrade_llm.Persistence.Trade.Ledger.Filling.{update_trade, put_order}
use freqtrade_llm.Persistence.Trade.Profit.{Python, ProfitError, calc_profit_ratio}
use freqtrade_llm.Persistence.Trade.StopLoss.{adjust_stop_loss, set_liquidation_price}
use freqtrade_llm.Persistence.Trade.Store.{BtTrades}
use freqtrade_llm.Persistence.Trade.Updating.{update_order}
use freqtrade_llm.Plugins.ProtectionManager.{Protection, Texts}
use freqtrade_llm.Plugins.Protections.{Error}
use freqtrade_llm.Strategy.{Strategy, Callbacks}
use freqtrade_llm.Strategy.Stoploss.{Situation, ft_stoploss_adjust}
use freqtrade_llm.FreqtradeBot.{Exception, dependency, other, is_invalid_order}
use freqtrade_llm.FreqtradeBot.Fees.{FeeDesk, handle_order_fee}
use freqtrade_llm.FreqtradeBot.Protecting.{Protected, handle_protections}

-- What the exchange answers. `fetch_order` may answer otherwise when it is asked again; its first
-- argument is the number of times that it will still be asked. A liquidation price that is `None` or
-- that cannot be calculated is `none`.
pub record Venue (F : Type 0) : Type 0 where
  pub fetch_order : ℕ → String → String → Result Exception (CcxtOrder F)
  pub fetch_order_or_stoploss_order : String → String → Bool → Result Exception (CcxtOrder F)
  pub cancel_order_with_result : String → String → F → Result Exception (CcxtOrder F)
  pub cancel_stoploss_order_with_result : String → String → F → Result Exception (CcxtOrder F)
  pub get_min_pair_stake_amount : String → F → F → Option F
  pub get_exit_rate : String → Bool → Result Exception F
  pub get_liquidation_price : Trade F → Option F

pub record Position (F Db : Type 0) : Type 0 where
  pub trade : Trade F
  pub in_database : Bool
  pub locks : PairLocks Db

-- The parts of the bot: the numbers, the strategy, the exchange, the protections with the trades that
-- they look at, and the clock.
pub record Parts (F P Db : Type 0) : Type 0 where
  pub pr : Precise F P
  pub d : Decimals F
  pub py : Python F P
  pub strategy : Strategy F
  pub callbacks : Callbacks F
  pub venue : Venue F
  pub fees : FeeDesk F
  pub texts : Texts F
  pub trades : Trade F → BtTrades F
  pub session : Session Db
  pub ccxt : Ccxt
  pub handlers : List (Protection F)
  pub clock : ℕ

abbrev pub Act : Type 0 → Type 0 → Type 0
Act S A = Result (Exception × S) A

-- An exception of another component, in a state
abbrev pub within {ℓ} :
    {E S : Type 0} {A : Type ℓ} → (E → Exception) → S → Result E A → Result (Exception × S) A
within to p (ok a) = ok a
within to p (err e) = err (to e, p)

pub within-ok :
    {E S A : Type 0} (to : E → Exception) (p : S) (r : Result E A) (a : A)
    → within to p r ≡ ok a
    → r ≡ ok a
within-ok to p (ok b) a h = ground arith
within-ok to p (err e) a h = ground arith

module _ {F P Db : Type 0} ⦃f : Float F⦄ (x : Parts F P Db) where
  open f use {zero, lt}

  abbrev pub with_trade : Position F Db → Trade F → Position F Db
  with_trade p t = record p { trade = t }

  -- After an entry was filled
  unfoldable pub after_entry :
      (Position F Db → Act (Position F Db) (Position F Db))
      → Bool
      → Position F Db
      → Act (Position F Db) (Position F Db)
  after_entry cancel send_msg p =
      let t = p.trade in
      let u : Trade F =
        if ltb 1 (nr_of_successful_entries t) then record t { fee_open_currency = none } else t in
      let stopped : Act (Position F Db) (Position F Db) =
        if send_msg then cancel (with_trade p u) else ok p in
      stopped >>= λ q. ok (
        with_trade q (
          adjust_stop_loss x.pr x.d q.trade q.trade.open_rate (some x.strategy.stoploss) true
            false))

  -- The custom stop loss at the current rate
  unfoldable pub custom_stoploss : Position F Db → Act (Position F Db) (Position F Db)
  custom_stoploss p =
      let t = p.trade in
      within (λ e. e) p (x.venue.get_exit_rate t.pair t.is_short) >>= λ rate.
      within (λ (e : ProfitError). other) p (calc_profit_ratio x.pr x.py t x.clock rate none none)
      >>= λ profit. ok (
          with_trade p (
            ft_stoploss_adjust x.pr x.d x.strategy x.callbacks t
              (record {
                current_rate = rate;
                current_time = x.clock;
                current_profit = profit;
                force_stoploss = zero;
                low = none;
                high = none;
              })
              true))

  abbrev pub liquidated : Trade F → Trade F
  liquidated t = set_liquidation_price x.pr x.d t (x.venue.get_liquidation_price t)

  -- `_update_trade_after_fill`
  unfoldable pub update_trade_after_fill :
      (Position F Db → Act (Position F Db) (Position F Db))
      → Order F
      → Bool
      → Position F Db
      → Act (Position F Db) (Position F Db)
  unfolding after_entry custom_stoploss set_liquidation_price
  update_trade_after_fill cancel o send_msg p =
      let is_entry = side_eq o.ft_order_side (entry_side p.trade) in
      if not (is_non_open o.status)
      then ok p
      else ((if is_entry then after_entry cancel send_msg p else ok p) >>= λ q.
          let t = q.trade in
          let r =
            if side_eq o.ft_order_side (entry_side t) || (lt zero t.amount && t.is_open)
            then with_trade q (liquidated t)
            else q in
          if x.strategy.use_custom_stoploss && r.trade.is_open then custom_stoploss r else ok r)

  -- An exit that closed its trade leads to the protections.
  unfoldable pub order_close_notify : Order F → Position F Db → Act (Position F Db) (Position F Db)
  order_close_notify o p =
      let t = p.trade in
      let protected : Act (Position F Db) (Position F Db) =
        within (λ (e : Error). other) p
          (handle_protections x.texts (x.trades t) x.session x.ccxt x.clock x.handlers t.pair
            (trade_direction t) p.locks)
        >>= λ done. ok (record p { locks = done.locks }) in
      if side_eq o.ft_order_side (exit_side t) && not t.is_open then protected else ok p
