-- ===== src/FreqtradeBot/Stopping.antt =====
-- freqtrade/freqtradebot.py: stop losses on the exchange, with `stoploss_adjust` of
-- freqtrade/exchange/exchange.py and `stoploss_last_update_utc` of trade_model.py. Messages are left
-- out.
pub mod Active
pub mod Hit
pub mod Remaining
use freqtrade_llm.Base.{
  ℕ, ◌+◌, ◌*◌, Bool, true, false, not, ◌&&◌, ◌||◌, Option, none, some, List, [], ◌∷◌, ◌++◌, String,
  str_eq, if◌then◌else◌, ltb, leb, ◌==◌, select, length, last?,
}
use freqtrade_llm.Base.Float.{Float}
use freqtrade_llm.Base.Result.{Result, ok, err, ◌>>=◌}
use freqtrade_llm.Exchange.Fees.{CcxtOrder}
use freqtrade_llm.Exchange.Precision.{PrecisionMode, round_down, round_up, price_to_precision}
use freqtrade_llm.Persistence.Order.{Order, OrderSide, buy, sell, stoploss, side_eq}
use freqtrade_llm.Persistence.Order.Updating.{parse_from_ccxt_object}
use freqtrade_llm.Persistence.Trade.{
  Trade, exit_side, trade_direction, open_sl_orders, has_open_orders, stoploss_or_liquidation,
}
use freqtrade_llm.Plugins.Protections.{Error}
use freqtrade_llm.Strategy.{ExitType, stoploss_on_exchange, value, exit_check}
use freqtrade_llm.FreqtradeBot.{
  Exception, operational, other, is_dependency, is_invalid_order, is_exchange_error,
}
use freqtrade_llm.FreqtradeBot.Canceling.{is_status}
use freqtrade_llm.FreqtradeBot.Exiting.{
  Leaving, ExitDesk, Exit, leaving, stayed, handle_insufficient_funds, is_insufficient,
  execute_trade_exit,
}
use freqtrade_llm.FreqtradeBot.Orders.{Position, Parts, Act, within, with_trade}
use freqtrade_llm.FreqtradeBot.Orders.Following.{update_trade_state, cancel_stoploss_on_exchange}
use freqtrade_llm.FreqtradeBot.Protecting.{handle_protections}

-- What the exchange answers and knows of stop losses, and the configuration of them: `trailing` says
-- that they trail or are custom. The interval is a number of seconds.
pub record StopDesk (F : Type 0) : Type 0 where
  pub create_stoploss : String → F → F → OrderSide → F → Result Exception (CcxtOrder F)
  pub fetch_stoploss_order : String → String → Result Exception (CcxtOrder F)
  pub has_stoploss : Bool
  pub stop_price_of : CcxtOrder F → Option F
  pub is_triggered : CcxtOrder F → Bool
  pub blocks_assets : Bool
  pub price_precision : String → Option F
  pub precision_mode_price : Option PrecisionMode
  pub trailing : Bool
  pub interval : ℕ

abbrev pub is_canceled_stop : {F : Type 0} → CcxtOrder F → Bool
is_canceled_stop order = is_status "canceled" order.status || is_status "cancelled" order.status

abbrev pub is_hit : {F : Type 0} → CcxtOrder F → Bool
is_hit order = is_status "closed" order.status || is_status "triggered" order.status

module _ {F : Type 0} where
  unfoldable pub latest_order_date : List (Order F) → Option ℕ
  latest_order_date [] = none
  latest_order_date (o ∷ os) = elim (latest_order_date os) [
    | none ↦ some o.order_date
    | some date ↦ some (if ltb date o.order_date then o.order_date else date)
  ]

  unfoldable pub stoploss_last_update : Trade F → Option ℕ
  unfolding latest_order_date
  stoploss_last_update t = latest_order_date (open_sl_orders t)

module _ {F P Db : Type 0} ⦃f : Float F⦄ (x : Parts F P Db) (y : ExitDesk F) (z : StopDesk F) where
  open f use {zero, lt}

  -- What has no flag; a raise leaves the state that was reached.
  abbrev pub Stop : Type 0 → Type 0
  Stop A = Result (Exception × Leaving F Db) A

  abbrev pub unless_dependent : Exit x y → Stop (Leaving F Db)
  unless_dependent (ok (exited, s)) = ok s
  unless_dependent (err (e, s)) = if is_dependency e then ok s else err (e, s)

  unfoldable pub emergency_exit : F → Option F → Leaving F Db → Stop (Leaving F Db)
  emergency_exit price sub_trade_amt s =
      unless_dependent
        (execute_trade_exit x y price (exit_check ExitType.emergency_exit "") none sub_trade_amt s)

  -- The trade with the order that the exchange created, or what follows where it raised
  unfoldable pub stoploss_created : F → Leaving F Db → Result Exception (CcxtOrder F) → Exit x y
  unfolding emergency_exit
  stoploss_created stop_price s (ok order) =
      let t = s.position.trade in
      let o = parse_from_ccxt_object x.clock order stoploss t.amount stop_price in
      ok (
        true,
        record s { position = with_trade x s.position (record t { orders = t.orders ++ o ∷ [] }) },
      )
  stoploss_created stop_price s (err e) =
      let p = s.position in
      let refound : Exit x y =
        leaving x y s.seen (handle_insufficient_funds x y p.trade.orders p) >>= λ q.
        stayed x y s.seen q in
      let exited : Exit x y = emergency_exit stop_price none s >>= λ u. ok (false, u) in
      if is_insufficient x y e
      then refound
      else if is_invalid_order e
      then exited
      else if is_exchange_error e
      then ok (false, s)
      else err (e, s)

  -- The flag says that the order was created.
  unfoldable pub create_stoploss_order : F → Leaving F Db → Exit x y
  unfolding stoploss_created
  create_stoploss_order stop_price s =
      let t = s.position.trade in
      stoploss_created stop_price s
        (z.create_stoploss t.pair t.amount stop_price (exit_side t) t.leverage)

  abbrev pub needs_adjustment : F → Option F → OrderSide → Bool
  needs_adjustment stop_loss none side = true
  needs_adjustment stop_loss (some price) side =
      (side_eq side sell && lt price stop_loss) || (side_eq side buy && lt stop_loss price)

  unfoldable pub stoploss_adjust : F → CcxtOrder F → OrderSide → Result Exception Bool
  stoploss_adjust stop_loss order side =
      if not z.has_stoploss
      then err operational
      else ok (needs_adjustment stop_loss (z.stop_price_of order) side)

  unfoldable pub stoploss_norm : Trade F → F
  stoploss_norm t =
      price_to_precision x.pr x.d (stoploss_or_liquidation t) (z.price_precision t.pair)
        z.precision_mode_price (if t.is_short then round_down else round_up)

  -- The latest stop loss order is older than the interval.
  unfoldable pub is_due : Trade F → Bool
  unfolding stoploss_last_update
  is_due t = elim (stoploss_last_update t) [
    | none ↦ false
    | some date ↦ leb (date + z.interval * 1_000_000) x.clock
  ]

  unfoldable pub handle_trailing_stoploss_on_exchange :
      CcxtOrder F → Leaving F Db → Stop (Leaving F Db)
  unfolding create_stoploss_order stoploss_adjust stoploss_norm is_due
  handle_trailing_stoploss_on_exchange order s =
      let t = s.position.trade in
      let replaced : Stop (Leaving F Db) =
        leaving x y s.seen (cancel_stoploss_on_exchange x s.position) >>= λ q.
        let u : Leaving F Db = record s { position = q } in
        let created : Stop (Leaving F Db) =
          create_stoploss_order (stoploss_norm t) u >>= λ (flag, v). ok v in
        if not q.trade.is_open then ok u else created in
      leaving x y s.seen
        (within (λ e. e) s.position (stoploss_adjust (stoploss_norm t) order (exit_side t)))
      >>= λ adjust. if adjust && is_due t then replaced else ok s

  -- The last stop loss order that is not canceled may be moved.
  abbrev pub trailed : Option (CcxtOrder F) → Leaving F Db → Stop (Leaving F Db)
  trailed none s = ok s
  trailed (some order) s =
      if s.position.trade.is_open && not (z.is_triggered order) && z.trailing
      then handle_trailing_stoploss_on_exchange order s
      else ok s

  unfoldable pub manage_trade_stoploss_orders :
      List (CcxtOrder F) → Leaving F Db → Stop (Leaving F Db)
  unfolding handle_trailing_stoploss_on_exchange
  manage_trade_stoploss_orders orders s =
      let t = s.position.trade in
      let active = last? (select (λ o. not (is_canceled_stop o)) orders) in
      let recreated : Stop (Leaving F Db) =
        create_stoploss_order (stoploss_or_liquidation t) s >>= λ (created, u).
        if created then ok u else trailed active u in
      if t.is_open
        && ltb 0 (length orders)
        && (length orders == length (select is_canceled_stop orders))
      then recreated
      else trailed active s

  abbrev pub if_valid_stop :
      Leaving F Db → Result Exception (CcxtOrder F) → Stop (Option (CcxtOrder F))
  if_valid_stop s (ok order) = ok (some order)
  if_valid_stop s (err e) = if is_invalid_order e then ok none else err (e, s)

  unfoldable pub fetched_stop : Order F → Leaving F Db → Stop (Option (CcxtOrder F))
  fetched_stop slo s =
      if str_eq slo.order_id ""
      then ok none
      else if_valid_stop s (z.fetch_stoploss_order slo.order_id s.position.trade.pair)

  -- The stop loss was hit: the reason of the exit, and the protections
  unfoldable pub stopped_out : Position F Db → Act (Position F Db) (Position F Db)
  stopped_out p =
      let t = record p.trade { exit_reason = some (value stoploss_on_exchange) } in
      within (λ (e : Error). other) (with_trade x p t)
        (handle_protections x.texts (x.trades t) x.session x.ccxt x.clock x.handlers t.pair
          (trade_direction t) p.locks)
      >>= λ done. ok (record (with_trade x p t) { locks = done.locks })

  -- What was found: whether a stop loss was hit, and the orders
  abbrev pub Found : Type 0
  Found = Stop (Bool × List (CcxtOrder F) × Leaving F Db)

  abbrev pub follow_stop :
      (List (CcxtOrder F) → Leaving F Db → Found)
      → Order F
      → List (CcxtOrder F)
      → Leaving F Db
      → Option (CcxtOrder F)
      → Found
  follow_stop next slo found s none = next found s
  follow_stop next slo found s (some order) =
      leaving x y s.seen (update_trade_state x slo.order_id (some order) true true s.position)
      >>= λ (flag, q).
          let hit : Found = leaving x y s.seen (stopped_out q) >>= λ r.
          ok (true, found ++ order ∷ [], record s { position = r }) in
          if is_hit order then hit else next (found ++ order ∷ []) (record s { position = q })

  unfoldable pub follow_stops : List (Order F) → List (CcxtOrder F) → Leaving F Db → Found
  unfolding stopped_out fetched_stop
  follow_stops [] found s = ok (false, found, s)
  follow_stops (slo ∷ slos) found s =
      let next : List (CcxtOrder F) → Leaving F Db → Found = follow_stops slos in
      fetched_stop slo s >>= λ answer. follow_stop next slo found s answer

  -- The flag says that a stop loss was hit.
  abbrev pub add_stoploss : Bool × List (CcxtOrder F) × Leaving F Db → Exit x y
  add_stoploss (true, orders, s) = ok (true, s)
  add_stoploss (false, orders, s) =
      let t = s.position.trade in
      let managed : Exit x y = manage_trade_stoploss_orders orders s >>= λ u. ok (false, u) in
      let created : Exit x y = create_stoploss_order (stoploss_or_liquidation t) s >>= λ (flag, u).
      let failed : Exit x y = manage_trade_stoploss_orders orders u >>= λ v. ok (false, v) in
      if flag then ok (false, u) else failed in
      if not (lt zero t.amount) || not t.is_open || (has_open_orders t && z.blocks_assets)
      then ok (false, s)
      else if length orders == 0
      then created
      else managed

  unfoldable pub handle_stoploss_on_exchange : Leaving F Db → Exit x y
  unfolding follow_stops manage_trade_stoploss_orders create_stoploss_order
  handle_stoploss_on_exchange s =
      follow_stops (open_sl_orders s.position.trade) [] s >>= λ found. add_stoploss found
