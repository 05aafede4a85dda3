-- ===== src/FreqtradeBot/Orders/Following.antt =====
-- freqtrade/freqtradebot.py: how a trade follows an order of the exchange (update_trade_state), and how
-- its stop losses on the exchange are canceled.
use freqtrade_llm.Base.{
  Bool, true, false, not, Option, none, some, List, [], ◌∷◌, String, str_eq, if◌then◌else◌,
}
use freqtrade_llm.Base.Float.{Float}
use freqtrade_llm.Base.Result.{Result, ok, err, ◌>>=◌}
use freqtrade_llm.Exchange.Fees.{CcxtOrder, check_order_canceled_empty}
use freqtrade_llm.Persistence.Order.{Order}
use freqtrade_llm.Persistence.Order.Updating.{UpdateError}
use freqtrade_llm.Persistence.Trade.{Trade, open_sl_orders, select_order_by_order_id}
use freqtrade_llm.Persistence.Trade.Ledger.{LedgerError}
use freqtrade_llm.Persistence.Trade.Ledger.Filling.{update_trade, put_order}
use freqtrade_llm.Persistence.Trade.Updating.{update_order}
use freqtrade_llm.FreqtradeBot.{Exception, dependency, other, is_invalid_order}
use freqtrade_llm.FreqtradeBot.Fees.{handle_order_fee}
use freqtrade_llm.FreqtradeBot.Orders.{
  Position, Parts, Act, within, with_trade, update_trade_after_fill, order_close_notify,
}

module _ {F P Db : Type 0} ⦃f : Float F⦄ (x : Parts F P Db) where
  open f use {zero, lt}

  -- `order_obj_or_raise`
  abbrev pub order_obj_or_raise : Position F Db → Option (Order F) → Act (Position F Db) (Order F)
  order_obj_or_raise p none = err (dependency, p)
  order_obj_or_raise p (some o) = ok o

  abbrev pub with_order : Order F → Trade F → Trade F
  with_order o t = record t { orders = put_order x.pr x.d x.py o t.orders }

  -- The trade and its order when the fee was handled
  abbrev pub with_fees :
      Position F Db
      → Result (Exception × Trade F) (Trade F × Order F)
      → Act (Position F Db) (Trade F × Order F)
  with_fees p (ok (u, w)) = ok (with_order w u, w)
  with_fees p (err (e, u)) = err (e, with_trade x p u)

  abbrev pub fee_handled :
      Order F → CcxtOrder F → Position F Db → Act (Position F Db) (Trade F × Order F)
  fee_handled o order p = with_fees p (handle_order_fee x.fees p.trade o order)

  -- The rest of `update_trade_state`, once the order of the exchange is known and noted
  unfoldable pub follow_order :
      (Position F Db → Act (Position F Db) (Position F Db))
      → String
      → CcxtOrder F
      → Bool
      → Position F Db
      → Act (Position F Db) (Position F Db)
  unfolding update_trade_after_fill order_close_notify
  follow_order cancel order_id order send_msg p =
      order_obj_or_raise p (select_order_by_order_id p.trade order_id) >>= λ o.
      fee_handled o order p >>= λ (t, w).
      within (λ (e : LedgerError). other) (with_trade x p t)
        (update_trade x.pr x.d x.py w (not send_msg) x.clock t)
      >>= λ u. update_trade_after_fill x cancel w send_msg (with_trade x p u) >>= λ q.
          order_close_notify x w q

  abbrev pub if_valid :
      Position F Db → Result Exception (CcxtOrder F) → Act (Position F Db) (Option (CcxtOrder F))
  if_valid p (ok order) = ok (some order)
  if_valid p (err e) = if is_invalid_order e then ok none else err (e, p)

  -- The order that the caller has, or the one that the exchange finds; `none` is an
  -- `InvalidOrderException`.
  unfoldable pub order_of_exchange :
      String
      → Option (CcxtOrder F)
      → Bool
      → Position F Db
      → Act (Position F Db) (Option (CcxtOrder F))
  order_of_exchange order_id (some order) stoploss_order p = ok (some order)
  order_of_exchange order_id none stoploss_order p =
      if_valid p (x.venue.fetch_order_or_stoploss_order order_id p.trade.pair stoploss_order)

  -- The flag says that the order was canceled without being filled.
  unfoldable pub update_with :
      (Position F Db → Act (Position F Db) (Position F Db))
      → String
      → CcxtOrder F
      → Bool
      → Position F Db
      → Act (Position F Db) (Bool × Position F Db)
  unfolding follow_order
  update_with cancel order_id order send_msg p =
      within (λ (e : UpdateError). dependency) p (update_order x.clock order p.trade) >>= λ t.
      let q = with_trade x p t in
      if check_order_canceled_empty order
      then ok (true, q)
      else (follow_order cancel order_id order send_msg q >>= λ r. ok (false, r))

  abbrev pub update_if_found :
      (Position F Db → Act (Position F Db) (Position F Db))
      → String
      → Bool
      → Position F Db
      → Option (CcxtOrder F)
      → Act (Position F Db) (Bool × Position F Db)
  update_if_found cancel order_id send_msg p none = ok (false, p)
  update_if_found cancel order_id send_msg p (some order) =
      update_with cancel order_id order send_msg p

  -- `update_trade_state`, with what cancels the stop loss orders
  unfoldable pub update_trade_state_with :
      (Position F Db → Act (Position F Db) (Position F Db))
      → String
      → Option (CcxtOrder F)
      → Bool
      → Bool
      → Position F Db
      → Act (Position F Db) (Bool × Position F Db)
  unfolding update_with order_of_exchange
  update_trade_state_with cancel order_id action_order stoploss_order send_msg p =
      if str_eq order_id ""
      then ok (false, p)
      else (order_of_exchange order_id action_order stoploss_order p >>= λ found.
          update_if_found cancel order_id send_msg p found)

  -- A stop loss order is no entry, so following it cancels nothing: the recursion ends here.
  unfoldable pub update_stoploss_order :
      String → CcxtOrder F → Position F Db → Act (Position F Db) (Bool × Position F Db)
  unfolding update_trade_state_with
  update_stoploss_order order_id order p =
      update_trade_state_with (λ q. ok q) order_id (some order) true true p

  -- An `InvalidOrderException` is caught.
  abbrev pub unless_invalid :
      Act (Position F Db) (Bool × Position F Db) → Act (Position F Db) (Position F Db)
  unless_invalid (ok (canceled, q)) = ok q
  unless_invalid (err (e, q)) = if is_invalid_order e then ok q else err (e, q)

  unfoldable pub cancel_stoploss_order :
      Order F → Position F Db → Act (Position F Db) (Position F Db)
  unfolding update_stoploss_order
  cancel_stoploss_order oslo p =
      let t = p.trade in
      unless_invalid (
        within (λ e. e) p (x.venue.cancel_stoploss_order_with_result oslo.order_id t.pair t.amount)
        >>= λ co. update_stoploss_order oslo.order_id co p)

  unfoldable pub cancel_stoploss_orders :
      List (Order F) → Position F Db → Act (Position F Db) (Position F Db)
  unfolding cancel_stoploss_order
  cancel_stoploss_orders [] p = ok p
  cancel_stoploss_orders (oslo ∷ rest) p =
      cancel_stoploss_order oslo p >>= λ q. cancel_stoploss_orders rest q

  unfoldable pub cancel_stoploss_on_exchange : Position F Db → Act (Position F Db) (Position F Db)
  unfolding cancel_stoploss_orders
  cancel_stoploss_on_exchange p = cancel_stoploss_orders (open_sl_orders p.trade) p

  unfoldable pub update_trade_state :
      String
      → Option (CcxtOrder F)
      → Bool
      → Bool
      → Position F Db
      → Act (Position F Db) (Bool × Position F Db)
  unfolding update_trade_state_with cancel_stoploss_on_exchange
  update_trade_state = update_trade_state_with cancel_stoploss_on_exchange
