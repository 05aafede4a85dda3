-- ===== src/FreqtradeBot/Orders/Keeping.antt =====
-- The trade in the database when freqtrade/freqtradebot.py follows an order.
use freqtrade_llm.Base.{
  ◌≡◌, Bool, true, false, not, ◌&&◌, ◌||◌, Option, none, some, if_both, if◌then◌else◌, String, List,
  [], ◌∷◌, str_eq,
}
use freqtrade_llm.Base.Float.{Float}
use freqtrade_llm.Base.Result.{Leaves, Leaves-bind, Result, ok, err}
use freqtrade_llm.Exchange.Fees.{CcxtOrder, check_order_canceled_empty}
use freqtrade_llm.Persistence.Order.{Order, side_eq, is_non_open}
use freqtrade_llm.Persistence.Order.Updating.{UpdateError}
use freqtrade_llm.Persistence.Trade.{
  Trade, entry_side, exit_side, trade_direction, open_sl_orders, select_order_by_order_id,
}
use freqtrade_llm.Persistence.Trade.Ledger.{LedgerError}
use freqtrade_llm.Persistence.Trade.Ledger.Filling.{update_trade}
use freqtrade_llm.Persistence.Trade.Profit.{ProfitError, calc_profit_ratio}
use freqtrade_llm.Persistence.Trade.Updating.{update_order}
use freqtrade_llm.Plugins.Protections.{Error}
use freqtrade_llm.FreqtradeBot.{Exception, dependency, other, is_invalid_order}
use freqtrade_llm.FreqtradeBot.Fees.{handle_order_fee}
use freqtrade_llm.FreqtradeBot.Protecting.{handle_protections}
use freqtrade_llm.FreqtradeBot.Orders.{
  Position, Parts, Act, within, with_trade, after_entry, custom_stoploss, update_trade_after_fill,
  order_close_notify, liquidated,
}
use freqtrade_llm.FreqtradeBot.Orders.Following.{
  order_obj_or_raise, fee_handled, with_fees, if_valid, unless_invalid, follow_order,
  order_of_exchange, update_with, update_if_found, update_trade_state_with, update_stoploss_order,
  cancel_stoploss_order, cancel_stoploss_orders, cancel_stoploss_on_exchange, update_trade_state,
}

abbrev pub Any : {A : Type 0} → A → Type 0
Any a = Unit

module _ {F Db : Type 0} (b : Bool) where
  abbrev pub Stays : Position F Db → Type 0
  Stays q = q.in_database ≡ b

  abbrev pub FlagStays : Bool × Position F Db → Type 0
  FlagStays (flag, q) = Stays q

  -- A trade is as much in the database after a raise as it was before, and what is returned has a
  -- property.
  abbrev pub Keeps : {A : Type 0} → (A → Type 0) → Act (Position F Db) A → Type 0
  Keeps P r = Leaves Stays P r

  pub within-Keeps :
      {E A : Type 0} (to : E → Exception) (p : Position F Db) (r : Result E A)
      → Stays p
      → Keeps Any (within to p r)
  within-Keeps to p (ok a) h = tt
  within-Keeps to p (err e) h = h

module _ {F P Db : Type 0} ⦃f : Float F⦄ (x : Parts F P Db) (b : Bool) where
  open f use {zero, lt}

  -- What cancels the stop loss orders keeps the trade.
  abbrev Harmless : (Position F Db → Act (Position F Db) (Position F Db)) → Type 0
  Harmless cancel = (p : Position F Db) → Stays b p → Keeps b (Stays b) (cancel p)

  after_entry-Keeps :
      (cancel : Position F Db → Act (Position F Db) (Position F Db)) (send_msg : Bool)
      (p : Position F Db)
      → Harmless cancel
      → Stays b p
      → Keeps b (Stays b) (after_entry x cancel send_msg p)
  unfolding after_entry
  after_entry-Keeps cancel send_msg p c h =
      Leaves-bind (Stays b) (Stays b) (Stays b) _ _
        (if_both (Keeps b (Stays b)) send_msg (cancel (with_trade x p _)) (ok p) (c _ h) h)
        (λ q k. k)

  custom_stoploss-Keeps : (p : Position F Db) → Stays b p → Keeps b (Stays b) (custom_stoploss x p)
  unfolding custom_stoploss
  custom_stoploss-Keeps p h =
      Leaves-bind (Stays b) Any (Stays b)
        (within (λ e. e) p (x.venue.get_exit_rate p.trade.pair p.trade.is_short)) _
        (within-Keeps b (λ e. e) p _ h)
        λ rate u.
          Leaves-bind (Stays b) Any (Stays b)
            (within (λ (e : ProfitError). other) p
              (calc_profit_ratio x.pr x.py p.trade x.clock rate none none))
            _ (within-Keeps b (λ (e : ProfitError). other) p _ h) (λ profit v. h)

  liquidation-Keeps :
      (q : Position F Db) (c : Bool)
      → Stays b q
      → Stays b (if c then with_trade x q (liquidated x q.trade) else q)
  liquidation-Keeps q c h = if_both (Stays b) c (with_trade x q (liquidated x q.trade)) q h h

  update_trade_after_fill-Keeps :
      (cancel : Position F Db → Act (Position F Db) (Position F Db)) (o : Order F) (send_msg : Bool)
      (p : Position F Db)
      → Harmless cancel
      → Stays b p
      → Keeps b (Stays b) (update_trade_after_fill x cancel o send_msg p)
  unfolding update_trade_after_fill
  update_trade_after_fill-Keeps cancel o send_msg p c h =
      if_both (Keeps b (Stays b)) (not (is_non_open o.status)) (ok p) _ h (
        Leaves-bind (Stays b) (Stays b) (Stays b)
          (if side_eq o.ft_order_side (entry_side p.trade)
            then after_entry x cancel send_msg p
            else ok p)
          _
          (if_both (Keeps b (Stays b)) (side_eq o.ft_order_side (entry_side p.trade)) _ (ok p)
            (after_entry-Keeps cancel send_msg p c h) h)
          λ q k.
            let due : Bool =
              side_eq o.ft_order_side (entry_side q.trade)
              || (lt zero q.trade.amount && q.trade.is_open) in
            let r : Position F Db = if due then with_trade x q (liquidated x q.trade) else q in
            let m = liquidation-Keeps q due k in
            if_both (Keeps b (Stays b)) (x.strategy.use_custom_stoploss && r.trade.is_open) _ (ok r)
              (custom_stoploss-Keeps r m) m)

  order_close_notify-Keeps :
      (o : Order F) (p : Position F Db) → Stays b p → Keeps b (Stays b) (order_close_notify x o p)
  unfolding order_close_notify
  order_close_notify-Keeps o p h =
      if_both (Keeps b (Stays b))
        (side_eq o.ft_order_side (exit_side p.trade) && not p.trade.is_open) _ (ok p)
        (Leaves-bind (Stays b) Any (Stays b)
          (within (λ (e : Error). other) p
            (handle_protections x.texts (x.trades p.trade) x.session x.ccxt x.clock x.handlers
              p.trade.pair (trade_direction p.trade) p.locks))
          _ (within-Keeps b (λ (e : Error). other) p _ h) (λ done u. h))
        h

  order_obj-Keeps :
      (p : Position F Db) (o : Option (Order F))
      → Stays b p
      → Keeps b Any (order_obj_or_raise x p o)
  order_obj-Keeps p none h = h
  order_obj-Keeps p (some o) h = tt

  with_fees-Keeps :
      (p : Position F Db) (r : Result (Exception × Trade F) (Trade F × Order F))
      → Stays b p
      → Keeps b Any (with_fees x p r)
  with_fees-Keeps p (ok (u, w)) h = tt
  with_fees-Keeps p (err (e, u)) h = h

  fee_handled-Keeps :
      (o : Order F) (order : CcxtOrder F) (p : Position F Db)
      → Stays b p
      → Keeps b Any (fee_handled x o order p)
  fee_handled-Keeps o order p h = with_fees-Keeps p (handle_order_fee x.fees p.trade o order) h

  follow_order-Keeps :
      (cancel : Position F Db → Act (Position F Db) (Position F Db)) (order_id : String)
      (order : CcxtOrder F) (send_msg : Bool) (p : Position F Db)
      → Harmless cancel
      → Stays b p
      → Keeps b (Stays b) (follow_order x cancel order_id order send_msg p)
  unfolding follow_order
  follow_order-Keeps cancel order_id order send_msg p c h =
      Leaves-bind (Stays b) Any (Stays b)
        (order_obj_or_raise x p (select_order_by_order_id p.trade order_id)) _
        (order_obj-Keeps p (select_order_by_order_id p.trade order_id) h)
        λ o u.
          Leaves-bind (Stays b) Any (Stays b) (fee_handled x o order p) _
            (fee_handled-Keeps o order p h)
            λ (t, w) v.
              Leaves-bind (Stays b) Any (Stays b)
                (within (λ (e : LedgerError). other) (with_trade x p t)
                  (update_trade x.pr x.d x.py w (not send_msg) x.clock t))
                _ (within-Keeps b (λ (e : LedgerError). other) (with_trade x p t) _ h)
                λ n l.
                  Leaves-bind (Stays b) (Stays b) (Stays b)
                    (update_trade_after_fill x cancel w send_msg (with_trade x p n)) _
                    (update_trade_after_fill-Keeps cancel w send_msg (with_trade x p n) c h)
                    (order_close_notify-Keeps w)

  if_valid-Keeps :
      (p : Position F Db) (r : Result Exception (CcxtOrder F))
      → Stays b p
      → Keeps b Any (if_valid x p r)
  if_valid-Keeps p (ok order) h = tt
  if_valid-Keeps p (err e) h =
      let none_found : Act (Position F Db) (Option (CcxtOrder F)) = ok none in
      if_both (Keeps b Any) (is_invalid_order e) none_found (err (e, p)) tt h

  order_of_exchange-Keeps :
      (order_id : String) (action_order : Option (CcxtOrder F)) (stoploss_order : Bool)
      (p : Position F Db)
      → Stays b p
      → Keeps b Any (order_of_exchange x order_id action_order stoploss_order p)
  unfolding order_of_exchange
  order_of_exchange-Keeps order_id (some order) stoploss_order p h = tt
  order_of_exchange-Keeps order_id none stoploss_order p h = if_valid-Keeps p _ h

  update_with-Keeps :
      (cancel : Position F Db → Act (Position F Db) (Position F Db)) (order_id : String)
      (order : CcxtOrder F) (send_msg : Bool) (p : Position F Db)
      → Harmless cancel
      → Stays b p
      → Keeps b (FlagStays b) (update_with x cancel order_id order send_msg p)
  unfolding update_with
  update_with-Keeps cancel order_id order send_msg p c h =
      Leaves-bind (Stays b) Any (FlagStays b)
        (within (λ (e : UpdateError). dependency) p (update_order x.clock order p.trade)) _
        (within-Keeps b (λ (e : UpdateError). dependency) p _ h)
        λ t u.
          if_both (Keeps b (FlagStays b)) (check_order_canceled_empty order)
            (ok (true, with_trade x p t)) _ h
            (Leaves-bind (Stays b) (Stays b) (FlagStays b)
              (follow_order x cancel order_id order send_msg (with_trade x p t)) _
              (follow_order-Keeps cancel order_id order send_msg (with_trade x p t) c h) (λ r k. k))

  update_if_found-Keeps :
      (cancel : Position F Db → Act (Position F Db) (Position F Db)) (order_id : String)
      (send_msg : Bool) (p : Position F Db) (found : Option (CcxtOrder F))
      → Harmless cancel
      → Stays b p
      → Keeps b (FlagStays b) (update_if_found x cancel order_id send_msg p found)
  update_if_found-Keeps cancel order_id send_msg p none c h = h
  update_if_found-Keeps cancel order_id send_msg p (some order) c h =
      update_with-Keeps cancel order_id order send_msg p c h

  update_trade_state_with-Keeps :
      (cancel : Position F Db → Act (Position F Db) (Position F Db)) (order_id : String)
      (action_order : Option (CcxtOrder F)) (stoploss_order send_msg : Bool) (p : Position F Db)
      → Harmless cancel
      → Stays b p
      → Keeps b
          (FlagStays b)
          (update_trade_state_with x cancel order_id action_order stoploss_order send_msg p)
  unfolding update_trade_state_with
  update_trade_state_with-Keeps cancel order_id action_order stoploss_order send_msg p c h =
      if_both (Keeps b (FlagStays b)) (str_eq order_id "") (ok (false, p)) _ h (
        Leaves-bind (Stays b) Any (FlagStays b)
          (order_of_exchange x order_id action_order stoploss_order p) _
          (order_of_exchange-Keeps order_id action_order stoploss_order p h)
          (λ found u. update_if_found-Keeps cancel order_id send_msg p found c h))

  unless_invalid-Keeps :
      (r : Act (Position F Db) (Bool × Position F Db))
      → Keeps b (FlagStays b) r
      → Keeps b (Stays b) (unless_invalid x r)
  unless_invalid-Keeps (ok (canceled, q)) h = h
  unless_invalid-Keeps (err (e, q)) h =
      if_both (Keeps b (Stays b)) (is_invalid_order e) (ok q) (err (e, q)) h h

  cancel_stoploss_order-Keeps :
      (oslo : Order F) (p : Position F Db)
      → Stays b p
      → Keeps b (Stays b) (cancel_stoploss_order x oslo p)
  unfolding cancel_stoploss_order update_stoploss_order
  cancel_stoploss_order-Keeps oslo p h = unless_invalid-Keeps _ (
      Leaves-bind (Stays b) Any (FlagStays b)
        (within (λ e. e) p
          (x.venue.cancel_stoploss_order_with_result oslo.order_id p.trade.pair p.trade.amount))
        _ (within-Keeps b (λ e. e) p _ h)
        λ co u.
          update_trade_state_with-Keeps (λ q. ok q) oslo.order_id (some co) true true p (λ q k. k)
            h)

  pub cancel_stoploss_orders-Keeps :
      (os : List (Order F)) (p : Position F Db)
      → Stays b p
      → Keeps b (Stays b) (cancel_stoploss_orders x os p)
  unfolding cancel_stoploss_orders
  cancel_stoploss_orders-Keeps [] p h = h
  cancel_stoploss_orders-Keeps (oslo ∷ rest) p h =
      Leaves-bind (Stays b) (Stays b) (Stays b) (cancel_stoploss_order x oslo p) _
        (cancel_stoploss_order-Keeps oslo p h) (λ q k. cancel_stoploss_orders-Keeps rest q k)

  -- Following an order keeps the trade in the database, or out of it, whether it raises or not.
  pub update_trade_state-Keeps :
      (order_id : String) (action_order : Option (CcxtOrder F)) (stoploss_order send_msg : Bool)
      (p : Position F Db)
      → Stays b p
      → Keeps b (FlagStays b) (update_trade_state x order_id action_order stoploss_order send_msg p)
  unfolding update_trade_state cancel_stoploss_on_exchange
  update_trade_state-Keeps order_id action_order stoploss_order send_msg p h =
      update_trade_state_with-Keeps (cancel_stoploss_on_exchange x) order_id action_order
        stoploss_order send_msg p (λ q k. cancel_stoploss_orders-Keeps (open_sl_orders q.trade) q k)
        h
