-- ===== src/FreqtradeBot/Exiting/Staying.antt =====
-- The trade in the database when freqtrade/freqtradebot.py cancels its open orders for an exit.
use freqtrade_llm.Base.{
  ℕ, zero, suc, ◌≡◌, Bool, true, false, not, ◌&&◌, ◌||◌, Option, none, some, List, [], ◌∷◌, String,
  if◌then◌else◌, arith, if_both,
}
use freqtrade_llm.Base.Float.{Float}
use freqtrade_llm.Base.Result.{Leaves-bind, Result, ok, err, ◌>>=◌}
use freqtrade_llm.Exchange.Fees.{CcxtOrder}
use freqtrade_llm.Persistence.Order.{Order, OrderSide, stoploss, side_eq, is_non_open}
use freqtrade_llm.Persistence.Trade.{
  Trade, entry_side, exit_side, open_orders, has_open_orders, select_order,
}
use freqtrade_llm.FreqtradeBot.{Exception, is_exchange_error, is_invalid_order}
use freqtrade_llm.FreqtradeBot.Canceling.{
  refetch, canceled_order, filled_val, minstake, below_minimum, filled_amount, nothing_filled,
  deletes, finish_cancel_enter, finish_if_canceled, handle_cancel_enter, finish_cancel_exit,
  without_exit_reason, cancel_exit, exit_canceled, if_fetched, handle_cancel_exit, cancel_fetched,
  cancel_open_orders, cancel_open_orders_of_trade, is_status,
}
use freqtrade_llm.FreqtradeBot.Exiting.{
  ExitDesk, is_similar, not_stoploss, handle_similar_open_order, unless_exchange_error,
  refind_order, handle_insufficient_funds,
}
use freqtrade_llm.FreqtradeBot.Orders.{Position, Parts, Act, within}
use freqtrade_llm.FreqtradeBot.Orders.Following.{update_trade_state}
use freqtrade_llm.FreqtradeBot.Orders.Keeping.{
  Any, Keeps, Stays, FlagStays, within-Keeps, update_trade_state-Keeps,
}

module _ {F P Db : Type 0} ⦃f : Float F⦄ (x : Parts F P Db) (b : Bool) where
  open f use {lt, mul, sub, div}

  refetch-Keeps :
      (n : ℕ) (p : Position F Db) (o : Order F) (corder : CcxtOrder F)
      → Stays b p
      → Keeps b Any (refetch x n p o corder)
  unfolding refetch
  refetch-Keeps zero p o corder h = tt
  refetch-Keeps (suc n) p o corder h =
      let known : Act (Position F Db) (CcxtOrder F) = ok corder in
      if_both (Keeps b Any) (is_non_open corder.status) known _ tt (
        Leaves-bind (Stays b) Any Any
          (within (λ e. e) p (x.venue.fetch_order n o.order_id p.trade.pair)) _
          (within-Keeps b (λ e. e) p _ h) (λ found u. refetch-Keeps n p o found h))

  canceled_order-Keeps :
      (order : CcxtOrder F) (o : Order F) (replacing : Bool) (p : Position F Db)
      → Stays b p
      → Keeps b Any (canceled_order x order o replacing p)
  unfolding canceled_order
  canceled_order-Keeps order o replacing p h =
      let known : Act (Position F Db) (Option (CcxtOrder F)) = ok (some order) in
      let refused : Act (Position F Db) (Option (CcxtOrder F)) = ok none in
      if_both (Keeps b Any) (is_non_open order.status) known _ tt (
        if_both (Keeps b Any)
          (lt f.zero (filled_val x order)
            && below_minimum x (minstake x p.trade) (mul (filled_val x order) p.trade.open_rate))
          refused _ tt
          (Leaves-bind (Stays b) Any Any
            (within (λ e. e) p
              (x.venue.cancel_order_with_result o.order_id p.trade.pair p.trade.amount))
            _ (within-Keeps b (λ e. e) p _ h)
            λ first u.
              Leaves-bind (Stays b) Any Any (if replacing then refetch x 3 p o first else ok first)
                _
                (if_both (Keeps b Any) replacing (refetch x 3 p o first) (ok first)
                  (refetch-Keeps 3 p o first h) tt)
                (λ corder v. tt)))

  nothing_filled-Keeps :
      (p : Position F Db) (o : Option F) → Stays b p → Keeps b Any (nothing_filled x p o)
  unfolding nothing_filled
  nothing_filled-Keeps p none h = h
  nothing_filled-Keeps p (some a) h = tt

  replaced-not_deleted :
      (order_id : String) (t : Trade F) (empty : Bool)
      → (empty && deletes x order_id true t) ≡ false
  unfolding deletes
  replaced-not_deleted order_id t empty = ground arith

  finish_if_canceled-Keeps :
      (order : CcxtOrder F) (o : Order F) (p : Position F Db) (corder : Option (CcxtOrder F))
      → Stays b p
      → Keeps b (FlagStays b) (finish_if_canceled x order o true p corder)
  unfolding finish_cancel_enter
  finish_if_canceled-Keeps order o p none h = h
  finish_if_canceled-Keeps order o p (some corder) h =
      Leaves-bind (Stays b) Any (FlagStays b) (nothing_filled x p (filled_amount x corder order)) _
        (nothing_filled-Keeps p (filled_amount x corder order) h)
        λ empty u. rw (replaced-not_deleted o.order_id p.trade empty) (
          Leaves-bind (Stays b) (FlagStays b) (FlagStays b)
            (update_trade_state x o.order_id (some corder) false true p) _
            (update_trade_state-Keeps x b o.order_id (some corder) false true p h)
            (λ (flag, q) k. k))

  handle_cancel_enter-Keeps :
      (order : CcxtOrder F) (o : Order F) (p : Position F Db)
      → Stays b p
      → Keeps b (FlagStays b) (handle_cancel_enter x order o true p)
  unfolding handle_cancel_enter
  handle_cancel_enter-Keeps order o p h =
      Leaves-bind (Stays b) Any (FlagStays b) (canceled_order x order o true p) _
        (canceled_order-Keeps order o true p h)
        (λ corder u. finish_if_canceled-Keeps order o p corder h)

  finish_cancel_exit-Keeps :
      (cancelled : Bool) (order : CcxtOrder F) (p : Position F Db)
      → Stays b p
      → Keeps b (FlagStays b) (finish_cancel_exit x cancelled order p)
  finish_cancel_exit-Keeps cancelled order p h =
      Leaves-bind (Stays b) (FlagStays b) (FlagStays b)
        (update_trade_state x order.id (some order) false true p) _
        (update_trade_state-Keeps x b order.id (some order) false true p h) (λ (flag, q) k. k)

  exit_canceled-Keeps :
      (p : Position F Db) (r : Result Exception (CcxtOrder F))
      → Stays b p
      → Keeps b (FlagStays b) (exit_canceled x p r)
  exit_canceled-Keeps p (err e) h =
      if_both (Keeps b (FlagStays b)) (is_invalid_order e) (ok (false, p)) (err (e, p)) h h
  exit_canceled-Keeps p (ok corder) h =
      let cleared : Bool =
        is_status "canceled" corder.status || is_status "cancelled" corder.status in
      finish_cancel_exit-Keeps true corder (if cleared then without_exit_reason x p else p)
        (if_both (Stays b) cleared (without_exit_reason x p) p h h)

  handle_cancel_exit-Keeps :
      (order : CcxtOrder F) (p : Position F Db)
      → Stays b p
      → Keeps b (FlagStays b) (handle_cancel_exit x order p)
  unfolding handle_cancel_exit cancel_exit
  handle_cancel_exit-Keeps order p h =
      let t = p.trade in
      let filled = filled_val x order in
      let left = sub t.stake_amount (div (mul filled t.open_rate) t.leverage) in
      if_both (Keeps b (FlagStays b)) (is_non_open order.status) _ _
        (finish_cancel_exit-Keeps false order (without_exit_reason x p) h)
        (if_both (Keeps b (FlagStays b)) (lt f.zero filled && below_minimum x (minstake x t) left)
          (ok (false, p)) _ h
          (exit_canceled-Keeps p
            (x.venue.cancel_order_with_result order.id p.trade.pair p.trade.amount) h))

  forget_flag :
      (r : Act (Position F Db) (Bool × Position F Db))
      → Keeps b (FlagStays b) r
      → Keeps b (Stays b) (r >>= λ (flag, q). ok q)
  forget_flag r h = Leaves-bind (Stays b) (FlagStays b) (Stays b) r _ h (λ (flag, q) k. k)

  cancel_fetched-Keeps :
      (sides : OrderSide → Bool) (o : Order F) (order : CcxtOrder F) (p : Position F Db)
      → Stays b p
      → Keeps b (Stays b) (cancel_fetched x sides true o order p)
  unfolding cancel_fetched
  cancel_fetched-Keeps sides o order p h =
      if_both (Keeps b (Stays b)) (not (sides order.side)) (ok p) _ h (
        if_both (Keeps b (Stays b)) (side_eq order.side (entry_side p.trade)) _ _
          (forget_flag (handle_cancel_enter x order o true p)
            (handle_cancel_enter-Keeps order o p h))
          (if_both (Keeps b (Stays b)) (side_eq order.side (exit_side p.trade)) _ (ok p)
            (forget_flag (handle_cancel_exit x order p) (handle_cancel_exit-Keeps order p h)) h))

  if_fetched-Keeps :
      (handle : CcxtOrder F → Act (Position F Db) (Position F Db)) (p : Position F Db)
      (r : Result Exception (CcxtOrder F))
      → Stays b p
      → ((order : CcxtOrder F) → Keeps b (Stays b) (handle order))
      → Keeps b (Stays b) (if_fetched x handle p r)
  if_fetched-Keeps handle p (ok order) h k = k order
  if_fetched-Keeps handle p (err e) h k =
      if_both (Keeps b (Stays b)) (is_exchange_error e) (ok p) (err (e, p)) h h

  cancel_open_orders-Keeps :
      (sides : OrderSide → Bool) (os : List (Order F)) (p : Position F Db)
      → Stays b p
      → Keeps b (Stays b) (cancel_open_orders x sides true os p)
  unfolding cancel_open_orders
  cancel_open_orders-Keeps sides [] p h = h
  cancel_open_orders-Keeps sides (o ∷ os) p h =
      Leaves-bind (Stays b) (Stays b) (Stays b)
        (if_fetched x (λ order. cancel_fetched x sides true o order p) p
          (x.venue.fetch_order 0 o.order_id p.trade.pair))
        _
        (if_fetched-Keeps (λ order. cancel_fetched x sides true o order p) p
          (x.venue.fetch_order 0 o.order_id p.trade.pair) h
          (λ order. cancel_fetched-Keeps sides o order p h))
        (λ q k. cancel_open_orders-Keeps sides os q k)

module _ {F P Db : Type 0} ⦃f : Float F⦄ (x : Parts F P Db) (y : ExitDesk F) (b : Bool) where
  pub handle_similar_open_order-Keeps :
      (price amount : F) (side : OrderSide) (p : Position F Db)
      → Stays b p
      → Keeps b (FlagStays b) (handle_similar_open_order x y price amount side p)
  unfolding handle_similar_open_order cancel_open_orders_of_trade
  handle_similar_open_order-Keeps price amount side p h =
      if_both (Keeps b (FlagStays b)) (not (has_open_orders p.trade)) (ok (false, p)) _ h (
        if_both (Keeps b (FlagStays b))
          (is_similar x y price amount side (select_order p.trade (some side) (some true) false))
          (ok (true, p)) _ h
          (Leaves-bind (Stays b) (Stays b) (FlagStays b)
            (cancel_open_orders x not_stoploss true (open_orders p.trade) p) _
            (cancel_open_orders-Keeps x b not_stoploss (open_orders p.trade) p h) (λ q k. k)))

  unless_exchange_error-Keeps :
      (r : Act (Position F Db) (Bool × Position F Db))
      → Keeps b (FlagStays b) r
      → Keeps b (Stays b) (unless_exchange_error x y r)
  unless_exchange_error-Keeps (ok (flag, q)) h = h
  unless_exchange_error-Keeps (err (e, q)) h =
      if_both (Keeps b (Stays b)) (is_exchange_error e) (ok q) (err (e, q)) h h

  pub handle_insufficient_funds-Keeps :
      (os : List (Order F)) (p : Position F Db)
      → Stays b p
      → Keeps b (Stays b) (handle_insufficient_funds x y os p)
  unfolding handle_insufficient_funds refind_order
  handle_insufficient_funds-Keeps [] p h = h
  handle_insufficient_funds-Keeps (o ∷ os) p h =
      let is_stoploss = side_eq o.ft_order_side stoploss in
      Leaves-bind (Stays b) (Stays b) (Stays b) (refind_order x y o p) _
        (if_both (Keeps b (Stays b)) o.ft_is_open _ (ok p)
          (unless_exchange_error-Keeps _ (
            Leaves-bind (Stays b) Any (FlagStays b)
              (within (λ e. e) p
                (x.venue.fetch_order_or_stoploss_order o.order_id p.trade.pair is_stoploss))
              _ (within-Keeps b (λ e. e) p _ h)
              (λ found u.
                update_trade_state-Keeps x b o.order_id (some found) is_stoploss true p h)))
          h)
        (λ q k. handle_insufficient_funds-Keeps os q k)
