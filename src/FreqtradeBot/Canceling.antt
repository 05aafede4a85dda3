-- ===== src/FreqtradeBot/Canceling.antt =====
-- freqtrade/freqtradebot.py: how an open order is canceled, and what becomes of its trade. The text
-- `ft_cancel_reason` of the order, which log lines and messages read, is left out.
pub mod Deletion
use freqtrade_llm.Base.{
  ℕ, zero, suc, Bool, true, false, not, ◌&&◌, ◌||◌, Option, none, some, List, [], ◌∷◌, String,
  str_eq, if◌then◌else◌, ltb, leb, ◌==◌, select, length,
}
use freqtrade_llm.Base.Float.{Float, truthy, truthy?, or_else}
use freqtrade_llm.Base.Result.{Result, ok, err, ◌>>=◌}
use freqtrade_llm.Exchange.Fees.{CcxtOrder}
use freqtrade_llm.Persistence.Order.{Order, OrderSide, side_eq, is_non_open}
use freqtrade_llm.Persistence.Trade.{
  Trade, entry_side, exit_side, open_orders, nr_of_successful_entries, canceled_exit_order_count,
}
use freqtrade_llm.FreqtradeBot.{
  Exception, other, is_dependency, is_invalid_order, is_exchange_error,
}
use freqtrade_llm.FreqtradeBot.Orders.{Position, Parts, Act, Venue, within, with_trade}
use freqtrade_llm.FreqtradeBot.Orders.Following.{update_trade_state}

abbrev pub is_status : String → Option String → Bool
is_status name none = false
is_status name (some status) = str_eq status name

module _ {F P Db : Type 0} ⦃f : Float F⦄ (x : Parts F P Db) where
  -- While the order is replaced, it is fetched again, at most as often as the number says.
  unfoldable pub refetch :
      ℕ → Position F Db → Order F → CcxtOrder F → Act (Position F Db) (CcxtOrder F)
  refetch zero p o corder = ok corder
  refetch (suc n) p o corder =
      let again : Act (Position F Db) (CcxtOrder F) =
        within (λ e. e) p (x.venue.fetch_order n o.order_id p.trade.pair) >>= λ found.
        refetch n p o found in
      if is_non_open corder.status then ok corder else again

module _ {F P Db : Type 0} ⦃f : Float F⦄ (x : Parts F P Db) where
  open f use {zero, add, sub, mul, div, lt}

  abbrev pub filled_val : CcxtOrder F → F
  filled_val order = or_else order.filled zero

  abbrev pub minstake : Trade F → Option F
  minstake t = x.venue.get_min_pair_stake_amount t.pair t.open_rate x.strategy.stoploss

  abbrev pub below_minimum : Option F → F → Bool
  below_minimum none stake = false
  below_minimum (some m) stake = truthy m && lt stake m

  -- The order as it is known after the cancellation, or `none` where it is not canceled
  unfoldable pub canceled_order :
      CcxtOrder F → Order F → Bool → Position F Db → Act (Position F Db) (Option (CcxtOrder F))
  unfolding refetch
  canceled_order order o replacing p =
      let t = p.trade in
      let filled = filled_val order in
      let canceled : Act (Position F Db) (Option (CcxtOrder F)) =
        within (λ e. e) p (x.venue.cancel_order_with_result o.order_id t.pair t.amount) >>= λ first.
        (if replacing then refetch x 3 p o first else ok first) >>= λ corder.
        ok (if is_non_open corder.status then some corder else none) in
      if is_non_open order.status
      then ok (some order)
      else if lt zero filled && below_minimum (minstake t) (mul filled t.open_rate)
      then ok none
      else canceled

  unfoldable pub other_open_orders : Trade F → String → ℕ
  other_open_orders t order_id =
      length (select (λ o. o.ft_is_open && not (str_eq o.order_id order_id)) t.orders)

  abbrev pub filled_amount : CcxtOrder F → CcxtOrder F → Option F
  filled_amount corder order = elim corder.filled [ none ↦ order.filled | some a ↦ some a ]

  -- Whether nothing was filled; `isclose` of `None` raises.
  unfoldable pub nothing_filled : Position F Db → Option F → Act (Position F Db) Bool
  nothing_filled p none = err (other, p)
  nothing_filled p (some a) = ok (x.fees.isclose a zero)

  -- The trade is deleted with its only order, if that is not replaced.
  unfoldable pub deletes : String → Bool → Trade F → Bool
  unfolding other_open_orders
  deletes order_id replacing t =
      ltb (other_open_orders t order_id) 1 && (nr_of_successful_entries t == 0) && not replacing

  abbrev pub deleted : Position F Db → Position F Db
  deleted p = record p { in_database = false }

  unfoldable pub finish_cancel_enter :
      CcxtOrder F
      → Order F
      → Bool
      → Position F Db
      → CcxtOrder F
      → Act (Position F Db) (Bool × Position F Db)
  unfolding nothing_filled deletes
  finish_cancel_enter order o replacing p corder =
      let followed : Act (Position F Db) (Bool × Position F Db) =
        update_trade_state x o.order_id (some corder) false true p in
      nothing_filled p (filled_amount corder order) >>= λ empty.
      if empty && deletes o.order_id replacing p.trade
      then ok (true, deleted p)
      else (followed >>= λ (flag, q). ok (empty, q))

  abbrev pub finish_if_canceled :
      CcxtOrder F
      → Order F
      → Bool
      → Position F Db
      → Option (CcxtOrder F)
      → Act (Position F Db) (Bool × Position F Db)
  finish_if_canceled order o replacing p none = ok (false, p)
  finish_if_canceled order o replacing p (some corder) =
      finish_cancel_enter order o replacing p corder

  -- The flag says that the trade was fully canceled.
  unfoldable pub handle_cancel_enter :
      CcxtOrder F → Order F → Bool → Position F Db → Act (Position F Db) (Bool × Position F Db)
  unfolding canceled_order finish_cancel_enter
  handle_cancel_enter order o replacing p =
      canceled_order order o replacing p >>= λ corder. finish_if_canceled order o replacing p corder

  abbrev pub without_close_rate : Position F Db → Position F Db
  without_close_rate p =
      with_trade x p (record p.trade { close_rate = none; close_rate_requested = none })

  abbrev pub finish_cancel_exit :
      Bool → CcxtOrder F → Position F Db → Act (Position F Db) (Bool × Position F Db)
  finish_cancel_exit cancelled order p =
      update_trade_state x order.id (some order) false true p >>= λ (flag, q).
      ok (cancelled, without_close_rate q)

  abbrev pub without_exit_reason : Position F Db → Position F Db
  without_exit_reason p = with_trade x p (record p.trade { exit_reason = none })

  -- The exit order is canceled on the exchange. The reason is cleared for the message of a fill, and
  -- stays where the order was filled instead. An `InvalidOrderException` gives up.
  abbrev pub exit_canceled :
      Position F Db → Result Exception (CcxtOrder F) → Act (Position F Db) (Bool × Position F Db)
  exit_canceled p (err e) = if is_invalid_order e then ok (false, p) else err (e, p)
  exit_canceled p (ok corder) = finish_cancel_exit true corder (
      if is_status "canceled" corder.status || is_status "cancelled" corder.status
      then without_exit_reason p
      else p)

  unfoldable pub cancel_exit :
      CcxtOrder F → Position F Db → Act (Position F Db) (Bool × Position F Db)
  cancel_exit order p =
      exit_canceled p (x.venue.cancel_order_with_result order.id p.trade.pair p.trade.amount)

  -- The flag says that the order was canceled here.
  unfoldable pub handle_cancel_exit :
      CcxtOrder F → Position F Db → Act (Position F Db) (Bool × Position F Db)
  unfolding cancel_exit
  handle_cancel_exit order p =
      let t = p.trade in
      let filled = filled_val order in
      let remaining_stake = sub t.stake_amount (div (mul filled t.open_rate) t.leverage) in
      if is_non_open order.status
      then finish_cancel_exit false order (without_exit_reason p)
      else if lt zero filled && below_minimum (minstake t) remaining_stake
      then ok (false, p)
      else cancel_exit order p

  -- `cancel_open_orders_of_trade`: an order that cannot be fetched is passed over.
  unfoldable pub cancel_fetched :
      (OrderSide → Bool)
      → Bool
      → Order F
      → CcxtOrder F
      → Position F Db
      → Act (Position F Db) (Position F Db)
  unfolding handle_cancel_enter handle_cancel_exit
  cancel_fetched sides replacing o order p =
      if not (sides order.side)
      then ok p
      else if side_eq order.side (entry_side p.trade)
      then (handle_cancel_enter order o replacing p >>= λ (flag, q). ok q)
      else if side_eq order.side (exit_side p.trade)
      then (handle_cancel_exit order p >>= λ (flag, q). ok q)
      else ok p

  abbrev pub if_fetched :
      (CcxtOrder F → Act (Position F Db) (Position F Db))
      → Position F Db
      → Result Exception (CcxtOrder F)
      → Act (Position F Db) (Position F Db)
  if_fetched handle p (ok order) = handle order
  if_fetched handle p (err e) = if is_exchange_error e then ok p else err (e, p)

  unfoldable pub cancel_open_orders :
      (OrderSide → Bool)
      → Bool
      → List (Order F)
      → Position F Db
      → Act (Position F Db) (Position F Db)
  unfolding cancel_fetched
  cancel_open_orders sides replacing [] p = ok p
  cancel_open_orders sides replacing (o ∷ os) p =
      if_fetched (λ order. cancel_fetched sides replacing o order p) p
        (x.venue.fetch_order 0 o.order_id p.trade.pair)
      >>= λ q. cancel_open_orders sides replacing os q

  unfoldable pub cancel_open_orders_of_trade :
      (OrderSide → Bool) → Bool → Position F Db → Act (Position F Db) (Position F Db)
  unfolding cancel_open_orders
  cancel_open_orders_of_trade sides replacing p =
      cancel_open_orders sides replacing (open_orders p.trade) p
