-- ===== src/Optimize/Orders.antt =====
-- The open orders of a trade in a backtest: class Backtesting in freqtrade/optimize/backtesting.py,
-- with `ft_check_timed_out` of freqtrade/strategy/interface.py. Every order of a backtest has one
-- side, `side` and `ft_order_side`. Orders are told apart by their `order_id`.
pub mod Cancelling
pub mod Remaining
use freqtrade_llm.Base.{
  ℕ, suc, ◌+◌, Bool, true, false, not, ◌&&◌, ◌||◌, Option, none, some, List, [], ◌∷◌, String,
  str_eq, if◌then◌else◌, ltb, ◌==◌, select,
}
use freqtrade_llm.Base.Float.{Float, truthy}
use freqtrade_llm.Base.Result.{Result, ok, err, ◌>>=◌}
use freqtrade_llm.Persistence.Order.{Order, OrderSide, side_eq, safe_remaining}
use freqtrade_llm.Persistence.Trade.{
  Trade, entry_side, exit_side, has_open_orders, nr_of_successful_entries, select_order,
}

-- A trade, and the counters of a backtest
pub record Book (F : Type 0) : Type 0 where
  pub trade : Trade F
  pub timedout_entry_orders : ℕ
  pub timedout_exit_orders : ℕ
  pub canceled_trade_entries : ℕ
  pub canceled_entry_orders : ℕ
  pub canceled_exit_orders : ℕ
  pub replaced_entry_orders : ℕ
  pub replaced_exit_orders : ℕ

-- `config["unfilledtimeout"]`, as durations, and the callbacks of the strategy, where they return
pub record Timeouts (F : Type 0) : Type 0 where
  pub entry : Option ℕ
  pub exit : Option ℕ
  pub check_entry_timeout : Trade F → Order F → ℕ → Bool
  pub check_exit_timeout : Trade F → Order F → ℕ → Bool

-- `ValueError`: an order that is to be deleted is not in the list.
pub data ValueError : Type 0 where
  not_in_list : ValueError

-- `adjust_order_price` of the strategy, and the methods that place an order: `_enter_trade` with a
-- rate and a stake, `_exit_trade` with a rate and an amount
pub record Placing (F : Type 0) : Type 0 where
  pub adjust_order_price : Trade F → Order F → ℕ → Option F
  pub enter_trade : F → F → Book F → Result ValueError (Book F)
  pub exit_trade : F → F → Book F → Result ValueError (Book F)

-- `del orders[orders.index(order)]`
unfoldable pub delete_order :
    {F : Type 0} → String → List (Order F) → Result ValueError (List (Order F))
delete_order id [] = err not_in_list
delete_order id (o ∷ os) =
    let rest = delete_order id os in
    if str_eq o.order_id id then ok os else (rest >>= λ r. ok (o ∷ r))

module _ {F : Type 0} ⦃f : Float F⦄ where
  open f use {eq, mul, div}

  unfoldable pub ft_check_timed_out : Timeouts F → Trade F → Order F → ℕ → Bool
  unfolding entry_side exit_side
  ft_check_timed_out s t o current_time =
      let timeout = if side_eq o.ft_order_side (entry_side t) then s.entry else s.exit in
      let is_open : Bool = elim o.status [ none ↦ false | some x ↦ str_eq x "open" ] in
      let timedout : Bool = elim timeout [
        | none ↦ false
        | some d ↦ is_open && ltb (o.order_date + d) current_time
      ] in
      if timedout
      then true
      else if side_eq o.ft_order_side (exit_side t)
      then s.check_exit_timeout t o current_time
      else s.check_entry_timeout t o current_time

  unfoldable pub delete_from : Order F → Book F → Result ValueError (Book F)
  unfolding delete_order
  delete_from o b = delete_order o.order_id b.trade.orders >>= λ orders.
      ok record b { trade = record (b.trade) { orders = orders } }

  unfoldable pub count_canceled : Order F → Book F → Book F
  count_canceled o b =
      let is_entry = side_eq o.ft_order_side (entry_side b.trade) in
      let is_exit = side_eq o.ft_order_side (exit_side b.trade) in
      record b {
        canceled_entry_orders =
            if is_entry then suc b.canceled_entry_orders else b.canceled_entry_orders;
        canceled_exit_orders =
            if not is_entry && is_exit then suc b.canceled_exit_orders else b.canceled_exit_orders;
      }

  unfoldable pub cancel_all : List (Order F) → Book F → Result ValueError (Book F)
  unfolding delete_from count_canceled
  cancel_all [] b = ok b
  cancel_all (o ∷ os) b = delete_from o (count_canceled o b) >>= cancel_all os

  unfoldable pub cancel_open_orders : Book F → Result ValueError (Book F)
  unfolding cancel_all
  cancel_open_orders b = cancel_all (select (λ o. o.ft_is_open) b.trade.orders) b

  -- Whether an open order has this price and this amount
  abbrev pub is_similar : F → F → Option (Order F) → Bool
  is_similar price amount none = false
  is_similar price amount (some o) =
      elim o.price [ none ↦ false | some p ↦ eq price p ]
      && elim o.amount [ none ↦ false | some x ↦ eq amount x ]

  unfoldable pub handle_similar_order :
      F → F → OrderSide → Book F → Result ValueError (Bool × Book F)
  unfolding cancel_open_orders
  handle_similar_order price amount side b =
      if has_open_orders b.trade
      then (if is_similar price amount (select_order b.trade (some side) (some true) false)
          then ok (true, b)
          else (cancel_open_orders b >>= λ u. ok (false, u)))
      else ok (false, b)

  unfoldable pub is_unfilled : Trade F → Bool
  is_unfilled t = nr_of_successful_entries t == 0

  -- `some true`: the trade is to be deleted. `some false`: the order was cancelled. `none`: it is
  -- still active.
  unfoldable pub check_order_cancel :
      Timeouts F → Order F → ℕ → Book F → Result ValueError (Option Bool × Book F)
  unfolding ft_check_timed_out delete_from is_unfilled
  check_order_cancel s o current_time b =
      let entry : Book F = record b { timedout_entry_orders = suc b.timedout_entry_orders } in
      let exit : Book F = record b { timedout_exit_orders = suc b.timedout_exit_orders } in
      if ft_check_timed_out s b.trade o current_time
      then (if side_eq o.ft_order_side (entry_side b.trade)
          then (if is_unfilled b.trade
              then ok (some true, entry)
              else (delete_from o entry >>= λ u. ok (some false, u)))
          else if side_eq o.ft_order_side (exit_side b.trade)
          then (delete_from o exit >>= λ u. ok (some false, u))
          else ok (none, b))
      else ok (none, b)

  -- Whether a new rate is asked for, or none
  abbrev pub is_same_rate : Order F → Option F → Bool
  is_same_rate o none = false
  is_same_rate o (some rate) = eq rate o.ft_price

  unfoldable pub after_placing : Bool → Book F → Bool × Book F
  unfolding is_unfilled
  after_placing is_entry b =
      let u : Book F =
        if is_entry
        then record b { replaced_entry_orders = suc b.replaced_entry_orders }
        else record b { replaced_exit_orders = suc b.replaced_exit_orders } in
      (not (has_open_orders u.trade) && is_entry && is_unfilled u.trade, u)

  -- The part of `check_order_replace` after the old order was deleted
  unfoldable pub place_again :
      Placing F → Order F → Bool → Option F → Book F → Result ValueError (Bool × Book F)
  unfolding after_placing is_unfilled
  place_again s o is_entry none b = ok (is_unfilled b.trade, b)
  place_again s o is_entry (some rate) b =
      let placed : Result ValueError (Book F) =
        if is_entry
        then s.enter_trade rate (div (mul (safe_remaining o) o.ft_price) b.trade.leverage) b
        else s.exit_trade rate (safe_remaining o) b in
      if truthy rate
      then (placed >>= λ u. ok (after_placing is_entry u))
      else ok (is_unfilled b.trade, b)

  -- The old order is cancelled.
  unfoldable pub count_replaced : Bool → Book F → Book F
  count_replaced is_entry b =
      if is_entry
      then record b { canceled_entry_orders = suc b.canceled_entry_orders }
      else record b { canceled_exit_orders = suc b.canceled_exit_orders }

  unfoldable pub check_order_replace :
      Placing F → Order F → ℕ → Book F → Result ValueError (Bool × Book F)
  unfolding delete_from count_replaced place_again
  check_order_replace s o current_time b =
      let is_entry = side_eq o.ft_order_side (entry_side b.trade) in
      let requested_rate = s.adjust_order_price b.trade o current_time in
      if ltb o.order_date current_time
      then (if is_same_rate o requested_rate
          then ok (false, b)
          else (delete_from o b >>= λ u.
              place_again s o is_entry requested_rate (count_replaced is_entry u)))
      else ok (false, b)

  -- What follows the two checks of an order, where `next` manages the other orders
  unfoldable pub manage_next :
      (Book F → Result ValueError (Bool × Book F))
      → Option Bool
      → Result ValueError (Bool × Book F)
      → Book F
      → Result ValueError (Bool × Book F)
  manage_next next (some true) replaced b = ok (true, b)
  manage_next next (some false) replaced b = next b
  manage_next next none replaced b = replaced >>= λ (delete, u).
      if delete
      then ok (true, record u { canceled_trade_entries = suc u.canceled_trade_entries })
      else next u

  unfoldable pub manage_orders :
      Timeouts F → Placing F → ℕ → List (Order F) → Book F → Result ValueError (Bool × Book F)
  unfolding check_order_cancel check_order_replace manage_next
  manage_orders s p current_time [] b = ok (false, b)
  manage_orders s p current_time (o ∷ os) b = check_order_cancel s o current_time b >>= λ (oc, u).
      manage_next (manage_orders s p current_time os) oc (check_order_replace p o current_time u) u

  -- Whether the trade is to be deleted
  unfoldable pub manage_open_orders :
      Timeouts F → Placing F → ℕ → Book F → Result ValueError (Bool × Book F)
  unfolding manage_orders
  manage_open_orders s p current_time b =
      manage_orders s p current_time (select (λ o. o.ft_is_open) b.trade.orders) b
