-- ===== src/Persistence/Order/Updating.antt =====
-- How an order follows the exchange: `update_from_ccxt_object`, `parse_from_ccxt_object` and
-- `update_orders` of class Order in freqtrade/persistence/trade_model.py.
use freqtrade_llm.Base.{
  ℕ, true, not, Option, none, some, List, [], ◌∷◌, str_eq, if◌then◌else◌, ◌==◌,
}
use freqtrade_llm.Base.Float.{Float, or_else}
use freqtrade_llm.Base.Result.{Result, ok, err, ◌>>=◌}
use freqtrade_llm.Exchange.Timeframe.{dt_from_ts, dt_ts}
use freqtrade_llm.Exchange.Fees.{CcxtOrder}
use freqtrade_llm.Persistence.Order.{Order, OrderSide, is_non_open}

-- `DependencyException`
pub data UpdateError : Type 0 where
  ids_differ : UpdateError

-- `safe_value_fallback(order, key, default_value=value)`
abbrev pub fallback : {A : Type 0} → Option A → Option A → Option A
fallback none value = value
fallback (some a) value = some a

-- A time of ccxt, in milliseconds; 0 counts as none.
unfoldable pub order_date_of : Option ℕ → ℕ → ℕ
order_date_of none date = date
order_date_of (some timestamp) date = if timestamp == 0 then date else dt_from_ts timestamp

module _ {F : Type 0} ⦃f : Float F⦄ where
  open f use {zero, lt}

  -- The date at which the order was filled, set once
  unfoldable pub filled_date : ℕ → CcxtOrder F → Option ℕ → Option ℕ
  unfolding dt_from_ts dt_ts
  filled_date clock order (some date) = some date
  filled_date clock order none =
      if lt zero (or_else order.filled zero)
      then some (dt_from_ts (elim order.last_trade_timestamp [ none ↦ dt_ts clock | some ts ↦ ts ]))
      else none

  -- The fields that are read from the answer, where it has them; it has a side.
  unfoldable pub with_answer : ℕ → CcxtOrder F → Order F → Order F
  unfolding filled_date order_date_of
  with_answer clock order o =
      let status = fallback order.status o.status in
      record o {
        status = status;
        side = some order.side;
        price = fallback order.price o.price;
        amount = fallback order.amount o.amount;
        filled = fallback order.filled o.filled;
        average = fallback order.average o.average;
        remaining = fallback order.remaining o.remaining;
        cost = fallback order.cost o.cost;
        stop_price = fallback order.stop_price o.stop_price;
        order_date = order_date_of order.timestamp o.order_date;
        ft_is_open = not (is_non_open status);
        order_filled_date =
            if is_non_open status
            then filled_date clock order o.order_filled_date
            else o.order_filled_date;
      }

  unfoldable pub update_from_ccxt_object : ℕ → CcxtOrder F → Order F → Result UpdateError (Order F)
  unfolding with_answer
  update_from_ccxt_object clock order o =
      if str_eq o.order_id order.id then ok (with_answer clock order o) else err ids_differ

  -- A new order. Its id is that of the answer, so the update does not raise. A price that is missing
  -- everywhere is 0.
  unfoldable pub parse_from_ccxt_object : ℕ → CcxtOrder F → OrderSide → F → F → Order F
  unfolding with_answer
  parse_from_ccxt_object clock order side amount price = with_answer clock order (record {
    order_id = order.id;
    ft_order_side = side;
    side = none;
    ft_is_open = true;
    ft_amount = or_else (some amount) (or_else order.amount zero);
    ft_price = or_else (some price) (elim order.price [ none ↦ zero | some p ↦ p ]);
    status = none;
    price = none;
    average = none;
    amount = none;
    filled = none;
    remaining = none;
    cost = none;
    stop_price = none;
    order_date = clock;
    order_filled_date = none;
    funding_fee = none;
    ft_fee_base = none;
  })

  -- The first order of that id is updated.
  unfoldable pub update_orders :
      ℕ → CcxtOrder F → List (Order F) → Result UpdateError (List (Order F))
  unfolding update_from_ccxt_object
  update_orders clock order [] = ok []
  update_orders clock order (o ∷ os) =
      let rest = update_orders clock order os in
      if str_eq o.order_id order.id
      then (update_from_ccxt_object clock order o >>= λ u. ok (u ∷ os))
      else (rest >>= λ us. ok (o ∷ us))
