-- ===== src/Optimize/CloseRate.antt =====
-- The prices of class Backtesting in freqtrade/optimize/backtesting.py: whether an order is filled in
-- a candle, the rate of an exit, and the signal and the slot for an entry.
pub mod Candle
use freqtrade_llm.Base.{
  ℕ, suc, ◌%◌, Bool, true, false, not, ◌&&◌, ◌||◌, Option, none, some, List, if◌then◌else◌, ltb,
  leb, ◌==◌, is_some,
}
use freqtrade_llm.Base.Float.{Float, truthy?, truthy, or_else}
use freqtrade_llm.Base.Float
use freqtrade_llm.Base.Result.{Result, ok, err}
use freqtrade_llm.Exchange.Precision.{Decimals}
use freqtrade_llm.Persistence.Trade.{Trade}
use freqtrade_llm.Strategy.{
  ExitType, roi, stop_loss, stoploss_on_exchange, trailing_stop_loss, liquidation, exit_signal,
  force_exit, emergency_exit, custom_exit, partial_exit, sold_on_exchange, none_exit, Callbacks,
  Strategy,
}
use freqtrade_llm.Strategy.Roi.{min_roi_reached_entry}
use freqtrade_llm.Strategy.Signals.{SignalDirection, long, short}

-- A row of the candles, with the signals as Booleans (`row[LONG_IDX] == 1`).
pub record Row (F : Type 0) : Type 0 where
  pub date : ℕ
  pub open_ : F
  pub high : F
  pub low : F
  pub close : F
  pub enter_long : Bool
  pub exit_long : Bool
  pub enter_short : Bool
  pub exit_short : Bool

-- "Opening candle ROI on red candles.", and a division by 0
pub data RateError : Type 0 where
  opening_candle zero_division : RateError

abbrev pub is_stop_exit : ExitType → Bool
is_stop_exit stop_loss = true
is_stop_exit trailing_stop_loss = true
is_stop_exit liquidation = true
is_stop_exit _ = false

abbrev pub is_trailing : ExitType → Bool
is_trailing trailing_stop_loss = true
is_trailing _ = false

abbrev pub is_liquidation : ExitType → Bool
is_liquidation liquidation = true
is_liquidation _ = false

abbrev pub is_roi : ExitType → Bool
is_roi roi = true
is_roi _ = false

-- `can_short` is `self._can_short`.
unfoldable pub check_for_trade_entry : {F : Type 0} → Bool → Row F → Option SignalDirection
check_for_trade_entry can_short row =
    let enter_short = can_short && row.enter_short in
    let exit_short = can_short && row.exit_short in
    if row.enter_long && not (row.exit_long || enter_short)
    then some long
    else if enter_short && not (exit_short || row.enter_long)
    then some short
    else none

-- The answer and the number of rejected trades. The configuration's -1 is taken as 0 by the test, so
-- `max_open_trades` is 0 here where it is not positive, and `none` where it is infinite.
unfoldable pub trade_slot_available : Option ℕ → ℕ → ℕ → Bool × ℕ
trade_slot_available none open_trade_count rejected_trades = (true, rejected_trades)
trade_slot_available (some max_open_trades) open_trade_count rejected_trades =
    if leb max_open_trades 0 || ltb open_trade_count max_open_trades
    then (true, rejected_trades)
    else (false, suc rejected_trades)

module _ {F : Type 0} ⦃f : Float F⦄ (d : Decimals F) (s : Strategy F) (calls : Callbacks F) where
  open f use {zero as zero_, one, add, sub, mul, div, neg, abs, lt, le, eq}

  unfoldable pub get_order_filled : F → Row F → Bool
  get_order_filled rate row = le row.low rate && le rate row.high

  -- `side_1`
  abbrev pub side : Trade F → F
  side t = if t.is_short then neg one else one

  abbrev pub leverage : Trade F → F
  leverage t = if truthy t.leverage then t.leverage else one

  unfoldable pub stoploss_value : Trade F → ExitType → F
  stoploss_value t exit =
      if is_liquidation exit && truthy? t.liquidation_price
      then or_else t.liquidation_price t.stop_loss
      else t.stop_loss

  -- A trailing stop loss that is hit on the entry candle: the rate that it was armed at, less the
  -- trailing distance
  unfoldable pub stop_rate : Row F → Trade F → F
  stop_rate row t =
      if not s.use_custom_stoploss
        && s.trailing_stop
        && s.trailing_only_offset_is_reached
        && truthy? s.trailing_stop_positive
      then mul row.open_ (
          sub (add one (mul (side t) (abs s.trailing_stop_positive_offset)))
            (mul (side t) (abs (div (or_else s.trailing_stop_positive zero_) (leverage t)))))
      else mul row.open_
          (sub one (mul (side t) (abs (div (or_else t.stop_loss_pct zero_) (leverage t)))))

  abbrev pub out_of_reach : Row F → Trade F → ExitType → Bool
  out_of_reach row t exit =
      if t.is_short then lt (stoploss_value t exit) row.low else lt row.high (stoploss_value t exit)

  unfoldable pub get_close_rate_for_stoploss : Row F → Trade F → ExitType → ℕ → F
  get_close_rate_for_stoploss row t exit trade_dur =
      if out_of_reach row t exit
      then row.open_
      else if is_trailing exit && trade_dur == 0
      then (if t.is_short
          then Float.min row.high (stop_rate row t)
          else Float.max row.low (stop_rate row t))
      else stoploss_value t exit

  -- The rate at which a ROI is reached
  unfoldable pub roi_close_rate : Trade F → F → F
  roi_close_rate t r =
      div
        (neg (
          add (div (mul t.open_rate r) (leverage t))
            (mul (mul (side t) t.open_rate) (add one (mul (side t) t.fee_open)))))
        (sub (or_else t.fee_close zero_) (mul (side t) one))

  abbrev pub roi_divisor : Trade F → F
  roi_divisor t = sub (or_else t.fee_close zero_) (mul (side t) one)

  -- The opening candle of the trade moves against it.
  unfoldable pub opening_against : Row F → Trade F → F → Bool
  opening_against row t close_rate =
      (t.is_short && lt row.open_ row.close && lt row.open_ t.open_rate && lt close_rate row.close)
      || (not t.is_short
          && lt row.close row.open_
          && lt t.open_rate row.open_
          && lt row.close close_rate)

  -- The rate for a ROI entry and its value; `timeframe_min` is positive.
  unfoldable pub roi_rate : Row F → Trade F → ℕ → ℕ → ℕ → F → Result RateError F
  roi_rate row t timeframe_min trade_dur roi_entry r =
      let close_rate = roi_close_rate t r in
      let is_new_roi = if t.is_short then lt row.open_ close_rate else lt close_rate row.open_ in
      if eq r (neg one) && (roi_entry % timeframe_min) == 0
      then ok row.open_
      else if eq (roi_divisor t) zero_
      then err zero_division
      else if ltb 0 trade_dur
          && trade_dur == roi_entry
          && (roi_entry % timeframe_min) == 0
          && is_new_roi
      then ok row.open_
      else if trade_dur == 0 && opening_against row t close_rate
      then err opening_candle
      else ok (Float.min (Float.max close_rate row.low) row.high)

  unfoldable pub get_close_rate_for_roi : Row F → Trade F → ℕ → ℕ → ℕ → Result RateError F
  get_close_rate_for_roi row t timeframe_min current_time trade_dur =
      elim (min_roi_reached_entry d s calls t trade_dur current_time) [
        | none ↦ ok row.open_
        | some (roi_entry, r) ↦ roi_rate row t timeframe_min trade_dur roi_entry r
      ]

  unfoldable pub get_close_rate : Row F → Trade F → ℕ → ℕ → ExitType → ℕ → Result RateError F
  get_close_rate row t timeframe_min current_time exit trade_dur =
      if is_stop_exit exit
      then ok (get_close_rate_for_stoploss row t exit trade_dur)
      else if is_roi exit
      then get_close_rate_for_roi row t timeframe_min current_time trade_dur
      else ok row.open_
