-- ===== src/Strategy/Stoploss.antt =====
-- `ft_stoploss_adjust` and `ft_stoploss_reached` of freqtrade/strategy/interface.py. A trade is
-- changed by `adjust_stop_loss` alone: the callbacks of a strategy are taken to leave it as it is.
pub mod Hit
use freqtrade_llm.Base.{
  ℕ, Bool, true, false, not, ◌&&◌, ◌||◌, Option, none, some, if◌then◌else◌, is_some,
}
use freqtrade_llm.Base.Float.{Float, Precise, truthy, truthy?, or_else}
use freqtrade_llm.Exchange.Precision.{Decimals}
use freqtrade_llm.Persistence.Trade.{Trade}
use freqtrade_llm.Persistence.Trade.StopLoss.{adjust_stop_loss}
use freqtrade_llm.Strategy.{
  Strategy, Callbacks, ExitCheckTuple, exit_check, stop_loss, trailing_stop_loss, liquidation,
  none_exit,
}

-- The arguments that both methods share; `low` and `high` are given in backtesting only.
pub record Situation (F : Type 0) : Type 0 where
  pub current_rate : F
  pub current_time : ℕ
  pub current_profit : F
  pub force_stoploss : F
  pub low : Option F
  pub high : Option F

module _ {F P : Type 0} ⦃f : Float F⦄ (pr : Precise F P) (d : Decimals F) (s : Strategy F)
    (calls : Callbacks F) where
  open f use {lt, le}

  -- `low or current_rate` and `high or current_rate`
  abbrev pub low_or_rate : Situation F → F
  low_or_rate x = or_else x.low x.current_rate

  abbrev pub high_or_rate : Situation F → F
  high_or_rate x = or_else x.high x.current_rate

  unfoldable pub dir_correct : Trade F → Situation F → Bool
  dir_correct t x =
      if not t.is_short then lt t.stop_loss (low_or_rate x) else lt (high_or_rate x) t.stop_loss

  abbrev pub bound : Trade F → Situation F → Option F
  bound t x = if t.is_short then x.low else x.high

  unfoldable pub bound_profit : Trade F → Situation F → F
  bound_profit t x = elim (bound t x) [
    | none ↦ x.current_profit
    | some b ↦ if truthy b then calls.calc_profit_ratio t b else x.current_profit
  ]

  -- "Sanity check - error cases will return None"
  unfoldable pub valid_stoploss : Option F → Option F
  valid_stoploss none = none
  valid_stoploss (some x) = if truthy x && not (d.isnan x || d.isinf x) then some x else none

  -- `trade.adjust_stop_loss(bound or current_rate, …, allow_refresh=after_fill)`, if there is a value
  unfoldable pub apply_custom : Trade F → F → Bool → F → Option F → Trade F × F
  apply_custom t rate after_fill value none = (t, value)
  apply_custom t rate after_fill value (some v) =
      (adjust_stop_loss pr d t rate (some v) false after_fill, v)

  -- The trade and the stop loss value after the custom stop loss.
  unfoldable pub custom_step : Trade F → Situation F → Bool → Bool → F → Trade F × F
  unfolding bound_profit valid_stoploss apply_custom
  custom_step t x dir after_fill value =
      let rate = or_else (bound t x) x.current_rate in
      let profit = bound_profit t x in
      let custom = valid_stoploss (calls.custom_stoploss t x.current_time rate profit after_fill) in
      if s.use_custom_stoploss && dir
      then apply_custom t rate after_fill value custom
      else (t, value)

  -- `trailing_stop_positive` once the profit has passed the offset
  unfoldable pub trailing_value : F → F → F
  trailing_value profit value = elim s.trailing_stop_positive [
    | none ↦ value
    | some positive ↦ if lt s.trailing_stop_positive_offset profit then positive else value
  ]

  unfoldable pub trailing_step : Situation F → Bool → Option F → F → Trade F × F → Trade F
  unfolding trailing_value
  trailing_step x dir bound profit (t, value) =
      if s.trailing_stop && dir
      then (if not (s.trailing_only_offset_is_reached && lt profit s.trailing_stop_positive_offset)
          then adjust_stop_loss pr d t (or_else bound x.current_rate)
              (some (trailing_value profit value)) false false
          else t)
      else t

  unfoldable pub ft_stoploss_adjust : Trade F → Situation F → Bool → Trade F
  unfolding dir_correct bound_profit custom_step trailing_step
  ft_stoploss_adjust t x after_fill =
      let value = if truthy x.force_stoploss then x.force_stoploss else s.stoploss in
      let u = adjust_stop_loss pr d t t.open_rate (some value) true false in
      let dir = dir_correct u x in
      if after_fill && not s.ft_stop_uses_after_fill
      then t
      else trailing_step x dir (bound u x) (bound_profit u x) (custom_step u x dir after_fill value)

  abbrev pub liquidation_hit : Trade F → Situation F → Bool
  liquidation_hit t x = elim t.liquidation_price [
    | none ↦ false
    | some price ↦
        truthy price && (if t.is_short then le price (high_or_rate x) else le (low_or_rate x) price)
  ]

  abbrev pub stop_hit : Trade F → Situation F → Bool
  stop_hit t x =
      (le (low_or_rate x) t.stop_loss && not t.is_short)
      || (le t.stop_loss (high_or_rate x) && t.is_short)

  -- The decision, for the trade as `ft_stoploss_adjust` left it.
  unfoldable pub stoploss_flag : Trade F → Situation F → ExitCheckTuple
  unfolding exit_check
  stoploss_flag t x =
      if stop_hit t x && (not s.stoploss_on_exchange || s.dry_run)
      then exit_check (if t.is_stop_loss_trailing then trailing_stop_loss else stop_loss) ""
      else if liquidation_hit t x
      then exit_check liquidation ""
      else exit_check none_exit ""

  unfoldable pub ft_stoploss_reached : Trade F → Situation F → Trade F × ExitCheckTuple
  unfolding ft_stoploss_adjust stoploss_flag
  ft_stoploss_reached t x = let u = ft_stoploss_adjust t x false in (u, stoploss_flag u x)
