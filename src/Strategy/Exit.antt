-- ===== src/Strategy/Exit.antt =====
-- `should_exit` of freqtrade/strategy/interface.py.
pub mod Order
pub mod Crossing
use Prim.Native.Char.{Char}
use freqtrade_llm.Base.{
  ℕ, zero, suc, Bool, true, false, not, ◌&&◌, ◌||◌, Option, none, some, List, [], ◌∷◌, ◌++◌, String,
  str_eq, if◌then◌else◌, is_some,
}
use freqtrade_llm.Base.Float.{Float, Precise, truthy, truthy?, or_else}
use freqtrade_llm.Exchange.Precision.{Decimals}
use freqtrade_llm.Persistence.Trade.{Trade, adjust_min_max_rates}
use freqtrade_llm.Strategy.{
  Strategy, Callbacks, CustomExit, nothing, flag, text, ExitType, ExitCheckTuple, exit_check, roi,
  stop_loss, trailing_stop_loss, liquidation, exit_signal, custom_exit, none_exit,
}
use freqtrade_llm.Strategy.Roi.{min_roi_reached}
use freqtrade_llm.Strategy.Stoploss.{Situation, ft_stoploss_reached}

-- `reason[:n]`
unfoldable pub take_text : ℕ → String → String
take_text zero s = ""
take_text (suc n) String.[] = ""
take_text (suc n) (String.◌∷◌ c s) = String.◌∷◌ c (take_text n s)

abbrev pub custom_tag_max_length : ℕ
custom_tag_max_length = 255

-- The exit type and the reason that `custom_exit` leads to.
unfoldable pub custom_reason : CustomExit → ExitType × String
unfolding take_text
custom_reason nothing = (none_exit, "")
custom_reason flag = (custom_exit, "")
custom_reason (text reason) =
    if str_eq reason ""
    then (none_exit, "")
    else (custom_exit, take_text custom_tag_max_length reason)

abbrev pub is_custom : ExitType → Bool
is_custom custom_exit = true
is_custom _ = false

abbrev pub is_signal : ExitType → Bool
is_signal exit_signal = true
is_signal _ = false

-- `exit_type in (ExitType.STOP_LOSS, ExitType.LIQUIDATION)`
abbrev pub is_hard_stop : ExitType → Bool
is_hard_stop stop_loss = true
is_hard_stop liquidation = true
is_hard_stop _ = false

abbrev pub is_trailing_stop : ExitType → Bool
is_trailing_stop trailing_stop_loss = true
is_trailing_stop _ = false

-- `if test: exits.append(entry)`
abbrev pub when : Bool → ExitCheckTuple → List ExitCheckTuple
when true entry = entry ∷ []
when false entry = []

-- The keyword arguments of `should_exit`.
pub record Request (F : Type 0) : Type 0 where
  pub rate : F
  pub current_time : ℕ
  pub enter : Bool
  pub exit_ : Bool
  pub low : Option F
  pub high : Option F
  pub force_stoploss : F

module _ {F P : Type 0} ⦃f : Float F⦄ (pr : Precise F P) (d : Decimals F) (s : Strategy F)
    (calls : Callbacks F) where
  open f use {lt}

  abbrev pub profit_best : Trade F → Request F → F
  profit_best t r =
      if is_some r.low || is_some r.high
      then calls.calc_profit_ratio t (or_else (if t.is_short then r.low else r.high) r.rate)
      else calls.calc_profit_ratio t r.rate

  unfoldable pub signal_and_reason : Trade F → Request F → F → ExitType × String
  unfolding custom_reason
  signal_and_reason t r profit =
      if s.use_exit_signal
      then (if r.exit_ && not r.enter
          then (exit_signal, "")
          else custom_reason (calls.custom_exit t r.current_time r.rate profit))
      else (none_exit, "")

  unfoldable pub wants_signal_exit : ExitType → F → Bool
  wants_signal_exit signal profit =
      is_custom signal
      || (is_signal signal && (not s.exit_profit_only || lt s.exit_profit_offset profit))

  -- The exits in the order of the source: signal, stop loss, ROI, trailing stop loss.
  unfoldable pub exits : ExitType × String → F → ExitCheckTuple → Bool → List ExitCheckTuple
  unfolding wants_signal_exit exit_check
  exits (signal, reason) profit stop roi_reached =
      when (wants_signal_exit signal profit) (exit_check signal reason)
      ++ (when (is_hard_stop stop.exit_type) stop
          ++ (when roi_reached (exit_check roi "") ++ when (is_trailing_stop stop.exit_type) stop))

  abbrev pub situation : Request F → F → Situation F
  situation r profit = record {
    current_rate = r.rate;
    current_time = r.current_time;
    current_profit = profit;
    force_stoploss = r.force_stoploss;
    low = r.low;
    high = r.high;
  }

  -- "if enter signal and ignore_roi is set, we don't need to evaluate min_roi."
  unfoldable pub roi_reached : Trade F → Request F → F → Bool
  unfolding min_roi_reached
  roi_reached t r best =
      not (r.enter && s.ignore_roi_if_entry_signal)
      && min_roi_reached d s calls t best r.current_time

  -- The trade as the call leaves it, and the exits.
  unfoldable pub should_exit : Trade F → Request F → Trade F × List ExitCheckTuple
  unfolding adjust_min_max_rates ft_stoploss_reached roi_reached signal_and_reason exits
  should_exit t r =
      let profit = calls.calc_profit_ratio t r.rate in
      let best = profit_best t r in
      let t1 = adjust_min_max_rates t (or_else r.high r.rate) (or_else r.low r.rate) in
      let (t2, stop) = ft_stoploss_reached pr d s calls t1 (situation r profit) in
      (t2, exits (signal_and_reason t2 r profit) profit stop (roi_reached t2 r best))
