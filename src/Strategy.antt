-- ===== src/Strategy.antt =====
-- The class `IStrategy` of freqtrade/strategy/interface.py: the attributes that decide about entries
-- and exits, and the types of freqtrade/enums that these decisions use.
pub mod Roi
pub mod Stoploss
pub mod Exit
pub mod Signals
use freqtrade_llm.Base.{
  ℕ, suc, zero, Bool, true, false, Option, none, some, List, String, str_eq, if◌then◌else◌,
}
use freqtrade_llm.Base.Float.{Float}
use freqtrade_llm.Persistence.Trade.{Trade, TradingMode}

pub data ExitType : Type 0 where
  roi stop_loss stoploss_on_exchange trailing_stop_loss liquidation exit_signal : ExitType
  force_exit emergency_exit custom_exit partial_exit sold_on_exchange none_exit : ExitType

-- `ExitType.value`
unfoldable pub value : ExitType → String
value roi = "roi"
value stop_loss = "stop_loss"
value stoploss_on_exchange = "stoploss_on_exchange"
value trailing_stop_loss = "trailing_stop_loss"
value liquidation = "liquidation"
value exit_signal = "exit_signal"
value force_exit = "force_exit"
value emergency_exit = "emergency_exit"
value custom_exit = "custom_exit"
value partial_exit = "partial_exit"
value sold_on_exchange = "sold_on_exchange"
value none_exit = ""

pub record ExitCheckTuple : Type 0 where
  pub exit_type : ExitType
  pub exit_reason : String

-- `ExitCheckTuple(exit_type, exit_reason)`: an empty reason becomes the value of the type.
unfoldable pub exit_check : ExitType → String → ExitCheckTuple
unfolding value
exit_check t reason = record {
  exit_type = t;
  exit_reason = if str_eq reason "" then value t else reason;
}

-- What `custom_exit` returns: a text, another value that is true, or a value that is false.
pub data CustomExit : Type 0 where
  nothing flag : CustomExit
  text : String → CustomExit

-- The methods that a user's strategy overrides, behind `strategy_safe_wrapper`: `none` stands for
-- `None`, which is also the default that the wrapper returns when the method raises.
pub record Callbacks (F : Type 0) : Type 0 where
  -- trade, current_time, current_rate, current_profit, after_fill
  pub custom_stoploss : Trade F → ℕ → F → F → Bool → Option F
  -- trade, current_time, current_rate, current_profit
  pub custom_exit : Trade F → ℕ → F → F → CustomExit
  -- trade, current_time, trade_duration
  pub custom_roi : Trade F → ℕ → ℕ → Option F
  -- the trade's own `calc_profit_ratio` at a rate, modelled in Persistence/Trade/Profit, where it
  -- does not raise
  pub calc_profit_ratio : Trade F → F → F

pub record Strategy (F : Type 0) : Type 0 where
  pub stoploss : F
  pub trailing_stop : Bool
  pub trailing_stop_positive : Option F
  pub trailing_stop_positive_offset : F
  pub trailing_only_offset_is_reached : Bool
  pub use_custom_stoploss : Bool
  pub ft_stop_uses_after_fill : Bool
  pub use_exit_signal : Bool
  pub exit_profit_only : Bool
  pub exit_profit_offset : F
  pub ignore_roi_if_entry_signal : Bool
  pub minimal_roi : List (ℕ × F)
  pub use_custom_roi : Bool
  -- `order_types["stoploss_on_exchange"]` and `config["dry_run"]`
  pub stoploss_on_exchange : Bool
  pub dry_run : Bool
  pub can_short : Bool
  pub trading_mode : TradingMode
  pub ignore_buying_expired_candle_after : ℕ
  pub outdated_offset : ℕ
