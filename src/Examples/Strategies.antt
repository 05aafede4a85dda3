-- ===== src/Examples/Strategies.antt =====
-- The theorems on strategies at concrete values.
use freqtrade_llm.Base.{ℕ, true, false, none, some, [], ◌∷◌, any, last?, select, ◌≡◌, refl}
use freqtrade_llm.Persistence.Trade.{spot}
use freqtrade_llm.Persistence.Trade.StopLoss.Ratchet.{Tightens}
use freqtrade_llm.Exchange.Timeframe.{timeframe_to_seconds}
use freqtrade_llm.Strategy.{Callbacks, Strategy, flag}
use freqtrade_llm.Strategy.Roi.{min_roi_reached}
use freqtrade_llm.Strategy.Stoploss.{Situation, ft_stoploss_reached}
use freqtrade_llm.Strategy.Stoploss.Hit.{ft_stoploss_reached-Tightens}
use freqtrade_llm.Strategy.Exit.{Request, should_exit}
use freqtrade_llm.Strategy.Exit.Order.{Rises, is_stop, should_exit-Rises}
use freqtrade_llm.Strategy.Exit.Crossing.{IsStoppedOut, should_exit_stops}
use freqtrade_llm.Strategy.Signals.{
  Candle, Signals, long, get_latest_candle, get_entry_signal, ignore_expired_candle,
  get_entry_signal_iff,
}
use freqtrade_llm.Examples.Setting.{whole, whole-OrderLaws, exact, digits, five_minutes}
use freqtrade_llm.Examples.Trades.{long_trade}

abbrev pub callbacks : Callbacks ℕ
callbacks = record {
  custom_stoploss = λ t now rate profit after_fill. some 1;
  custom_exit = λ t now rate profit. flag;
  custom_roi = λ t now duration. some 2;
  calc_profit_ratio = λ t rate. 4;
}

abbrev pub strategy : Strategy ℕ
strategy = record {
  stoploss = 0;
  trailing_stop = true;
  trailing_stop_positive = none;
  trailing_stop_positive_offset = 0;
  trailing_only_offset_is_reached = false;
  use_custom_stoploss = true;
  ft_stop_uses_after_fill = false;
  use_exit_signal = true;
  exit_profit_only = false;
  exit_profit_offset = 0;
  ignore_roi_if_entry_signal = false;
  minimal_roi = (0, 3) ∷ (60, 1) ∷ [];
  use_custom_roi = true;
  stoploss_on_exchange = false;
  dry_run = true;
  can_short = false;
  trading_mode = spot;
  ignore_buying_expired_candle_after = 0;
  outdated_offset = 5;
}

abbrev falling : Situation ℕ
falling = record {
  current_rate = 80;
  current_time = 2000;
  current_profit = 0;
  force_stoploss = 0;
  low = none;
  high = none;
}

abbrev question : Request ℕ
question = record {
  rate = 80;
  current_time = 2000;
  enter = false;
  exit_ = true;
  low = none;
  high = none;
  force_stoploss = 0;
}

abbrev candle : Candle
candle = record {
  date = 900_000_000;
  enter_long = true;
  exit_long = false;
  enter_short = false;
  exit_short = false;
  enter_tag = none;
  exit_tag = none;
}

table_reached :
    min_roi_reached digits (record strategy { use_custom_roi = false }) callbacks long_trade 4 2000
    ≡ true
unfolding min_roi_reached
table_reached = refl

ft_stoploss_reached-Tightens_example :
    Tightens exact digits long_trade
      (ft_stoploss_reached exact digits strategy callbacks long_trade falling).0
ft_stoploss_reached-Tightens_example =
    ft_stoploss_reached-Tightens exact digits strategy callbacks whole-OrderLaws long_trade falling
      refl

should_exit-Rises_example :
    Rises 0 (should_exit exact digits strategy callbacks long_trade question).1
    × Tightens exact digits long_trade
        (should_exit exact digits strategy callbacks long_trade question).0
should_exit-Rises_example =
    should_exit-Rises exact digits strategy callbacks whole-OrderLaws long_trade question refl

should_exit_stops_example :
    let (u, es) = should_exit exact digits strategy callbacks long_trade question in
    (any is_stop es ≡ true → IsStoppedOut question strategy u)
    × (IsStoppedOut question strategy u → any is_stop es ≡ true)
should_exit_stops_example = should_exit_stops exact digits strategy callbacks long_trade question

fresh_candle :
    get_latest_candle five_minutes strategy 1_000_000_000 "5m" (candle ∷ []) ≡ some candle
unfolding get_latest_candle last? select
fresh_candle = refl

get_entry_signal_iff_example :
    let (signal, tag) = get_entry_signal five_minutes strategy 1_000_000_000 "5m" (candle ∷ []) in
    let expired =
      ignore_expired_candle strategy 900_000_000 1_000_000_000
        (timeframe_to_seconds five_minutes "5m")
        true in
    (signal ≡ some long → Signals strategy candle long × (expired ≡ false))
    × (Signals strategy candle long → expired ≡ false → signal ≡ some long)
get_entry_signal_iff_example =
    get_entry_signal_iff five_minutes strategy 1_000_000_000 "5m" (candle ∷ []) long candle
      fresh_candle
