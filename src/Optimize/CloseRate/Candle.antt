-- ===== src/Optimize/CloseRate/Candle.antt =====
-- Where the rate of an exit lies in its candle, and how the entries of backtesting relate to those of
-- the live bot (freqtrade/optimize/backtesting.py).
use freqtrade_llm.Base.{ℕ, true, false, not, ◌&&◌, none, some, if◌then◌else◌, ◌≡◌, ◌⊎◌, arith}
use freqtrade_llm.Base.Float.{Float, OrderLaws}
use freqtrade_llm.Base.Float
use freqtrade_llm.Base.Result.{Result, ok, err}
use freqtrade_llm.Exchange.Precision.{Decimals}
use freqtrade_llm.Persistence.Trade.{Trade}
use freqtrade_llm.Strategy.{ExitType, Callbacks, Strategy}
use freqtrade_llm.Strategy.Signals.{long, Candle, entry_of, is_spot}
use freqtrade_llm.Optimize.CloseRate.{
  Row, RateError, opening_candle, zero_division, is_trailing, is_roi, check_for_trade_entry,
  roi_divisor, stoploss_value,
}

module _ {F : Type 0} ⦃f : Float F⦄ (laws : OrderLaws f) (d : Decimals F) (s : Strategy F)
    (calls : Callbacks F) where
  open f use {lt, le}

  -- Neither below the low nor above the high
  abbrev pub InCandle : Row F → F → Type 0
  InCandle row x = (lt x row.low ≡ false) × (lt row.high x ≡ false)

  -- The open rate lies in the candle, and the low is not above the high.
  abbrev pub IsCandle : Row F → Type 0
  IsCandle row = InCandle row row.open_ × (lt row.high row.low ≡ false)

  -- The candle has reached the stop loss, or liquidation price, of the trade.
  abbrev pub IsHit : Row F → Trade F → ExitType → Type 0
  IsHit row t exit =
      (if t.is_short
        then le (stoploss_value d s calls t exit) row.high
        else le row.low (stoploss_value d s calls t exit))
      ≡ true

  -- The two ways in which the rate of a ROI exit is not found
  abbrev pub Fails : Row F → Trade F → ℕ → Result RateError F → Type 0
  Fails row t trade_dur r =
      ((r ≡ err opening_candle) × (trade_dur ≡ 0))
      ⊎ ((r ≡ err zero_division) × (f.eq (roi_divisor d s calls t) f.zero ≡ true))

  abbrev pub Found : Row F → Trade F → ℕ → Result RateError F → Type 0
  Found row t trade_dur r = ((x : F) × (r ≡ ok x) × InCandle row x) ⊎ Fails row t trade_dur r

  -- A trailing stop loss on the candle of the entry, whose rate is bounded on the side that the trade
  -- loses on only
  abbrev pub AtEntry : Row F → Trade F → ExitType → ℕ → Result RateError F → Type 0
  AtEntry row t exit trade_dur r =
      (is_trailing exit ≡ true)
      × (trade_dur ≡ 0)
      × (x : F) × (r ≡ ok x)
      × ((if t.is_short then lt row.high x else lt x row.low) ≡ false)

  -- What the rate of an exit can be
  abbrev pub Priced : Row F → Trade F → ExitType → ℕ → Result RateError F → Type 0
  Priced row t exit trade_dur r =
      ((x : F) × (r ≡ ok x) × InCandle row x)
      ⊎ (((is_roi exit ≡ true) × Fails row t trade_dur r) ⊎ AtEntry row t exit trade_dur r)

abbrev pub to_candle : {F : Type 0} → Row F → Candle
to_candle row = record {
  date = row.date;
  enter_long = row.enter_long;
  exit_long = row.exit_long;
  enter_short = row.enter_short;
  exit_short = row.exit_short;
  enter_tag = none;
  exit_tag = none;
}

-- Backtesting takes the entries that the live bot takes, on a market and with a strategy that can go
-- short, and on every candle without a short entry. Where shorts are impossible, a candle that
-- signals a long and a short entry, and no long exit, is a long entry in backtesting, and none live.
pub check_for_trade_entry_cases :
    {F : Type 0} (s : Strategy F) (row : Row F)
    → let can_short = not (is_spot s.trading_mode) && s.can_short in
      (can_short ≡ true → check_for_trade_entry can_short row ≡ entry_of s (to_candle row))
      × (row.enter_short ≡ false → check_for_trade_entry can_short row ≡ entry_of s (to_candle row))
      × (can_short ≡ false
          → row.enter_long ≡ true
          → row.exit_long ≡ false
          → row.enter_short ≡ true
          → (check_for_trade_entry can_short row ≡ some long) × (entry_of s (to_candle row) ≡ none))
unfolding check_for_trade_entry entry_of
check_for_trade_entry_cases s row = (λ h. ground arith, λ h. ground arith, λ a b c e. ground arith)
