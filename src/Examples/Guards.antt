-- ===== src/Examples/Guards.antt =====
-- The theorems on the protections at concrete values: one trade of ETH/USDT, closed by its stop loss
-- fifteen minutes after the epoch.
use freqtrade_llm.Base.{ℕ, ◌≤◌, ◌<◌, false, none, some, List, [], ◌∷◌, length, All, ◌≡◌, arith}
use freqtrade_llm.Base.Result.{ok}
use freqtrade_llm.Persistence.PairLock.{PairLock}
use freqtrade_llm.Persistence.PairLocks.{PairLocks}
use freqtrade_llm.Persistence.Trade.Store.{BtTrades}
use freqtrade_llm.Plugins.Protections.{IProtection, close_key}
use freqtrade_llm.Plugins.Protections.Guards.{
  CooldownPeriod, StoplossGuard, stoploss_guard, lock_of,
}
use freqtrade_llm.Persistence.Trade.{Trade}
use freqtrade_llm.Plugins.Protections.Counting.{Picked, IsCounted}
use freqtrade_llm.Plugins.Protections.Rules.{stoploss_guard_cases}
use freqtrade_llm.Plugins.ProtectionManager.{Texts}
use freqtrade_llm.Examples.Setting.{whole}
use freqtrade_llm.Examples.Trades.{stopped_trade, no_trades}

abbrev protection : IProtection
protection = record {
  stop_duration_candles = none;
  stop_duration = 60;
  unlock_at = none;
  lookback_period_candles = none;
  lookback_period = 60;
}

abbrev pub pause : CooldownPeriod
pause = record { base = protection }

abbrev pub limit : StoplossGuard ℕ
limit = record {
  base = protection;
  trade_limit = 1;
  disable_global_stop = false;
  only_per_side = false;
  profit_limit = 3;
}

abbrev pub one_stopped : BtTrades ℕ
one_stopped = record no_trades { bt_trades = stopped_trade ∷ [] }

abbrev pub texts : Texts ℕ
texts = record {
  plain_reason = λ p. "reason";
  profit_reason = λ p x. "profit";
  calculate_max_drawdown = λ ts. none;
}

abbrev pub unlocked : PairLocks (List PairLock)
unlocked = record { use_db = false; locks = []; timeframe = "5m"; db = [] }

-- The time of the loop, and the end of the lock: an hour after the close, rounded up.
abbrev pub now : ℕ
now = 1_000_000_000

stoploss_guard_cases_example :
    (ts : List (Trade ℕ)) × Picked (IsCounted now limit none "long") one_stopped.bt_trades ts
    × (length ts < 1 → stoploss_guard one_stopped now limit "reason" none "long" ≡ ok none)
    × (1 ≤ length ts
        → (until : ℕ) × (stoploss_guard one_stopped now limit "reason" none "long"
            ≡ ok (some (lock_of until "reason" "*")))
          × All (λ t. close_key t ≤ until) ts)
stoploss_guard_cases_example =
    stoploss_guard_cases one_stopped now limit "reason" none "long" record {} (ground arith)
