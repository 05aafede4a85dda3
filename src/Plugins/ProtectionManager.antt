-- ===== src/Plugins/ProtectionManager.antt =====
-- freqtrade/plugins/protectionmanager.py: the manager asks each protection in turn and turns its
-- answer into a pair lock. What was locked before a protection raises stays locked; the model
-- returns the exception alone.
pub mod InForce
pub mod PairInForce
use freqtrade_llm.Base.{
  ℕ, Bool, true, false, not, ◌&&◌, ◌||◌, Option, none, some, List, [], ◌∷◌, String, if◌then◌else◌,
  ltb, leb, is_some,
}
use freqtrade_llm.Base.Float.{Float}
use freqtrade_llm.Base.Result.{Result, ok, err, ◌>>=◌}
use freqtrade_llm.Exchange.Timeframe.{Ccxt, or_now}
use freqtrade_llm.Persistence.PairLock.{PairLock, Session}
use freqtrade_llm.Persistence.PairLocks.{PairLocks, lock_pair, is_global_lock, is_pair_locked}
use freqtrade_llm.Persistence.Trade.{Trade}
use freqtrade_llm.Persistence.Trade.Store.{BtTrades}
use freqtrade_llm.Plugins.Protections.{ProtectionReturn, ProtectionConfig, TimeOfDay, Error}
use freqtrade_llm.Plugins.Protections.Guards.{
  CooldownPeriod, StoplossGuard, LowProfitPairs, MaxDrawdown, Answer, cooldown_period,
  stoploss_guard, low_profit, max_drawdown,
}

pub data Protection (F : Type 0) : Type 0 where
  cooldown : CooldownPeriod → Protection F
  guard : StoplossGuard F → Protection F
  low_profit_pairs : LowProfitPairs F → Protection F
  drawdown : MaxDrawdown F → Protection F

-- The four `ConfigurationError`s of `validate_protections`, in the order of the checks.
pub data ConfigurationError : Type 0 where
  invalid_unlock_at two_stop_durations two_lookback_periods unlock_at_and_duration :
      ConfigurationError

-- `strptime(…, "%H:%M")` accepts the hours 0 to 23 and the minutes 0 to 59.
abbrev pub is_time : Option TimeOfDay → Bool
is_time none = true
is_time (some time) = ltb time.hour 24 && ltb time.minutes 60

module _ {F : Type 0} where
  unfoldable pub has_global_stop : Protection F → Bool
  has_global_stop (cooldown p) = false
  has_global_stop (guard p) = true
  has_global_stop (low_profit_pairs p) = false
  has_global_stop (drawdown p) = true

  unfoldable pub has_local_stop : Protection F → Bool
  has_local_stop (cooldown p) = true
  has_local_stop (guard p) = true
  has_local_stop (low_profit_pairs p) = true
  has_local_stop (drawdown p) = false

  unfoldable pub validate_protection : ProtectionConfig F → Option ConfigurationError
  validate_protection c =
      if not (is_time c.unlock_at)
      then some invalid_unlock_at
      else if is_some c.stop_duration && is_some c.stop_duration_candles
      then some two_stop_durations
      else if is_some c.lookback_period && is_some c.lookback_period_candles
      then some two_lookback_periods
      else if is_some c.unlock_at && (is_some c.stop_duration || is_some c.stop_duration_candles)
      then some unlock_at_and_duration
      else none

  -- The first error in the list is raised.
  unfoldable pub validate_protections : List (ProtectionConfig F) → Option ConfigurationError
  unfolding validate_protection
  validate_protections [] = none
  validate_protections (c ∷ cs) =
      let rest = validate_protections cs in
      elim (validate_protection c) [ none ↦ rest | some e ↦ some e ]

-- What `_reason` and `calculate_max_drawdown` compute: formatted texts, and the drawdown of the
-- trades, `none` where it raises `ValueError`.
pub record Texts (F : Type 0) : Type 0 where
  pub plain_reason : Protection F → String
  pub profit_reason : Protection F → F → String
  pub calculate_max_drawdown : List (Trade F) → Option F

module _ {F : Type 0} ⦃f : Float F⦄ (x : Texts F) (trades : BtTrades F) (date_now : ℕ) where
  -- The methods `global_stop` and `stop_per_pair` of the protections.
  unfoldable pub handler_global_stop : Protection F → String → Answer
  handler_global_stop (cooldown p) side = ok none
  handler_global_stop (guard p) side =
      if p.disable_global_stop
      then ok none
      else stoploss_guard trades date_now p (x.plain_reason (guard p)) none side
  handler_global_stop (low_profit_pairs p) side = ok none
  handler_global_stop (drawdown p) side =
      max_drawdown trades date_now x.calculate_max_drawdown p (x.profit_reason (drawdown p))

  unfoldable pub handler_stop_per_pair : Protection F → String → String → Answer
  handler_stop_per_pair (cooldown p) pair side =
      cooldown_period trades date_now p (x.plain_reason (cooldown p)) pair
  handler_stop_per_pair (guard p) pair side =
      stoploss_guard trades date_now p (x.plain_reason (guard p)) (some pair) side
  handler_stop_per_pair (low_profit_pairs p) pair side =
      low_profit trades date_now p (x.profit_reason (low_profit_pairs p)) pair side
  handler_stop_per_pair (drawdown p) pair side = ok none

-- The state of the loops: the last lock that was created, and the pair locks.
abbrev pub Loop : Type 0 → Type 0
Loop Db = Option PairLock × PairLocks Db

module _ {Db : Type 0} (session : Session Db) (c : Ccxt) (clock now : ℕ) where
  unfoldable pub lock_globally : Option ProtectionReturn → Loop Db → Loop Db
  lock_globally none (result, s) = (result, s)
  lock_globally (some lock) (result, s) =
      if not (is_global_lock session clock s (some lock.until) lock.lock_side)
      then (let (new, s') =
            lock_pair session c clock s "*" lock.until lock.reason (some now) lock.lock_side in
          (some new, s'))
      else (result, s)

  unfoldable pub lock_locally : String → Option ProtectionReturn → Loop Db → Loop Db
  lock_locally pair none (result, s) = (result, s)
  lock_locally pair (some lock) (result, s) =
      if not (is_pair_locked session clock s pair (some lock.until) lock.lock_side)
      then (let (new, s') =
            lock_pair session c clock s pair lock.until lock.reason (some now) lock.lock_side in
          (some new, s'))
      else (result, s)

module _ {F Db : Type 0} ⦃f : Float F⦄ (x : Texts F) (trades : BtTrades F) (session : Session Db)
    (c : Ccxt) (clock now : ℕ) where
  unfoldable pub global_stop_loop : List (Protection F) → String → Loop Db → Result Error (Loop Db)
  unfolding lock_globally
  global_stop_loop [] side l = ok l
  global_stop_loop (h ∷ hs) side l =
      let skip = global_stop_loop hs side l in
      if has_global_stop h
      then (handler_global_stop x trades now h side >>= λ lock.
          global_stop_loop hs side (lock_globally session c clock now lock l))
      else skip

  unfoldable pub global_stop : List (Protection F) → String → PairLocks Db → Result Error (Loop Db)
  unfolding global_stop_loop
  global_stop handlers side s = global_stop_loop handlers side (none, s)

  unfoldable pub stop_per_pair_loop :
      List (Protection F) → String → String → Loop Db → Result Error (Loop Db)
  unfolding lock_locally
  stop_per_pair_loop [] pair side l = ok l
  stop_per_pair_loop (h ∷ hs) pair side l =
      let skip = stop_per_pair_loop hs pair side l in
      if has_local_stop h
      then (handler_stop_per_pair x trades now h pair side >>= λ lock.
          stop_per_pair_loop hs pair side (lock_locally session c clock now pair lock l))
      else skip

  unfoldable pub stop_per_pair :
      List (Protection F) → String → String → PairLocks Db → Result Error (Loop Db)
  unfolding stop_per_pair_loop
  stop_per_pair handlers pair side s = stop_per_pair_loop handlers pair side (none, s)
