-- ===== src/Plugins/Protections/Guards.antt =====
-- The four protections of freqtrade/plugins/protections: cooldown_period.py, stoploss_guard.py,
-- low_profit_pairs.py and max_drawdown_protection.py.
use freqtrade_llm.Base.{
  ℕ, ◌-◌, ◌*◌, Bool, true, false, not, ◌&&◌, ◌||◌, Option, none, some, List, [], ◌∷◌, map, String,
  str_eq, if◌then◌else◌, ltb, select, length,
}
use freqtrade_llm.Base.Float.{Float, truthy?}
use freqtrade_llm.Base.Float
use freqtrade_llm.Base.Result.{Result, ok, ◌>>=◌}
use freqtrade_llm.Persistence.Trade.{Trade, trade_direction}
use freqtrade_llm.Persistence.Trade.Store.{BtTrades, get_trades_proxy}
use freqtrade_llm.Plugins.Protections.{
  ProtectionConfig, IProtection, ProtectionReturn, Error, minute, get_or, init, latest,
  calculate_lock_end,
}

-- The classes, with the attributes that each adds.
pub record CooldownPeriod : Type 0 where
  pub base : IProtection

pub record StoplossGuard (F : Type 0) : Type 0 where
  pub base : IProtection
  pub trade_limit : ℕ
  pub disable_global_stop : Bool
  pub only_per_side : Bool
  pub profit_limit : F

pub record LowProfitPairs (F : Type 0) : Type 0 where
  pub base : IProtection
  pub trade_limit : ℕ
  pub required_profit : F
  pub only_per_side : Bool

pub record MaxDrawdown (F : Type 0) : Type 0 where
  pub base : IProtection
  pub trade_limit : ℕ
  pub max_allowed_drawdown : F

module _ {F : Type 0} ⦃f : Float F⦄ (c : ProtectionConfig F) (tf_in_min : ℕ) where
  unfoldable pub init_cooldown_period : CooldownPeriod
  unfolding init
  init_cooldown_period = record { base = init c tf_in_min }

  unfoldable pub init_stoploss_guard : StoplossGuard F
  unfolding init
  init_stoploss_guard = record {
    base = init c tf_in_min;
    trade_limit = get_or c.trade_limit 10;
    disable_global_stop = get_or c.only_per_pair false;
    only_per_side = get_or c.only_per_side false;
    profit_limit = get_or c.required_profit f.zero;
  }

  unfoldable pub init_low_profit_pairs : LowProfitPairs F
  unfolding init
  init_low_profit_pairs = record {
    base = init c tf_in_min;
    trade_limit = get_or c.trade_limit 1;
    required_profit = get_or c.required_profit f.zero;
    only_per_side = get_or c.only_per_side false;
  }

  unfoldable pub init_max_drawdown : MaxDrawdown F
  unfolding init
  init_max_drawdown = record {
    base = init c tf_in_min;
    trade_limit = get_or c.trade_limit 1;
    max_allowed_drawdown = get_or c.max_allowed_drawdown f.zero;
  }

-- `str(trade.exit_reason)` is one of the four values of `ExitType`.
unfoldable pub is_stoploss_reason : Option String → Bool
is_stoploss_reason none = false
is_stoploss_reason (some r) =
    str_eq r "trailing_stop_loss"
    || str_eq r "stop_loss"
    || str_eq r "stoploss_on_exchange"
    || str_eq r "liquidation"

abbrev pub lock_of : ℕ → String → String → ProtectionReturn
lock_of until reason side = record {
  lock = true;
  until = until;
  reason = some reason;
  lock_side = side;
}

-- What a protection answers: it raises, or returns a lock or `None`.
abbrev pub Answer : Type 0
Answer = Result Error (Option ProtectionReturn)

module _ {F : Type 0} ⦃f : Float F⦄ (s : BtTrades F) (date_now : ℕ) where
  -- `get_trades_proxy(pair=…, is_open=False, close_date=date_now - lookback)`
  unfoldable pub recent_trades : IProtection → Option String → List (Trade F)
  unfolding get_trades_proxy
  recent_trades p pair =
      get_trades_proxy s pair (some false) none (some (date_now - p.lookback_period * minute))

  -- `reason` is the text of `_reason`.
  unfoldable pub cooldown_period : CooldownPeriod → String → String → Answer
  unfolding recent_trades latest calculate_lock_end
  cooldown_period p reason pair = elim (latest (recent_trades p.base (some pair))) [
    | none ↦ ok none
    | some trade ↦
        calculate_lock_end p.base (trade ∷ []) >>= λ until. ok (some (lock_of until reason "*"))
  ]

  abbrev pub is_stoploss : StoplossGuard F → Trade F → Bool
  is_stoploss p t =
      is_stoploss_reason t.exit_reason
      && truthy? t.close_profit
      && elim t.close_profit [ none ↦ false | some x ↦ f.lt x p.profit_limit ]

  unfoldable pub stoploss_trades : StoplossGuard F → Option String → String → List (Trade F)
  unfolding recent_trades is_stoploss_reason trade_direction
  stoploss_trades p pair side =
      let trades = select (is_stoploss p) (recent_trades p.base pair) in
      if p.only_per_side then select (λ t. str_eq (trade_direction t) side) trades else trades

  unfoldable pub stoploss_guard : StoplossGuard F → String → Option String → String → Answer
  unfolding stoploss_trades calculate_lock_end
  stoploss_guard p reason pair side =
      let trades = stoploss_trades p pair side in
      if ltb (length trades) p.trade_limit
      then ok none
      else calculate_lock_end p.base trades >>= λ until.
          ok (some (lock_of until reason (if p.only_per_side then side else "*")))

  unfoldable pub profits : LowProfitPairs F → String → List (Trade F) → List F
  unfolding trade_direction
  profits p side ts =
      map (λ t. Float.or_else t.close_profit f.zero)
        (select
          (λ t. truthy? t.close_profit && (not p.only_per_side || str_eq (trade_direction t) side))
          ts)

  unfoldable pub low_profit : LowProfitPairs F → (F → String) → String → String → Answer
  unfolding recent_trades profits Float.sum calculate_lock_end
  low_profit p reason pair side =
      let trades = recent_trades p.base (some pair) in
      let profit = Float.sum (profits p side trades) in
      if ltb (length trades) p.trade_limit
      then ok none
      else if f.lt profit p.required_profit
      then (calculate_lock_end p.base trades >>= λ until.
          ok (some (lock_of until (reason profit) (if p.only_per_side then side else "*"))))
      else ok none

  -- `calculate_max_drawdown` of freqtrade/data/metrics.py works on a DataFrame; it is an argument,
  -- `none` where it raises `ValueError`.
  unfoldable pub max_drawdown : (List (Trade F) → Option F) → MaxDrawdown F → (F → String) → Answer
  unfolding recent_trades calculate_lock_end
  max_drawdown calculate_max_drawdown p reason =
      let trades = recent_trades p.base none in
      if ltb (length trades) p.trade_limit then ok none else elim (calculate_max_drawdown trades) [
        | none ↦ ok none
        | some drawdown ↦
            if f.lt p.max_allowed_drawdown drawdown
            then (calculate_lock_end p.base trades >>= λ until.
                ok (some (lock_of until (reason drawdown) "*")))
            else ok none
      ]
