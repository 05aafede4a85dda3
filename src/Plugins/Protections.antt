-- ===== src/Plugins/Protections.antt =====
-- freqtrade/plugins/protections: `IProtection` and the four protections. They look at the closed
-- trades of a `BtTrades` store, as `get_trades_proxy` returns them. Datetimes are microseconds since
-- the epoch, in UTC.
pub mod Guards
pub mod LockEnd
pub mod Counting
pub mod Rules
use freqtrade_llm.Base.{
  ℕ, zero, suc, ◌+◌, ◌-◌, ◌*◌, ◌/◌, ◌%◌, Bool, true, false, not, ◌&&◌, ◌||◌, Option, none, some,
  List, [], ◌∷◌, map, String, str_eq, if◌then◌else◌, ltb, leb, select, length, last?, is_some, ◌≡◌,
}
use freqtrade_llm.Base.Float.{Float, truthy?}
use freqtrade_llm.Base.Float
use freqtrade_llm.Base.Result.{Result, ok, err, ◌>>=◌}
use freqtrade_llm.Persistence.Trade.{Trade, trade_direction}
use freqtrade_llm.Persistence.Trade.Store.{BtTrades, get_trades_proxy}

abbrev pub minute : ℕ
minute = 60_000_000

abbrev pub day : ℕ
day = 86_400_000_000

-- A text "HH:MM", split at the colon and read by `int`.
pub record TimeOfDay : Type 0 where
  pub hour : ℕ
  pub minutes : ℕ

-- The keys of a protection in the configuration.
pub record ProtectionConfig (F : Type 0) : Type 0 where
  pub stop_duration_candles : Option ℕ
  pub stop_duration : Option ℕ
  pub unlock_at : Option TimeOfDay
  pub lookback_period_candles : Option ℕ
  pub lookback_period : Option ℕ
  pub trade_limit : Option ℕ
  pub required_profit : Option F
  pub max_allowed_drawdown : Option F
  pub only_per_pair : Option Bool
  pub only_per_side : Option Bool

-- The attributes that `IProtection.__init__` sets.
pub record IProtection : Type 0 where
  pub stop_duration_candles : Option ℕ
  pub stop_duration : ℕ
  pub unlock_at : Option TimeOfDay
  pub lookback_period_candles : Option ℕ
  pub lookback_period : ℕ

pub record ProtectionReturn : Type 0 where
  pub lock : Bool
  pub until : ℕ
  pub reason : Option String
  pub lock_side : String

-- `ValueError` of `max([])` and of `datetime.replace`
pub data Error : Type 0 where
  value_error : Error

-- `d.get(key, default)`
abbrev pub get_or {ℓ} : {A : Type ℓ} → Option A → A → A
get_or none default = default
get_or (some a) default = a

module _ {F : Type 0} where
  -- `tf_in_min` is `timeframe_to_minutes(config["timeframe"])`.
  unfoldable pub init : ProtectionConfig F → ℕ → IProtection
  init c tf_in_min = record {
    stop_duration_candles = c.stop_duration_candles;
    stop_duration = elim c.stop_duration_candles [
      | some candles ↦ tf_in_min * candles
      | none ↦ if is_some c.unlock_at then 0 else get_or c.stop_duration 60
    ];
    unlock_at = if is_some c.stop_duration_candles then none else c.unlock_at;
    lookback_period_candles = c.lookback_period_candles;
    lookback_period = elim c.lookback_period_candles [
      | some candles ↦ tf_in_min * candles
      | none ↦ get_or c.lookback_period 60
    ];
  }

  -- `[trade.close_date for trade in trades if trade.close_date]`
  unfoldable pub close_dates : List (Trade F) → List ℕ
  close_dates [] = []
  close_dates (t ∷ ts) =
      let rest = close_dates ts in elim t.close_date [ none ↦ rest | some date ↦ date ∷ rest ]

max_from : ℕ → List ℕ → ℕ
max_from best [] = best
max_from best (d ∷ ds) = max_from (if ltb best d then d else best) ds

-- `max(dates)`
unfoldable pub max_date : List ℕ → Result Error ℕ
unfolding max_from
max_date [] = err value_error
max_date (d ∷ ds) = ok (max_from d ds)

-- `date.replace(hour=…, minute=…)` keeps the seconds and the microseconds.
unfoldable pub replace_time : ℕ → TimeOfDay → Result Error ℕ
replace_time date time =
    if ltb time.hour 24 && ltb time.minutes 60
    then ok (date / day * day + (time.hour * 60 + time.minutes) * minute + date % minute)
    else err value_error

unfoldable pub lock_end_from : IProtection → ℕ → Result Error ℕ
unfolding replace_time
lock_end_from p date = elim p.unlock_at [
  | none ↦ ok (date + p.stop_duration * minute)
  | some time ↦ replace_time date time >>= λ unlock_at.
      ok (if ltb unlock_at date then unlock_at + day else unlock_at)
]

-- `sorted(trades, key=lambda t: t.close_date)[-1]`: the last of the trades that closed last. The
-- trades are closed ones, so each has a date.
module _ {F : Type 0} where
  abbrev pub close_key : Trade F → ℕ
  close_key t = get_or t.close_date 0

  latest_from : Trade F → List (Trade F) → Trade F
  latest_from best [] = best
  latest_from best (t ∷ ts) =
      latest_from (if leb (close_key best) (close_key t) then t else best) ts

  unfoldable pub latest : List (Trade F) → Option (Trade F)
  unfolding latest_from
  latest [] = none
  latest (t ∷ ts) = some (latest_from t ts)

  unfoldable pub calculate_lock_end : IProtection → List (Trade F) → Result Error ℕ
  unfolding close_dates max_date lock_end_from
  calculate_lock_end p trades = max_date (close_dates trades) >>= lock_end_from p
