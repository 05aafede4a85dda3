-- ===== src/Exchange/Timeframe.antt =====
-- freqtrade/exchange/exchange_utils_timeframe.py and the conversions of
-- freqtrade/util/datetime_helpers.py. A datetime is its distance from the epoch in microseconds,
-- which is the resolution of Python's `datetime`.
use freqtrade_llm.Base.{
  ℕ, ◌+◌, ◌*◌, ◌/◌, ◌%◌, ◌^◌, ◌≤◌, ◌<◌, ◌≡◌, Option, none, some, String, ltb, if◌then◌else◌, arith,
}

pub data Rounding : Type 0 where
  round_up round_down : Rounding

-- `ccxt.Exchange.parse_timeframe` (in seconds) and `ccxt.Exchange.round_timeframe` (in
-- milliseconds): functions of the third-party package ccxt.
pub record Ccxt : Type 0 where
  pub parse_timeframe : String → ℕ
  pub round_timeframe : String → ℕ → Rounding → ℕ

-- What ccxt documents of them: a timeframe is not empty; rounding down gives the start of the candle
-- that holds the time, and rounding up gives the start of the candle after that one.
pub record CcxtLaws (c : Ccxt) : Type 0 where
  pub timeframe_pos : (tf : String) → 0 < c.parse_timeframe tf
  pub round_down_le : (tf : String) (ts : ℕ) → c.round_timeframe tf ts round_down ≤ ts
  pub round_up_eq :
      (tf : String) (ts : ℕ)
      → c.round_timeframe tf ts round_up
        ≡ c.round_timeframe tf ts round_down + 1000 * c.parse_timeframe tf
  pub lt_round_up : (tf : String) (ts : ℕ) → ts < c.round_timeframe tf ts round_up
  pub round_down_seconds : (tf : String) (ts : ℕ) → c.round_timeframe tf ts round_down % 1000 ≡ 0

-- `int(dt.timestamp() * 1000)`
unfoldable pub dt_ts : ℕ → ℕ
dt_ts dt = dt / 1000

-- A number above 1e10 is read as milliseconds.
unfoldable pub dt_from_ts : ℕ → ℕ
dt_from_ts timestamp = if ltb (10 ^ 10) timestamp then timestamp * 1000 else timestamp * 1_000_000

-- `if not date: date = datetime.now(UTC)`
abbrev pub or_now : Option ℕ → ℕ → ℕ
or_now none clock = clock
or_now (some date) clock = date

module _ (c : Ccxt) where
  unfoldable pub timeframe_to_seconds : String → ℕ
  timeframe_to_seconds tf = c.parse_timeframe tf

  unfoldable pub timeframe_to_minutes : String → ℕ
  timeframe_to_minutes tf = c.parse_timeframe tf / 60

  unfoldable pub timeframe_to_msecs : String → ℕ
  timeframe_to_msecs tf = c.parse_timeframe tf * 1000

  -- The last argument is the time that `datetime.now(UTC)` returns.
  unfoldable pub timeframe_to_prev_date : String → Option ℕ → ℕ → ℕ
  unfolding dt_from_ts dt_ts
  timeframe_to_prev_date tf date clock =
      dt_from_ts (c.round_timeframe tf (dt_ts (or_now date clock)) round_down / 1000)

  unfoldable pub timeframe_to_next_date : String → Option ℕ → ℕ → ℕ
  unfolding dt_from_ts dt_ts
  timeframe_to_next_date tf date clock =
      dt_from_ts (c.round_timeframe tf (dt_ts (or_now date clock)) round_up / 1000)

-- The last second that `dt_from_ts` reads as seconds lies in the year 2286.
abbrev pub last_second : ℕ
last_second = 10 ^ 10

module _ (c : Ccxt) (laws : CcxtLaws c) (tf : String) (date clock : ℕ) where
  -- The next candle starts strictly after the date, and at most one candle after it.
  pub timeframe_to_next_date_bounds :
      c.round_timeframe tf (dt_ts date) round_up ≤ 1000 * last_second
      → (date < timeframe_to_next_date c tf (some date) clock)
        × (timeframe_to_next_date c tf (some date) clock
            ≤ date + 1_000_000 * timeframe_to_seconds c tf)
  unfolding timeframe_to_next_date timeframe_to_seconds dt_ts dt_from_ts
  timeframe_to_next_date_bounds h = ground (
    arith,
    laws.lt_round_up tf (dt_ts date),
    laws.round_up_eq tf (dt_ts date),
    laws.round_down_le tf (dt_ts date),
    laws.round_down_seconds tf (dt_ts date),
  )

  -- The dates of the candle that holds a date: it starts at or before the date, ends after it, and
  -- spans one timeframe.
  candle_holds_date :
      c.round_timeframe tf (dt_ts date) round_up ≤ 1000 * last_second
      → (timeframe_to_prev_date c tf (some date) clock ≤ date)
        × (date < timeframe_to_next_date c tf (some date) clock)
        × (timeframe_to_next_date c tf (some date) clock
            ≡ timeframe_to_prev_date c tf (some date) clock + 1_000_000 * timeframe_to_seconds c tf)
  unfolding timeframe_to_next_date timeframe_to_prev_date timeframe_to_seconds dt_ts dt_from_ts
  candle_holds_date h = ground (
    arith,
    laws.lt_round_up tf (dt_ts date),
    laws.round_up_eq tf (dt_ts date),
    laws.round_down_le tf (dt_ts date),
    laws.round_down_seconds tf (dt_ts date),
  )
