-- ===== src/Strategy/Signals.antt =====
-- The entry and exit signals of freqtrade/strategy/interface.py. A row of the analysed DataFrame is
-- a record: `latest.get(column, 0) == 1` is the Boolean of that column, and a tag is there if it is
-- a text.
use freqtrade_llm.Base.{
  ℕ, ◌+◌, ◌*◌, Bool, true, false, not, ◌&&◌, ◌||◌, Option, none, some, List, [], ◌∷◌, String,
  str_eq, if◌then◌else◌, ltb, ◌==◌, is_some, select, last?, ◌≡◌, arith, ◌⊎◌,
}
use freqtrade_llm.Exchange.Timeframe.{
  Ccxt, timeframe_to_seconds, timeframe_to_minutes, timeframe_to_next_date,
}
use freqtrade_llm.Persistence.PairLock.{Session}
use freqtrade_llm.Persistence.PairLocks.{PairLocks}
use freqtrade_llm.Persistence.PairLocks
use freqtrade_llm.Persistence.Trade.{TradingMode, spot, margin, futures}
use freqtrade_llm.Strategy.{Strategy}

pub record Candle : Type 0 where
  pub date : ℕ
  pub enter_long : Bool
  pub exit_long : Bool
  pub enter_short : Bool
  pub exit_short : Bool
  pub enter_tag : Option String
  pub exit_tag : Option String

pub data SignalDirection : Type 0 where
  long short : SignalDirection

latest_date : ℕ → List Candle → ℕ
latest_date best [] = best
latest_date best (c ∷ cs) = latest_date (if ltb best c.date then c.date else best) cs

abbrev pub is_spot : TradingMode → Bool
is_spot spot = true
is_spot margin = false
is_spot futures = false

-- `tag if isinstance(tag, str) and tag != "nan" else None`
unfoldable pub clean_tag : Option String → Option String
clean_tag none = none
clean_tag (some tag) = if str_eq tag "nan" then none else some tag

module _ {F : Type 0} (c : Ccxt) (s : Strategy F) (now : ℕ) where
  -- The last row with the latest date, unless the history is outdated. `latest_date < now - age` is
  -- written with the age on the other side.
  unfoldable pub get_latest_candle : String → List Candle → Option Candle
  unfolding latest_date timeframe_to_minutes
  get_latest_candle timeframe rows =
      let date = latest_date 0 rows in
      let age = (timeframe_to_minutes c timeframe * 2 + s.outdated_offset) * 60_000_000 in
      elim (last? (select (λ r. r.date == date) rows)) [
        | none ↦ none
        | some r ↦ if ltb (date + age) now then none else some r
      ]

  -- enter, exit and the exit tag
  unfoldable pub get_exit_signal : String → List Candle → Bool → Bool × Bool × Option String
  unfolding get_latest_candle clean_tag
  get_exit_signal timeframe rows is_short = elim (get_latest_candle timeframe rows) [
    | none ↦ (false, false, none)
    | some r ↦
        if is_short
        then (r.enter_short, r.exit_short, clean_tag r.exit_tag)
        else (r.enter_long, r.exit_long, clean_tag r.exit_tag)
  ]

module _ {F : Type 0} (s : Strategy F) where
  -- `time_delta > ignore_buying_expired_candle_after`, in microseconds, with the terms that are
  -- subtracted on the other side.
  unfoldable pub ignore_expired_candle : ℕ → ℕ → ℕ → Bool → Bool
  ignore_expired_candle latest_date current_time timeframe_seconds enter =
      if ltb 0 s.ignore_buying_expired_candle_after && enter
      then ltb
          (latest_date + (timeframe_seconds + s.ignore_buying_expired_candle_after) * 1_000_000)
          current_time
      else false

  abbrev pub long_signal : Candle → Bool
  long_signal r = r.enter_long && not (r.exit_long || r.enter_short)

  abbrev pub short_signal : Candle → Bool
  short_signal r =
      not (is_spot s.trading_mode)
      && s.can_short
      && r.enter_short
      && not (r.exit_short || r.enter_long)

  -- The short test comes second, and overwrites what the long test has set.
  unfoldable pub entry_of : Candle → Option SignalDirection
  entry_of r = if short_signal r then some short else if long_signal r then some long else none

  -- What an entry in a direction needs of the latest candle: that the candle signals it, signals
  -- neither the opposite entry nor its exit, and, for a short one, that the strategy and the market
  -- can go short.
  abbrev pub Signals : Candle → SignalDirection → Type 0
  Signals r long = (r.enter_long ≡ true) × (r.exit_long ≡ false) × (r.enter_short ≡ false)
  Signals r short =
      (r.enter_short ≡ true)
      × (r.exit_short ≡ false)
      × (r.enter_long ≡ false)
      × (s.can_short ≡ true)
      × (is_spot s.trading_mode ≡ false)

  entry_of-Signals :
      (r : Candle) (dir : SignalDirection)
      → (entry_of r ≡ some dir → Signals r dir) × (Signals r dir → entry_of r ≡ some dir)
  unfolding entry_of
  entry_of-Signals r long = (λ h. ground arith, λ h. ground arith)
  entry_of-Signals r short = (λ h. ground arith, λ h. ground arith)

  entry_of-opt :
      (r : Candle) → (entry_of r ≡ none) ⊎ ((entry_of r ≡ some long) ⊎ (entry_of r ≡ some short))
  unfolding entry_of
  entry_of-opt r = ground arith

module _ {F : Type 0} (c : Ccxt) (s : Strategy F) (now : ℕ) where
  -- `get_entry_signal` after its early return
  unfoldable pub entry_at : String → Candle → Option SignalDirection × Option String
  unfolding entry_of clean_tag ignore_expired_candle timeframe_to_seconds
  entry_at timeframe r =
      let signal = entry_of s r in
      let tag = if is_some signal then clean_tag r.enter_tag else none in
      if ignore_expired_candle s r.date now (timeframe_to_seconds c timeframe) (is_some signal)
      then (none, tag)
      else (signal, tag)

  unfoldable pub get_entry_signal : String → List Candle → Option SignalDirection × Option String
  get_entry_signal timeframe rows = elim (get_latest_candle c s now timeframe rows) [
    | none ↦ (none, none)
    | some r ↦ entry_at timeframe r
  ]

  -- With a candle date the lock is looked up at the start of the next candle.
  unfoldable pub is_pair_locked :
      {Db : Type 0} → Session Db → PairLocks Db → String → String → Option ℕ → String → Bool
  is_pair_locked session locks timeframe pair none side =
      PairLocks.is_pair_locked session now locks pair none side
  is_pair_locked session locks timeframe pair (some date) side =
      PairLocks.is_pair_locked session now locks pair
        (some (timeframe_to_next_date c timeframe (some date) now)) side

  entry_at_iff :
      (timeframe : String) (dir : SignalDirection) (r : Candle)
      → let (signal, tag) = entry_at timeframe r in
        let expired = ignore_expired_candle s r.date now (timeframe_to_seconds c timeframe) true in
        (signal ≡ some dir → (entry_of s r ≡ some dir) × (expired ≡ false))
        × (entry_of s r ≡ some dir → expired ≡ false → signal ≡ some dir)
  unfolding entry_at
  entry_at_iff timeframe long r = ground (arith, entry_of-opt s r)
  entry_at_iff timeframe short r = ground (arith, entry_of-opt s r)

  -- An entry is signalled in a direction exactly when the latest candle, which is not outdated,
  -- signals it without contradiction, and is not so old that buying on it is to be ignored. In
  -- particular the two directions exclude one another.
  pub get_entry_signal_iff :
      (timeframe : String) (rows : List Candle) (dir : SignalDirection) (r : Candle)
      → get_latest_candle c s now timeframe rows ≡ some r
      → let (signal, tag) = get_entry_signal timeframe rows in
        let expired = ignore_expired_candle s r.date now (timeframe_to_seconds c timeframe) true in
        (signal ≡ some dir → Signals s r dir × (expired ≡ false))
        × (Signals s r dir → expired ≡ false → signal ≡ some dir)
  unfolding get_entry_signal
  get_entry_signal_iff timeframe rows dir r h =
      rw (h, get_entry_signal) ground
        (arith, entry_of-Signals s r dir, entry_at_iff timeframe dir r)
