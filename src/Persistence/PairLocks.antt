-- ===== src/Persistence/PairLocks.antt =====
-- freqtrade/persistence/pairlock_middleware.py: the class `PairLocks`, which keeps the locks in the
-- database or, for backtesting, in a list. The class attributes and the database are one state; the
-- clock is an argument of every operation that may call `datetime.now(UTC)`.
pub mod Effects
pub mod Unlock
pub mod Longest
pub mod Backends
use freqtrade_llm.Base.{
  ℕ, Bool, true, false, ◌&&◌, ◌||◌, not, Option, none, some, List, String, ◌++◌, [], ◌∷◌, map, ltb,
  leb, str_eq, if◌then◌else◌, select, length, head?, ◌≡◌, ◌<◌, arith,
}
use freqtrade_llm.Exchange.Timeframe.{Ccxt, timeframe_to_next_date, or_now}
use freqtrade_llm.Persistence.PairLock.{
  PairLock, Session, deactivated, deactivate_where, query_filter, query_pair_locks, optional_eq,
}
use freqtrade_llm.Persistence.PairLock

pub record PairLocks (Db : Type 0) : Type 0 where
  pub use_db : Bool
  pub locks : List PairLock
  pub timeframe : String
  pub db : Db

-- The condition of the comprehension in `get_pair_locks`.
abbrev pub same_pair : Option String → PairLock → Bool
same_pair none lock = true
same_pair (some pair) lock = str_eq lock.pair pair

abbrev pub same_side : Option String → PairLock → Bool
same_side none lock = true
same_side (some side) lock = str_eq lock.side "*" || str_eq lock.side side

unfoldable pub list_filter : Option String → ℕ → Option String → PairLock → Bool
list_filter pair now side lock =
    leb now lock.lock_end_time && lock.active && same_pair pair lock && same_side side lock

-- `sorted(locks, key=lambda lock: lock.lock_end_time, reverse=True)`: a stable sort, latest first.
unfoldable pub insert_by_end : PairLock → List PairLock → List PairLock
insert_by_end lock [] = lock ∷ []
insert_by_end lock (other ∷ rest) =
    if ltb lock.lock_end_time other.lock_end_time
    then other ∷ insert_by_end lock rest
    else lock ∷ other ∷ rest

unfoldable pub sorted_by_end : List PairLock → List PairLock
unfolding insert_by_end
sorted_by_end [] = []
sorted_by_end (lock ∷ rest) = insert_by_end lock (sorted_by_end rest)

-- The condition on the reason, and the `filters` of `unlock_reason`.
abbrev pub has_reason : String → PairLock → Bool
has_reason reason lock = optional_eq lock.reason reason

abbrev pub reason_filter : String → ℕ → PairLock → Bool
reason_filter reason now lock = ltb now lock.lock_end_time && lock.active && has_reason reason lock

module _ {Db : Type 0} (session : Session Db) where
  unfoldable pub reset_locks : PairLocks Db → PairLocks Db
  reset_locks s = if not s.use_db then record s { locks = [] } else s

  -- Returns the lock and the new state.
  unfoldable pub lock_pair :
      Ccxt
      → ℕ
      → PairLocks Db
      → String
      → ℕ
      → Option String
      → Option ℕ
      → String
      → PairLock × PairLocks Db
  lock_pair c clock s pair until reason now side =
      let lock : PairLock = record {
        pair = pair;
        side = side;
        reason = reason;
        lock_time = or_now now clock;
        lock_end_time = timeframe_to_next_date c s.timeframe (some until) clock;
        active = true;
      } in
      if s.use_db
      then (lock, record s { db = session.add lock s.db })
      else (lock, record s { locks = s.locks ++ lock ∷ [] })

  unfoldable pub get_pair_locks :
      ℕ → PairLocks Db → Option String → Option ℕ → Option String → List PairLock
  unfolding query_pair_locks list_filter
  get_pair_locks clock s pair now side =
      if s.use_db
      then query_pair_locks session s.db pair (or_now now clock) side
      else select (list_filter pair (or_now now clock) side) s.locks

  unfoldable pub get_pair_longest_lock :
      ℕ → PairLocks Db → String → Option ℕ → String → Option PairLock
  unfolding get_pair_locks sorted_by_end
  get_pair_longest_lock clock s pair now side =
      head? (sorted_by_end (get_pair_locks clock s (some pair) now (some side)))

  -- The locks that `get_pair_locks` returns are the objects of the list or the rows of the table, so
  -- clearing `active` on them clears it there.
  unfoldable pub unlock_pair : ℕ → PairLocks Db → String → Option ℕ → String → PairLocks Db
  unfolding query_filter list_filter deactivate_where
  unlock_pair clock s pair now side =
      if s.use_db
      then record s {
        db = session.deactivate (query_filter (some pair) (or_now now clock) (some side)) s.db;
      }
      else record s {
        locks = deactivate_where (list_filter (some pair) (or_now now clock) (some side)) s.locks;
      }

  -- In list mode `get_pair_locks(None)` is called without `now`, so it takes the clock.
  unfoldable pub unlock_reason : ℕ → PairLocks Db → String → Option ℕ → PairLocks Db
  unfolding list_filter deactivate_where
  unlock_reason clock s reason now =
      if s.use_db
      then record s { db = session.deactivate (reason_filter reason (or_now now clock)) s.db }
      else record s {
        locks =
            deactivate_where (λ lock. list_filter none clock none lock && has_reason reason lock)
              s.locks;
      }

  unfoldable pub is_global_lock : ℕ → PairLocks Db → Option ℕ → String → Bool
  unfolding get_pair_locks
  is_global_lock clock s now side =
      ltb 0 (length (get_pair_locks clock s (some "*") (some (or_now now clock)) (some side)))

  unfoldable pub is_pair_locked : ℕ → PairLocks Db → String → Option ℕ → String → Bool
  unfolding get_pair_locks is_global_lock
  is_pair_locked clock s pair now side =
      ltb 0 (length (get_pair_locks clock s (some pair) (some (or_now now clock)) (some side)))
      || is_global_lock clock s (some (or_now now clock)) side

  unfoldable pub get_all_locks : PairLocks Db → List PairLock
  get_all_locks s = if s.use_db then PairLock.get_all_locks session s.db else s.locks
