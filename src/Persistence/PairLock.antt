-- ===== src/Persistence/PairLock.antt =====
-- freqtrade/persistence/pairlock.py: the rows of the table "pairlocks" and the query over them.
-- The primary key `id`, which the database assigns, is not modelled: no operation reads it.
use freqtrade_llm.Base.{
  ℕ, Bool, true, false, ◌&&◌, ◌||◌, not, Option, none, some, List, String, ◌++◌, [], ◌∷◌, map, ltb,
  str_eq, if◌then◌else◌, select, ◌≡◌,
}

pub record PairLock : Type 0 where
  pub pair : String
  pub side : String
  pub reason : Option String
  pub lock_time : ℕ
  pub lock_end_time : ℕ
  pub active : Bool

-- The table behind `PairLock.session`, which is SQLAlchemy's: its rows, `session.add(lock)` with the
-- commit that follows it, and the commit after `lock.active = False` was set on the rows that a
-- query returned.
pub record Session (Db : Type 0) : Type 0 where
  pub rows : Db → List PairLock
  pub add : PairLock → Db → Db
  pub deactivate : (PairLock → Bool) → Db → Db

abbrev pub deactivated : PairLock → PairLock
deactivated lock = record lock { active = false }

-- `lock.active = False` for the elements that a test selects
unfoldable pub deactivate_where : (PairLock → Bool) → List PairLock → List PairLock
deactivate_where p = map (λ lock. if p lock then deactivated lock else lock)

-- What the code relies on: a commit stores the new row behind the others, or the changed rows in
-- their places.
pub record SessionLaws {Db : Type 0} (s : Session Db) : Type 0 where
  pub rows-add : (lock : PairLock) (db : Db) → s.rows (s.add lock db) ≡ s.rows db ++ lock ∷ []
  pub rows-deactivate :
      (p : PairLock → Bool) (db : Db) → s.rows (s.deactivate p db) ≡ deactivate_where p (s.rows db)

-- `if pair:` is false for `None` and for the empty text
abbrev pub given : Option String → Bool
given none = false
given (some s) = not (str_eq s "")

abbrev pub optional_eq : Option String → String → Bool
optional_eq none t = false
optional_eq (some s) t = str_eq t s

-- The conditions of `filters`, joined by the query.
unfoldable pub query_side : Option String → PairLock → Bool
query_side none lock = true
query_side (some side) lock =
    if not (str_eq side "*")
    then str_eq lock.side side || str_eq lock.side "*"
    else str_eq lock.side "*"

unfoldable pub query_filter : Option String → ℕ → Option String → PairLock → Bool
unfolding query_side
query_filter pair now side lock =
    ltb now lock.lock_end_time
    && lock.active
    && (if given pair then optional_eq pair lock.pair else true)
    && query_side side lock

module _ {Db : Type 0} (session : Session Db) (db : Db) where
  unfoldable pub query_pair_locks : Option String → ℕ → Option String → List PairLock
  unfolding query_filter
  query_pair_locks pair now side = select (query_filter pair now side) (session.rows db)

  unfoldable pub get_all_locks : List PairLock
  get_all_locks = session.rows db
