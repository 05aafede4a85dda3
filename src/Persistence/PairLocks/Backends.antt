-- ===== src/Persistence/PairLocks/Backends.antt =====
-- The two storage modes of freqtrade/persistence/pairlock_middleware.py against one another.
use freqtrade_llm.Base.{
  ℕ, true, false, Option, none, some, List, String, [], ◌∷◌, eq_iff, select, ◌≡◌, ◌≢◌, refl, arith,
  ◌∙◌, ap, All,
}
use freqtrade_llm.Persistence.PairLock.{PairLock, Session, query_filter}
use freqtrade_llm.Persistence.PairLocks.{PairLocks, list_filter, get_pair_locks}

-- The filters of the two modes agree on a lock that does not end at this moment.
filters_agree :
    (pair : String) (now : ℕ) (side : Option String) (l : PairLock)
    → pair ≢ ""
    → l.lock_end_time ≢ now
    → query_filter (some pair) now side l ≡ list_filter (some pair) now side l
unfolding query_filter list_filter
filters_agree pair now none l h k = ground (arith, eq_iff pair "")
filters_agree pair now (some side) l h k =
    ground (arith, eq_iff pair "", eq_iff side "*", eq_iff l.side "*", eq_iff l.side side)

select_agree :
    (pair : String) (now : ℕ) (side : Option String) (ls : List PairLock)
    → pair ≢ ""
    → All (λ l. l.lock_end_time ≢ now) ls
    → select (query_filter (some pair) now side) ls ≡ select (list_filter (some pair) now side) ls
unfolding select
select_agree pair now side [] h k = refl
select_agree pair now side (l ∷ ls) h k =
    ground (arith, filters_agree pair now side l h k.0, select_agree pair now side ls h k.1)

-- The lock ends at this moment, is active, and is for the pair on both sides.
abbrev pub EndsAt : String → ℕ → PairLock → Type 0
EndsAt pair now l = (l.lock_end_time ≡ now) × (l.active ≡ true) × (l.pair ≡ pair) × (l.side ≡ "*")

select-query_filter_at_end :
    (pair : String) (now : ℕ) (ls : List PairLock)
    → All (EndsAt pair now) ls
    → select (query_filter (some pair) now (some "*")) ls ≡ []
unfolding select query_filter
select-query_filter_at_end pair now [] k = refl
select-query_filter_at_end pair now (l ∷ ls) k =
    ground (arith, select-query_filter_at_end pair now ls k.1)

select-list_filter_at_end :
    (pair : String) (now : ℕ) (ls : List PairLock)
    → All (EndsAt pair now) ls
    → select (list_filter (some pair) now (some "*")) ls ≡ ls
unfolding select list_filter
select-list_filter_at_end pair now [] k = refl
select-list_filter_at_end pair now (l ∷ ls) k =
    ground (arith, eq_iff l.pair pair, eq_iff l.side "*", select-list_filter_at_end pair now ls k.1)

module _ {Db : Type 0} (session : Session Db) where
  -- Both modes return the same locks for a pair, if they store the same locks, no stored lock ends
  -- at exactly the time asked about, and the pair is not the empty text.
  pub get_pair_locks_agree :
      (clock : ℕ) (s : PairLocks Db) (pair : String) (now : ℕ) (side : Option String)
      → session.rows s.db ≡ s.locks
      → pair ≢ ""
      → All (λ l. l.lock_end_time ≢ now) s.locks
      → get_pair_locks session clock (record s { use_db = true }) (some pair) (some now) side
        ≡ get_pair_locks session clock (record s { use_db = false }) (some pair) (some now) side
  unfolding get_pair_locks
  get_pair_locks_agree clock s pair now side same h k =
      ap (select (query_filter (some pair) now side)) same ∙ select_agree pair now side s.locks h k

  -- At the very end of an active lock the modes differ: where every stored lock is such a lock, the
  -- database finds none, and the list is returned whole.
  pub get_pair_locks_differ :
      (clock : ℕ) (s : PairLocks Db) (pair : String) (now : ℕ)
      → session.rows s.db ≡ s.locks
      → All (EndsAt pair now) s.locks
      → (get_pair_locks session clock (record s { use_db = true }) (some pair) (some now) (some "*")
          ≡ [])
        × (get_pair_locks session clock
              (record s { use_db = false })
              (some pair)
              (some now)
              (some "*")
            ≡ s.locks)
  unfolding get_pair_locks
  get_pair_locks_differ clock s pair now same k = (
    ap (select (query_filter (some pair) now (some "*"))) same
        ∙ select-query_filter_at_end pair now s.locks k,
    select-list_filter_at_end pair now s.locks k,
  )
