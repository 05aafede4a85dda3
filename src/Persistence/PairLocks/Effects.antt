-- ===== src/Persistence/PairLocks/Effects.antt =====
-- What the operations of freqtrade/persistence/pairlock_middleware.py do to the answer of
-- `is_pair_locked`, in both storage modes.
use freqtrade_llm.Base.{
  ℕ, Bool, true, false, ◌&&◌, ◌||◌, Option, some, List, String, ◌++◌, [], ◌∷◌, ltb, leb, str_eq,
  eq_iff, if◌then◌else◌, any, length, ◌≡◌, ◌≢◌, refl, arith, is_empty-select, any-append, ◌∙◌,
  Bool-cases, inl, inr, ◌≤◌, ◌*◌,
}
use freqtrade_llm.Exchange.Timeframe.{
  Ccxt, CcxtLaws, round_up, dt_ts, last_second, timeframe_to_next_date_bounds,
}
use freqtrade_llm.Persistence.PairLock.{
  PairLock, Session, SessionLaws, deactivated, deactivate_where, query_filter, query_pair_locks,
}
use freqtrade_llm.Persistence.PairLock
use freqtrade_llm.Persistence.PairLocks.{
  PairLocks, list_filter, lock_pair, get_pair_locks, is_global_lock, is_pair_locked, get_all_locks,
}

-- A lock counts at its end time in list mode, and no longer in database mode.
abbrev pub in_force : Bool → ℕ → PairLock → Bool
in_force use_db now lock =
    lock.active && (if use_db then ltb now lock.lock_end_time else leb now lock.lock_end_time)

-- A lock on both sides stops every side; a lock on one side stops that side alone.
abbrev pub covers : String → PairLock → Bool
covers side lock = str_eq lock.side "*" || str_eq lock.side side

-- The lock is for exactly this pair, or pattern "*".
abbrev pub blocks_pair : Bool → String → ℕ → String → PairLock → Bool
blocks_pair use_db pair now side lock =
    in_force use_db now lock && str_eq lock.pair pair && covers side lock

-- The lock stops entries of the pair: it is for the pair, or for all pairs.
abbrev pub blocks : Bool → String → ℕ → String → PairLock → Bool
blocks use_db pair now side lock =
    blocks_pair use_db pair now side lock || blocks_pair use_db "*" now side lock

any_ext :
    (p q : PairLock → Bool) (h : (l : PairLock) → p l ≡ q l) (ls : List PairLock)
    → any p ls ≡ any q ls
unfolding any
any_ext p q h [] = refl
any_ext p q h (l ∷ ls) = ground (arith, h l, any_ext p q h ls)

any-or :
    (p q : PairLock → Bool) (ls : List PairLock) → (any p ls || any q ls) ≡ any (λ l. p l || q l) ls
unfolding any
any-or p q [] = refl
any-or p q (l ∷ ls) = ground (arith, any-or p q ls)

any_one : (p : PairLock → Bool) (l : PairLock) → any p (l ∷ []) ≡ p l
unfolding any
any_one p l = ground arith

pub query_filter-blocks_pair :
    (pair : String) (now : ℕ) (side : String) (l : PairLock)
    → pair ≢ ""
    → query_filter (some pair) now (some side) l ≡ blocks_pair true pair now side l
unfolding query_filter
query_filter-blocks_pair pair now side l h =
    ground (arith, eq_iff pair "", eq_iff side "*", eq_iff l.side "*", eq_iff l.side side)

pub list_filter-blocks_pair :
    (pair : String) (now : ℕ) (side : String) (l : PairLock)
    → list_filter (some pair) now (some side) l ≡ blocks_pair false pair now side l
unfolding list_filter
list_filter-blocks_pair pair now side l = ground arith

module _ {Db : Type 0} (session : Session Db) where
  pub pair_is_held :
      (clock : ℕ) (s : PairLocks Db) (pair : String) (now : ℕ) (side : String)
      → pair ≢ ""
      → ltb 0 (length (get_pair_locks session clock s (some pair) (some now) (some side)))
        ≡ any (blocks_pair s.use_db pair now side) (get_all_locks session s)
  unfolding get_pair_locks get_all_locks PairLock.get_all_locks query_pair_locks list_filter
  pair_is_held clock s pair now side h = elim (Bool-cases s.use_db) [
    | inl e ↦ rw e (
        is_empty-select (query_filter (some pair) now (some side)) (session.rows s.db)
        ∙ any_ext _ _ (λ l. query_filter-blocks_pair pair now side l h) (session.rows s.db))
    | inr e ↦ rw e (
        is_empty-select (list_filter (some pair) now (some side)) s.locks
        ∙ any_ext _ _ (list_filter-blocks_pair pair now side) s.locks)
  ]

  -- A pair, which is not the empty text, is locked exactly when one of the stored locks blocks it:
  -- an active lock on the pair, for the side or for both, or an active lock on all pairs, that has
  -- not ended.
  pub is_pair_locked_iff :
      (clock : ℕ) (s : PairLocks Db) (pair : String) (now : ℕ) (side : String)
      → pair ≢ ""
      → is_pair_locked session clock s pair (some now) side
        ≡ any (blocks s.use_db pair now side) (get_all_locks session s)
  unfolding is_pair_locked is_global_lock
  is_pair_locked_iff clock s pair now side h = ground (
    arith,
    pair_is_held clock s pair now side h,
    pair_is_held clock s "*" now side (ground (arith, eq_iff "*" "")),
    any-or (blocks_pair s.use_db pair now side) (blocks_pair s.use_db "*" now side)
        (get_all_locks session s),
  )

  module _ (c : Ccxt) (clock : ℕ) (s : PairLocks Db) (pair : String) (until : ℕ)
      (reason : Option String) (at : Option ℕ) (lock_side : String) where
    pub get_all_locks-lock_pair :
        SessionLaws session
        → let result = lock_pair session c clock s pair until reason at lock_side in
          get_all_locks session result.1 ≡ get_all_locks session s ++ result.0 ∷ []
    unfolding lock_pair get_all_locks PairLock.get_all_locks
    get_all_locks-lock_pair laws = elim (Bool-cases s.use_db) [
      | inl e ↦ rw e (laws.rows-add _ s.db)
      | inr e ↦ rw e refl
    ]

    pub use_db-lock_pair :
        (lock_pair session c clock s pair until reason at lock_side).1.use_db ≡ s.use_db
    unfolding lock_pair
    use_db-lock_pair = ground arith

    pub timeframe-lock_pair :
        (lock_pair session c clock s pair until reason at lock_side).1.timeframe ≡ s.timeframe
    unfolding lock_pair
    timeframe-lock_pair = ground arith

    -- A new lock adds exactly the situations that it blocks: a pair is locked afterwards if it was
    -- locked before or the new lock blocks it, at every time and for every side. The pair that is
    -- asked about is not the empty text.
    pub is_pair_locked-lock_pair :
        SessionLaws session
        → (query_clock : ℕ) (p : String) (now : ℕ) (side : String) → p ≢ ""
        → let result = lock_pair session c clock s pair until reason at lock_side in
          is_pair_locked session query_clock result.1 p (some now) side ≡ (
            is_pair_locked session query_clock s p (some now) side
            || blocks s.use_db p now side result.0)
    is_pair_locked-lock_pair laws query_clock p now side h =
        let result = lock_pair session c clock s pair until reason at lock_side in
        ground (
          arith,
          is_pair_locked_iff query_clock result.1 p now side h,
          is_pair_locked_iff query_clock s p now side h,
          use_db-lock_pair,
          get_all_locks-lock_pair laws,
          any-append (blocks s.use_db p now side) (get_all_locks session s) (result.0 ∷ []),
          any_one (blocks s.use_db p now side) result.0,
        )

    -- The same for the locks on all pairs.
    pub is_global_lock-lock_pair :
        SessionLaws session
        → (query_clock : ℕ) (now : ℕ) (side : String)
        → let result = lock_pair session c clock s pair until reason at lock_side in
          is_global_lock session query_clock result.1 (some now) side ≡ (
            is_global_lock session query_clock s (some now) side
            || blocks_pair s.use_db "*" now side result.0)
    unfolding is_global_lock
    is_global_lock-lock_pair laws query_clock now side =
        let result = lock_pair session c clock s pair until reason at lock_side in
        let star : ◌≢◌ {A = String} "*" "" = ground (arith, eq_iff "*" "") in
        ground (
          arith,
          pair_is_held query_clock result.1 "*" now side star,
          pair_is_held query_clock s "*" now side star,
          use_db-lock_pair,
          get_all_locks-lock_pair laws,
          any-append (blocks_pair s.use_db "*" now side) (get_all_locks session s) (result.0 ∷ []),
          any_one (blocks_pair s.use_db "*" now side) result.0,
        )

    -- While the dates are in the range of `dt_from_ts`, the new lock holds its pair at the time that
    -- was asked for, for the side that was asked for.
    pub blocks_pair-lock_pair :
        CcxtLaws c
        → c.round_timeframe s.timeframe (dt_ts until) round_up ≤ 1000 * last_second
        → blocks_pair s.use_db pair until lock_side
            (lock_pair session c clock s pair until reason at lock_side).0
          ≡ true
    unfolding lock_pair
    blocks_pair-lock_pair laws h = ground (
      arith,
      timeframe_to_next_date_bounds c laws s.timeframe until clock h,
      eq_iff pair pair,
      eq_iff lock_side lock_side,
    )
