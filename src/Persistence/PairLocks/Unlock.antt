-- ===== src/Persistence/PairLocks/Unlock.antt =====
-- What `unlock_pair` and `unlock_reason` of freqtrade/persistence/pairlock_middleware.py release.
use freqtrade_llm.Base.{
  ℕ, Bool, true, false, ◌&&◌, none, some, List, String, [], ◌∷◌, eq_iff, if◌then◌else◌, any, ◌≡◌,
  ◌≢◌, refl, ◌<◌, arith, ◌∙◌, sym, ap, Bool-cases, inl, inr, All,
}
use freqtrade_llm.Persistence.PairLock.{
  PairLock, Session, SessionLaws, deactivated, deactivate_where, query_filter, query_pair_locks,
}
use freqtrade_llm.Persistence.PairLock
use freqtrade_llm.Persistence.PairLocks.{
  PairLocks, list_filter, unlock_pair, unlock_reason, is_global_lock, is_pair_locked, get_all_locks,
  has_reason, reason_filter,
}
use freqtrade_llm.Persistence.PairLocks.Effects.{
  in_force, blocks_pair, pair_is_held, query_filter-blocks_pair, list_filter-blocks_pair,
}

-- What clearing `active` on the locks that `p` selects does to the question whether `q` finds one:
-- nothing where the two never meet, and a `no` where `q` is `p` and wants active locks.
any-deactivate_where_apart :
    (p q : PairLock → Bool) (ls : List PairLock)
    → ((l : PairLock) → p l ≡ true → (q l ≡ false) × (q (deactivated l) ≡ false))
    → any q (deactivate_where p ls) ≡ any q ls
unfolding any deactivate_where
any-deactivate_where_apart p q [] h = refl
any-deactivate_where_apart p q (l ∷ ls) h = ground (arith, h l, any-deactivate_where_apart p q ls h)

any-deactivate_where_self :
    (p q : PairLock → Bool) (ls : List PairLock)
    → ((l : PairLock) → p l ≡ q l)
    → ((l : PairLock) → q (deactivated l) ≡ false)
    → any q (deactivate_where p ls) ≡ false
unfolding any deactivate_where
any-deactivate_where_self p q [] h k = refl
any-deactivate_where_self p q (l ∷ ls) h k =
    ground (arith, h l, k l, any-deactivate_where_self p q ls h k)

deactivate_where_expired :
    (clock : ℕ) (reason : String) (ls : List PairLock)
    → All (λ l. l.lock_end_time < clock) ls
    → deactivate_where (λ lock. list_filter none clock none lock && has_reason reason lock) ls ≡ ls
unfolding deactivate_where list_filter
deactivate_where_expired clock reason [] h = refl
deactivate_where_expired clock reason (l ∷ ls) h =
    ground (arith, deactivate_where_expired clock reason ls h.1)

module _ {Db : Type 0} (session : Session Db) where
  module _ (laws : SessionLaws session) (clock : ℕ) (s : PairLocks Db) (pair : String) (now : ℕ)
      (side : String) where
    use_db-unlock_pair : (unlock_pair session clock s pair (some now) side).use_db ≡ s.use_db
    unfolding unlock_pair
    use_db-unlock_pair = ground arith

    release_filter : PairLock → Bool
    release_filter =
        if s.use_db
        then query_filter (some pair) now (some side)
        else list_filter (some pair) now (some side)

    release_filter_lem :
        pair ≢ "" → (l : PairLock) → release_filter l ≡ blocks_pair s.use_db pair now side l
    unfolding release_filter
    release_filter_lem h l = elim (Bool-cases s.use_db) [
      | inl e ↦ rw e (query_filter-blocks_pair pair now side l h)
      | inr e ↦ rw e (list_filter-blocks_pair pair now side l)
    ]

    -- Whether some stored lock holds a pair after the call, from what is stored before it.
    held-unlock_pair :
        (q : PairLock → Bool)
        → any q (get_all_locks session (unlock_pair session clock s pair (some now) side))
          ≡ any q (deactivate_where release_filter (get_all_locks session s))
    unfolding unlock_pair get_all_locks PairLock.get_all_locks release_filter
    held-unlock_pair q = elim (Bool-cases s.use_db) [
      | inl e ↦ rw e (ap (any q) (laws.rows-deactivate _ s.db))
      | inr e ↦ rw e refl
    ]

    abbrev after : PairLocks Db
    after = unlock_pair session clock s pair (some now) side

    released :
        pair ≢ "" → any (blocks_pair s.use_db pair now side) (get_all_locks session after) ≡ false
    released h =
        held-unlock_pair (blocks_pair s.use_db pair now side)
        ∙ any-deactivate_where_self release_filter (blocks_pair s.use_db pair now side)
            (get_all_locks session s) (release_filter_lem h) (λ l. refl)

    kept :
        pair ≢ ""
        → (p : String) (t : ℕ) (sd : String) → p ≢ pair
        → any (blocks_pair s.use_db p t sd) (get_all_locks session after)
          ≡ any (blocks_pair s.use_db p t sd) (get_all_locks session s)
    kept h p t sd e =
        held-unlock_pair (blocks_pair s.use_db p t sd)
        ∙ any-deactivate_where_apart release_filter (blocks_pair s.use_db p t sd)
            (get_all_locks session s)
            (λ l r.
              (ground (arith, release_filter_lem h l, eq_iff l.pair p, eq_iff l.pair pair), refl))

    -- After a pair is unlocked for a side, only the locks on all pairs can hold it for that side; and
    -- the locks of every other pair answer as before, at every time and for every side. Neither pair
    -- is the empty text or "*".
    pub is_pair_locked-unlock_pair :
        pair ≢ ""
        → pair ≢ "*"
        → (query_clock : ℕ) (p : String) (t : ℕ) (sd : String) → p ≢ ""
        → p ≢ pair
        → (is_pair_locked session query_clock after pair (some now) side
            ≡ is_global_lock session query_clock s (some now) side)
          × (is_pair_locked session query_clock after p (some t) sd
              ≡ is_pair_locked session query_clock s p (some t) sd)
    unfolding is_pair_locked is_global_lock
    is_pair_locked-unlock_pair h k query_clock p t sd hp hpair =
        let star : ◌≢◌ {A = String} "*" "" = ground (arith, eq_iff "*" "") in
        let global : ◌≢◌ {A = String} "*" pair = λ e. k (sym e) in
        (
          ground (
            arith,
            pair_is_held session query_clock after pair now side h,
            pair_is_held session query_clock after "*" now side star,
            pair_is_held session query_clock s "*" now side star,
            use_db-unlock_pair,
            released h,
            kept h "*" now side global,
          ),
          ground (
            arith,
            pair_is_held session query_clock after p t sd hp,
            pair_is_held session query_clock s p t sd hp,
            pair_is_held session query_clock after "*" t sd star,
            pair_is_held session query_clock s "*" t sd star,
            use_db-unlock_pair,
            kept h p t sd hpair,
            kept h "*" t sd global,
          ),
        )

module _ {Db : Type 0} (session : Session Db) (clock : ℕ) (s : PairLocks Db) (reason : String)
    (now : ℕ) where
  -- In database mode no lock with the reason is in force after the call, and a search that asks for
  -- another reason, or for no reason, finds what it found before.
  unlock_reason_releases :
      SessionLaws session
      → s.use_db ≡ true
      → (q : PairLock → Bool) → ((l : PairLock) → has_reason reason l ≡ true → q l ≡ false)
      → let after = unlock_reason session clock s reason (some now) in
        (any (λ l. in_force true now l && has_reason reason l) (get_all_locks session after)
          ≡ false)
        × (any q (get_all_locks session after) ≡ any q (get_all_locks session s))
  unfolding unlock_reason get_all_locks PairLock.get_all_locks
  unlock_reason_releases laws e q h = rw e (
      rw (laws.rows-deactivate (reason_filter reason now) s.db) (
        any-deactivate_where_self (reason_filter reason now)
            (λ l. in_force true now l && has_reason reason l) (session.rows s.db)
            (λ l. ground arith) (λ l. refl),
        any-deactivate_where_apart (reason_filter reason now) q (session.rows s.db)
            (λ l r. (h l (ground arith), h (deactivated l) (ground arith))),
      ))

  -- In list mode the locks are judged at the clock, whatever time is passed: where every lock has
  -- ended by the clock, as in a backtest over past candles, the call releases nothing.
  pub unlock_reason_past :
      s.use_db ≡ false
      → All (λ l. l.lock_end_time < clock) s.locks
      → get_all_locks session (unlock_reason session clock s reason (some now))
        ≡ get_all_locks session s
  unfolding unlock_reason get_all_locks
  unlock_reason_past e h = rw e (deactivate_where_expired clock reason s.locks h)
