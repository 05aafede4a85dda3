-- ===== src/Plugins/ProtectionManager/PairInForce.antt =====
-- The stops of single pairs in freqtrade/plugins/protectionmanager.py.
use mathlib.Core.Path.{subst}
use freqtrade_llm.Base.{
  ℕ, true, not, Option, none, some, List, [], ◌∷◌, ◌++◌, String, ◌≡◌, ◌≢◌, refl, sym, ◌∙◌, inl, inr,
  arith, if_both, Bool-cases,
}
use freqtrade_llm.Base.Float.{Float}
use freqtrade_llm.Base.Result.{ok, >>=-eq-ok}
use freqtrade_llm.Exchange.Timeframe.{Ccxt, CcxtLaws}
use freqtrade_llm.Persistence.PairLock.{PairLock, Session, SessionLaws}
use freqtrade_llm.Persistence.PairLocks.{PairLocks, is_pair_locked}
use freqtrade_llm.Persistence.PairLocks.Effects.{
  is_pair_locked-lock_pair, blocks_pair-lock_pair, timeframe-lock_pair,
}
use freqtrade_llm.Persistence.Trade.Store.{BtTrades}
use freqtrade_llm.Plugins.Protections.{ProtectionReturn}
use freqtrade_llm.Plugins.ProtectionManager.InForce.{InRange}
use freqtrade_llm.Plugins.ProtectionManager.{
  Protection, Texts, Loop, has_local_stop, handler_stop_per_pair, lock_locally, stop_per_pair_loop,
  stop_per_pair,
}

module _ {Db : Type 0} (session : Session Db) (c : Ccxt) (clock now : ℕ) (pair : String)
    (named : pair ≢ "") (laws : SessionLaws session) (times : CcxtLaws c) where
  -- The pair is locked at a time, for a side.
  abbrev IsHeld : ℕ → String → PairLocks Db → Type 0
  IsHeld t side s = is_pair_locked session clock s pair (some t) side ≡ true

  -- Nothing is unlocked, and the timeframe stays.
  abbrev KeepsHeld : ℕ → String → PairLocks Db → Loop Db → Type 0
  KeepsHeld t side s after =
      (IsHeld t side s → IsHeld t side after.1) × (after.1.timeframe ≡ s.timeframe)

  lock_locally-KeepsHeld :
      (ret : Option ProtectionReturn) (r : Option PairLock) (s : PairLocks Db) (t : ℕ)
      (side : String)
      → KeepsHeld t side s (lock_locally session c clock now pair ret (r, s))
  unfolding lock_locally
  lock_locally-KeepsHeld none r s t side = (λ h. h, refl)
  lock_locally-KeepsHeld (some ret) r s t side =
      let until = ret.until in
      if_both (KeepsHeld t side s)
        (not (is_pair_locked session clock s pair (some until) ret.lock_side)) _ _
        (
          λ h. ground (
            arith,
            is_pair_locked-lock_pair session c clock s pair until ret.reason (some now)
                ret.lock_side laws clock pair t side named,
          ),
          timeframe-lock_pair session c clock s pair until ret.reason (some now) ret.lock_side,
        )
        (λ h. h, refl)

  -- What was asked for is locked.
  lock_locally-IsHeld :
      (ret : ProtectionReturn) (r : Option PairLock) (s : PairLocks Db)
      → InRange c s.timeframe ret.until
      → IsHeld ret.until ret.lock_side (lock_locally session c clock now pair (some ret) (r, s)).1
  unfolding lock_locally
  lock_locally-IsHeld ret r s h =
      elim (Bool-cases (is_pair_locked session clock s pair (some ret.until) ret.lock_side)) [
        | inl e ↦ rw (e, lock_locally) e
        | inr e ↦
            rw (e, lock_locally)
              (ground (
                arith,
                is_pair_locked-lock_pair session c clock s pair ret.until ret.reason (some now)
                    ret.lock_side laws clock pair ret.until ret.lock_side named,
                blocks_pair-lock_pair session c clock s pair ret.until ret.reason (some now)
                    ret.lock_side times h,
              ))
      ]

module _ {F Db : Type 0} ⦃f : Float F⦄ (x : Texts F) (trades : BtTrades F) (session : Session Db)
    (c : Ccxt) (clock now : ℕ) (pair : String) (named : pair ≢ "") (laws : SessionLaws session)
    (times : CcxtLaws c) where
  abbrev pub Keeps : ℕ → String → PairLocks Db → Loop Db → Type 0
  Keeps t sd s after =
      (is_pair_locked session clock s pair (some t) sd ≡ true
        → is_pair_locked session clock after.1 pair (some t) sd ≡ true)
      × (after.1.timeframe ≡ s.timeframe)

  Keeps-trans :
      (t : ℕ) (sd : String) (s : PairLocks Db) (l m : Loop Db)
      → Keeps t sd s l
      → Keeps t sd l.1 m
      → Keeps t sd s m
  Keeps-trans t sd s l m h k = (λ e. k.0 (h.0 e), k.1 ∙ h.1)

  pub stop_per_pair_loop-Keeps :
      (hs : List (Protection F)) (side : String) (l l' : Loop Db) (t : ℕ) (sd : String)
      → stop_per_pair_loop x trades session c clock now hs pair side l ≡ ok l'
      → Keeps t sd l.1 l'
  unfolding stop_per_pair_loop
  stop_per_pair_loop-Keeps [] side l l' t sd e = ground arith
  stop_per_pair_loop-Keeps (h ∷ hs) side (r, s) l' t sd e = elim (Bool-cases (has_local_stop h)) [
    | inr skip ↦ stop_per_pair_loop-Keeps hs side (r, s) l' t sd (rw skip at e)
    | inl stop ↦
        let (ret, _, next) =
          >>=-eq-ok (handler_stop_per_pair x trades now h pair side)
            (λ lock.
              stop_per_pair_loop x trades session c clock now hs pair side
                (lock_locally session c clock now pair lock (r, s)))
            (rw stop at e) in
        Keeps-trans t sd s (lock_locally session c clock now pair ret (r, s)) l'
          (lock_locally-KeepsHeld session c clock now pair named laws times ret r s t sd)
          (stop_per_pair_loop-Keeps hs side (lock_locally session c clock now pair ret (r, s)) l' t
            sd next)
  ]

  stop_per_pair_loop-IsHeld :
      (hs rest : List (Protection F)) (h : Protection F) (side : String) (l l' : Loop Db)
      (ret : ProtectionReturn)
      → stop_per_pair_loop x trades session c clock now (hs ++ h ∷ rest) pair side l ≡ ok l'
      → has_local_stop h ≡ true
      → handler_stop_per_pair x trades now h pair side ≡ ok (some ret)
      → InRange c l.1.timeframe ret.until
      → is_pair_locked session clock l'.1 pair (some ret.until) ret.lock_side ≡ true
  unfolding stop_per_pair_loop
  stop_per_pair_loop-IsHeld [] rest h side (r, s) l' ret e stop answer range =
      (stop_per_pair_loop-Keeps rest side (lock_locally session c clock now pair (some ret) (r, s))
          l' ret.until ret.lock_side (rw (stop, answer) at e)).0
        (lock_locally-IsHeld session c clock now pair named laws times ret r s range)
  stop_per_pair_loop-IsHeld (g ∷ hs) rest h side (r, s) l' ret e stop answer range =
      elim (Bool-cases (has_local_stop g)) [
        | inr skip ↦
            stop_per_pair_loop-IsHeld hs rest h side (r, s) l' ret (rw skip at e) stop answer range
        | inl go ↦
            let (first, _, next) =
              >>=-eq-ok (handler_stop_per_pair x trades now g pair side)
                (λ lock.
                  stop_per_pair_loop x trades session c clock now (hs ++ h ∷ rest) pair side
                    (lock_locally session c clock now pair lock (r, s)))
                (rw go at e) in
            stop_per_pair_loop-IsHeld hs rest h side
              (lock_locally session c clock now pair first (r, s)) l' ret next stop answer
              (subst (λ tf. InRange c tf ret.until)
                (sym
                  (lock_locally-KeepsHeld session c clock now pair named laws times first r s
                    ret.until side).1)
                range)
      ]

  -- When `stop_per_pair` returns, the pair is locked at the time and for the side that each of its
  -- protections asked for, wherever the protection stands among the handlers. The pair is not the
  -- empty text, and the time lies in the range of `dt_from_ts`.
  pub stop_per_pair_in_force :
      (hs rest : List (Protection F)) (h : Protection F) (side : String) (s : PairLocks Db)
      (after : Loop Db) (ret : ProtectionReturn)
      → stop_per_pair x trades session c clock now (hs ++ h ∷ rest) pair side s ≡ ok after
      → has_local_stop h ≡ true
      → handler_stop_per_pair x trades now h pair side ≡ ok (some ret)
      → InRange c s.timeframe ret.until
      → is_pair_locked session clock after.1 pair (some ret.until) ret.lock_side ≡ true
  unfolding stop_per_pair
  stop_per_pair_in_force hs rest h side s after ret =
      stop_per_pair_loop-IsHeld hs rest h side (none, s) after ret
