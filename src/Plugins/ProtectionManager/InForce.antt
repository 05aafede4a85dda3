-- ===== src/Plugins/ProtectionManager/InForce.antt =====
-- After freqtrade/plugins/protectionmanager.py has run, every stop that a protection asked for is in
-- force.
use mathlib.Core.Path.{subst}
use freqtrade_llm.Base.{
  ℕ, ◌*◌, ◌≤◌, true, not, Option, none, some, List, [], ◌∷◌, ◌++◌, String, ◌≡◌, refl, sym, ◌∙◌, inl,
  inr, arith, if_both, Bool-cases,
}
use freqtrade_llm.Base.Float.{Float}
use freqtrade_llm.Base.Result.{ok, >>=-eq-ok}
use freqtrade_llm.Exchange.Timeframe.{Ccxt, CcxtLaws, round_up, dt_ts, last_second}
use freqtrade_llm.Persistence.PairLock.{PairLock, Session, SessionLaws}
use freqtrade_llm.Persistence.PairLocks.{PairLocks, is_global_lock}
use freqtrade_llm.Persistence.PairLocks.Effects.{
  is_global_lock-lock_pair, blocks_pair-lock_pair, timeframe-lock_pair,
}
use freqtrade_llm.Persistence.Trade.Store.{BtTrades}
use freqtrade_llm.Plugins.Protections.{ProtectionReturn}
use freqtrade_llm.Plugins.ProtectionManager.{
  Protection, Texts, Loop, has_global_stop, handler_global_stop, lock_globally, global_stop_loop,
  global_stop,
}

-- The dates of the lock lie in the range that `dt_from_ts` reads as seconds.
abbrev pub InRange : Ccxt → String → ℕ → Type 0
InRange c tf until = c.round_timeframe tf (dt_ts until) round_up ≤ 1000 * last_second

module _ {Db : Type 0} (session : Session Db) (c : Ccxt) (clock now : ℕ)
    (laws : SessionLaws session) (times : CcxtLaws c) where
  -- All pairs are locked at a time, for a side.
  abbrev IsGlobal : ℕ → String → PairLocks Db → Type 0
  IsGlobal t side s = is_global_lock session clock s (some t) side ≡ true

  -- Nothing is unlocked, and the timeframe stays.
  abbrev KeepsGlobal : ℕ → String → PairLocks Db → Loop Db → Type 0
  KeepsGlobal t side s after =
      (IsGlobal t side s → IsGlobal t side after.1) × (after.1.timeframe ≡ s.timeframe)

  lock_globally-KeepsGlobal :
      (ret : Option ProtectionReturn) (r : Option PairLock) (s : PairLocks Db) (t : ℕ)
      (side : String)
      → KeepsGlobal t side s (lock_globally session c clock now ret (r, s))
  unfolding lock_globally
  lock_globally-KeepsGlobal none r s t side = (λ h. h, refl)
  lock_globally-KeepsGlobal (some ret) r s t side =
      let until = ret.until in
      if_both (KeepsGlobal t side s)
        (not (is_global_lock session clock s (some until) ret.lock_side)) _ _
        (
          λ h. ground (
            arith,
            is_global_lock-lock_pair session c clock s "*" until ret.reason (some now) ret.lock_side
                laws clock t side,
          ),
          timeframe-lock_pair session c clock s "*" until ret.reason (some now) ret.lock_side,
        )
        (λ h. h, refl)

  -- What was asked for is locked.
  lock_globally-IsGlobal :
      (ret : ProtectionReturn) (r : Option PairLock) (s : PairLocks Db)
      → InRange c s.timeframe ret.until
      → IsGlobal ret.until ret.lock_side (lock_globally session c clock now (some ret) (r, s)).1
  unfolding lock_globally
  lock_globally-IsGlobal ret r s h =
      elim (Bool-cases (is_global_lock session clock s (some ret.until) ret.lock_side)) [
        | inl e ↦ rw (e, lock_globally) e
        | inr e ↦
            rw (e, lock_globally)
              (ground (
                arith,
                is_global_lock-lock_pair session c clock s "*" ret.until ret.reason (some now)
                    ret.lock_side laws clock ret.until ret.lock_side,
                blocks_pair-lock_pair session c clock s "*" ret.until ret.reason (some now)
                    ret.lock_side times h,
              ))
      ]

module _ {F Db : Type 0} ⦃f : Float F⦄ (x : Texts F) (trades : BtTrades F) (session : Session Db)
    (c : Ccxt) (clock now : ℕ) (laws : SessionLaws session) (times : CcxtLaws c) where
  abbrev Keeps : ℕ → String → PairLocks Db → Loop Db → Type 0
  Keeps t sd s after =
      (is_global_lock session clock s (some t) sd ≡ true
        → is_global_lock session clock after.1 (some t) sd ≡ true)
      × (after.1.timeframe ≡ s.timeframe)

  Keeps-trans :
      (t : ℕ) (sd : String) (s : PairLocks Db) (l m : Loop Db)
      → Keeps t sd s l
      → Keeps t sd l.1 m
      → Keeps t sd s m
  Keeps-trans t sd s l m h k = (λ e. k.0 (h.0 e), k.1 ∙ h.1)

  global_stop_loop-Keeps :
      (hs : List (Protection F)) (side : String) (l l' : Loop Db) (t : ℕ) (sd : String)
      → global_stop_loop x trades session c clock now hs side l ≡ ok l'
      → Keeps t sd l.1 l'
  unfolding global_stop_loop
  global_stop_loop-Keeps [] side l l' t sd e = ground arith
  global_stop_loop-Keeps (h ∷ hs) side (r, s) l' t sd e = elim (Bool-cases (has_global_stop h)) [
    | inr skip ↦ global_stop_loop-Keeps hs side (r, s) l' t sd (rw skip at e)
    | inl stop ↦
        let (ret, _, next) =
          >>=-eq-ok (handler_global_stop x trades now h side)
            (λ lock.
              global_stop_loop x trades session c clock now hs side
                (lock_globally session c clock now lock (r, s)))
            (rw stop at e) in
        Keeps-trans t sd s (lock_globally session c clock now ret (r, s)) l'
          (lock_globally-KeepsGlobal session c clock now laws times ret r s t sd)
          (global_stop_loop-Keeps hs side (lock_globally session c clock now ret (r, s)) l' t sd
            next)
  ]

  global_stop_loop-IsGlobal :
      (hs rest : List (Protection F)) (h : Protection F) (side : String) (l l' : Loop Db)
      (ret : ProtectionReturn)
      → global_stop_loop x trades session c clock now (hs ++ h ∷ rest) side l ≡ ok l'
      → has_global_stop h ≡ true
      → handler_global_stop x trades now h side ≡ ok (some ret)
      → InRange c l.1.timeframe ret.until
      → is_global_lock session clock l'.1 (some ret.until) ret.lock_side ≡ true
  unfolding global_stop_loop
  global_stop_loop-IsGlobal [] rest h side (r, s) l' ret e stop answer range =
      (global_stop_loop-Keeps rest side (lock_globally session c clock now (some ret) (r, s)) l'
          ret.until ret.lock_side (rw (stop, answer) at e)).0
        (lock_globally-IsGlobal session c clock now laws times ret r s range)
  global_stop_loop-IsGlobal (g ∷ hs) rest h side (r, s) l' ret e stop answer range =
      elim (Bool-cases (has_global_stop g)) [
        | inr skip ↦
            global_stop_loop-IsGlobal hs rest h side (r, s) l' ret (rw skip at e) stop answer range
        | inl go ↦
            let (first, _, next) =
              >>=-eq-ok (handler_global_stop x trades now g side)
                (λ lock.
                  global_stop_loop x trades session c clock now (hs ++ h ∷ rest) side
                    (lock_globally session c clock now lock (r, s)))
                (rw go at e) in
            global_stop_loop-IsGlobal hs rest h side
              (lock_globally session c clock now first (r, s)) l' ret next stop answer
              (subst (λ tf. InRange c tf ret.until)
                (sym
                  (lock_globally-KeepsGlobal session c clock now laws times first r s ret.until
                    side).1)
                range)
      ]

  -- When `global_stop` returns, all pairs are locked at the time and for the side that each of its
  -- protections asked for, wherever the protection stands among the handlers. The time lies in the
  -- range of `dt_from_ts`.
  pub global_stop_in_force :
      (hs rest : List (Protection F)) (h : Protection F) (side : String) (s : PairLocks Db)
      (after : Loop Db) (ret : ProtectionReturn)
      → global_stop x trades session c clock now (hs ++ h ∷ rest) side s ≡ ok after
      → has_global_stop h ≡ true
      → handler_global_stop x trades now h side ≡ ok (some ret)
      → InRange c s.timeframe ret.until
      → is_global_lock session clock after.1 (some ret.until) ret.lock_side ≡ true
  unfolding global_stop
  global_stop_in_force hs rest h side s after ret =
      global_stop_loop-IsGlobal hs rest h side (none, s) after ret
