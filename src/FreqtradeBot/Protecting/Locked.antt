-- ===== src/FreqtradeBot/Protecting/Locked.antt =====
-- What is locked after `handle_protections` in freqtrade/freqtradebot.py.
use mathlib.Core.Path.{subst}
use freqtrade_llm.Base.{
  ℕ, true, not, Option, none, some, List, [], ◌∷◌, ◌++◌, String, ◌≡◌, ◌≢◌, sym, inl, inr, arith,
  if_both, Bool-cases,
}
use freqtrade_llm.Base.Float.{Float}
use freqtrade_llm.Base.Result.{ok, >>=-eq-ok}
use freqtrade_llm.Exchange.Timeframe.{Ccxt, CcxtLaws}
use freqtrade_llm.Persistence.PairLock.{PairLock, Session, SessionLaws}
use freqtrade_llm.Persistence.PairLocks.{PairLocks, is_pair_locked, is_global_lock}
use freqtrade_llm.Persistence.PairLocks.Effects.{
  is_pair_locked-lock_pair, blocks_pair-lock_pair, timeframe-lock_pair,
}
use freqtrade_llm.Persistence.Trade.Store.{BtTrades}
use freqtrade_llm.Plugins.Protections.{ProtectionReturn}
use freqtrade_llm.Plugins.ProtectionManager.{
  Protection, Texts, Loop, has_global_stop, has_local_stop, handler_global_stop,
  handler_stop_per_pair, lock_globally, global_stop_loop, global_stop, stop_per_pair,
}
use freqtrade_llm.Plugins.ProtectionManager.InForce.{InRange, global_stop_in_force}
use freqtrade_llm.Plugins.ProtectionManager.PairInForce.{
  stop_per_pair_loop-Keeps, stop_per_pair_in_force,
}
use freqtrade_llm.FreqtradeBot.Protecting.{Protected, auto_lock, handle_protections}

module _ {F Db : Type 0} ⦃f : Float F⦄ (x : Texts F) (trades : BtTrades F) (session : Session Db)
    (c : Ccxt) (clock : ℕ) (pair : String) (named : pair ≢ "") (laws : SessionLaws session)
    (times : CcxtLaws c) where
  -- A stop of all pairs unlocks no pair.
  lock_globally-keeps_pair :
      (ret : Option ProtectionReturn) (r : Option PairLock) (s : PairLocks Db) (t : ℕ)
      (side : String)
      → is_pair_locked session clock s pair (some t) side ≡ true
      → is_pair_locked session clock
          (lock_globally session c clock clock ret (r, s)).1
          pair
          (some t)
          side
        ≡ true
  unfolding lock_globally
  lock_globally-keeps_pair none r s t side h = h
  lock_globally-keeps_pair (some ret) r s t side h =
      if_both (λ (l : Loop Db). is_pair_locked session clock l.1 pair (some t) side ≡ true)
        (not (is_global_lock session clock s (some ret.until) ret.lock_side)) _ _
        (ground (
          arith,
          is_pair_locked-lock_pair session c clock s "*" ret.until ret.reason (some clock)
              ret.lock_side laws clock pair t side named,
        ))
        h

  global_stop_loop-keeps_pair :
      (hs : List (Protection F)) (sd : String) (l l' : Loop Db) (t : ℕ) (side : String)
      → global_stop_loop x trades session c clock clock hs sd l ≡ ok l'
      → is_pair_locked session clock l.1 pair (some t) side ≡ true
      → is_pair_locked session clock l'.1 pair (some t) side ≡ true
  unfolding global_stop_loop
  global_stop_loop-keeps_pair [] sd l l' t side e k = ground arith
  global_stop_loop-keeps_pair (h ∷ hs) sd (r, s) l' t side e k =
      elim (Bool-cases (has_global_stop h)) [
        | inr skip ↦ global_stop_loop-keeps_pair hs sd (r, s) l' t side (rw skip at e) k
        | inl stop ↦
            let (ret, _, next) =
              >>=-eq-ok (handler_global_stop x trades clock h sd)
                (λ lock.
                  global_stop_loop x trades session c clock clock hs sd
                    (lock_globally session c clock clock lock (r, s)))
                (rw stop at e) in
            global_stop_loop-keeps_pair hs sd (lock_globally session c clock clock ret (r, s)) l' t
              side next (lock_globally-keeps_pair ret r s t side k)
      ]

  auto_lock-locks :
      (side : String) (s : PairLocks Db)
      → InRange c s.timeframe clock
      → is_pair_locked session clock (auto_lock session c clock pair side s) pair (some clock) side
        ≡ true
  unfolding auto_lock
  auto_lock-locks side s range = ground (
    arith,
    is_pair_locked-lock_pair session c clock s pair clock (some "Auto lock") none side laws clock
        pair clock side named,
    blocks_pair-lock_pair session c clock s pair clock (some "Auto lock") none side times range,
  )

  -- `handle_protections` is the automatic lock, the stops of the pair, and those of all pairs.
  parts :
      (handlers : List (Protection F)) (side : String) (s : PairLocks Db) (after : Protected Db)
      → handle_protections x trades session c clock handlers pair side s ≡ ok after
      → (local : Loop Db) × (stop_per_pair x trades session c clock clock handlers pair side
            (auto_lock session c clock pair side s)
          ≡ ok local)
        × (whole : Loop Db) × (global_stop x trades session c clock clock handlers side local.1
            ≡ ok whole)
        × (whole.1 ≡ after.locks)
  unfolding handle_protections
  parts handlers side s after e =
      let (local, first, rest) =
        >>=-eq-ok
          (stop_per_pair x trades session c clock clock handlers pair side
            (auto_lock session c clock pair side s))
          _ e in
      let (whole, second, last) =
        >>=-eq-ok (global_stop x trades session c clock clock handlers side local.1) _ rest in
      (local, first, whole, second, ground arith)

  -- What is locked for the pair after the stops of the pair stays locked.
  after_local :
      (handlers : List (Protection F)) (side : String) (l whole : Loop Db) (t : ℕ) (sd : String)
      → global_stop x trades session c clock clock handlers side l.1 ≡ ok whole
      → is_pair_locked session clock l.1 pair (some t) sd ≡ true
      → is_pair_locked session clock whole.1 pair (some t) sd ≡ true
  unfolding global_stop
  after_local handlers side l whole t sd e =
      global_stop_loop-keeps_pair handlers side (none, l.1) whole t sd e

  -- After an exit was handled, the pair is locked for the side at that moment, whatever the
  -- protections do. The pair is not the empty text, and the time lies in the range of `dt_from_ts`.
  pub handle_protections-is_pair_locked :
      (handlers : List (Protection F)) (side : String) (s : PairLocks Db) (after : Protected Db)
      → InRange c s.timeframe clock
      → handle_protections x trades session c clock handlers pair side s ≡ ok after
      → is_pair_locked session clock after.locks pair (some clock) side ≡ true
  unfolding stop_per_pair
  handle_protections-is_pair_locked handlers side s after range e =
      let (local, first, whole, second, same) = parts handlers side s after e in
      subst (λ (l : PairLocks Db). is_pair_locked session clock l pair (some clock) side ≡ true)
        same
        (after_local handlers side local whole clock side second (
          (stop_per_pair_loop-Keeps x trades session c clock clock pair named laws times handlers
              side (none, auto_lock session c clock pair side s) local clock side first).0
            (auto_lock-locks side s range)))

  in_range_after_auto_lock :
      (side : String) (s : PairLocks Db) (until : ℕ)
      → InRange c s.timeframe until
      → InRange c (auto_lock session c clock pair side s).timeframe until
  unfolding auto_lock
  in_range_after_auto_lock side s until =
      subst (λ tf. InRange c tf until)
        (sym (timeframe-lock_pair session c clock s pair clock (some "Auto lock") none side))

  timeframe_after_local :
      (handlers : List (Protection F)) (side : String) (s : PairLocks Db) (local : Loop Db)
      → stop_per_pair x trades session c clock clock handlers pair side s ≡ ok local
      → local.1.timeframe ≡ s.timeframe
  unfolding stop_per_pair
  timeframe_after_local handlers side s local e =
      (stop_per_pair_loop-Keeps x trades session c clock clock pair named laws times handlers side
        (none, s) local clock side e).1

  -- After an exit was handled, all that its protections asked for is in force together: the pair is
  -- locked at the time and for the side of each stop of the pair, and all pairs are at those of each
  -- global stop. The pair is not the empty text, and the times lie in the range of `dt_from_ts`.
  pub handle_protections_in_force :
      (hs rest : List (Protection F)) (h : Protection F) (side : String) (s : PairLocks Db)
      (after : Protected Db) (ret : ProtectionReturn)
      → handle_protections x trades session c clock (hs ++ h ∷ rest) pair side s ≡ ok after
      → InRange c s.timeframe ret.until
      → (has_local_stop h ≡ true
          → handler_stop_per_pair x trades clock h pair side ≡ ok (some ret)
          → is_pair_locked session clock after.locks pair (some ret.until) ret.lock_side ≡ true)
        × (has_global_stop h ≡ true
            → handler_global_stop x trades clock h side ≡ ok (some ret)
            → is_global_lock session clock after.locks (some ret.until) ret.lock_side ≡ true)
  handle_protections_in_force hs rest h side s after ret e range =
      let (local, first, whole, second, same) = parts (hs ++ h ∷ rest) side s after e in
      let locked = auto_lock session c clock pair side s in
      let at_first = in_range_after_auto_lock side s ret.until range in
      (
        λ stop answer.
            subst
              (λ (l : PairLocks Db).
                is_pair_locked session clock l pair (some ret.until) ret.lock_side ≡ true)
              same
              (after_local (hs ++ h ∷ rest) side local whole ret.until ret.lock_side second (
                stop_per_pair_in_force x trades session c clock clock pair named laws times hs rest
                  h side locked local ret first stop answer at_first)),
        λ stop answer.
            subst
              (λ (l : PairLocks Db).
                is_global_lock session clock l (some ret.until) ret.lock_side ≡ true)
              same
              (global_stop_in_force x trades session c clock clock laws times hs rest h side local.1
                whole ret second stop answer
                (subst (λ tf. InRange c tf ret.until)
                  (sym (timeframe_after_local (hs ++ h ∷ rest) side locked local first)) at_first)),
      )
