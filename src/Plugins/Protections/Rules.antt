-- ===== src/Plugins/Protections/Rules.antt =====
-- When the protections of freqtrade/plugins/protections lock, and until when.
use freqtrade_llm.Base.{
  ℕ, ◌-◌, ◌*◌, ◌≤◌, ◌<◌, true, Option, none, some, List, [], ◌∷◌, String, if◌then◌else◌, leb,
  is_some, length, ◌≡◌, refl, inl, inr, arith, All, All-select, All-select_of_test, Bool-cases,
  if_both, leb→le, lt→ltb, not_lt→ltb,
}
use freqtrade_llm.Base.Float.{Float}
use freqtrade_llm.Base.Result.{ok}
use freqtrade_llm.Persistence.Trade.{Trade}
use freqtrade_llm.Persistence.Trade.Store.{BtTrades, closed_after}
use freqtrade_llm.Plugins.Protections.{
  IProtection, minute, close_dates, close_key, latest, latest_from, calculate_lock_end,
}
use freqtrade_llm.Plugins.Protections.LockEnd.{HasValidTime, calculate_lock_end-EndsAfter}
use freqtrade_llm.Plugins.Protections.Guards.{
  StoplossGuard, CooldownPeriod, recent_trades, stoploss_trades, stoploss_guard, cooldown_period,
  is_stoploss, lock_of,
}
use freqtrade_llm.Plugins.Protections.Counting.{Picked, IsCounted, stoploss_trades-Picked}

module _ {F : Type 0} where
  -- The trade was closed, after the bound.
  abbrev pub ClosedAfter : ℕ → Trade F → Type 0
  ClosedAfter bound t = (is_some t.close_date ≡ true) × (bound < close_key t)

  length-close_dates :
      (bound : ℕ) (ts : List (Trade F))
      → All (ClosedAfter bound) ts
      → length (close_dates ts) ≡ length ts
  unfolding close_dates
  length-close_dates bound [] h = refl
  length-close_dates bound (t ∷ ts) h = ground (arith, length-close_dates bound ts h.1)

  -- A bound on the dates is a bound on the trades.
  close_key-le :
      (bound last : ℕ) (ts : List (Trade F))
      → All (ClosedAfter bound) ts
      → All (λ d. d ≤ last) (close_dates ts)
      → All (λ t. close_key t ≤ last) ts
  unfolding close_dates
  close_key-le bound last [] h k = tt
  close_key-le bound last (t ∷ ts) h k = ground (arith, close_key-le bound last ts h.1)

  All-key-le_trans :
      (a b : ℕ) (ts : List (Trade F))
      → a ≤ b
      → All (λ t. close_key t ≤ a) ts
      → All (λ t. close_key t ≤ b) ts
  All-key-le_trans a b [] h k = tt
  All-key-le_trans a b (t ∷ ts) h k = (omega arith, All-key-le_trans a b ts h k.1)

  -- The end of the lock that these trades lead to.
  lock_end_of_closed :
      (p : IProtection) (bound : ℕ) (ts : List (Trade F))
      → HasValidTime p.unlock_at
      → All (ClosedAfter bound) ts
      → 0 < length ts
      → (until : ℕ) × (calculate_lock_end p ts ≡ ok until) × All (λ t. close_key t ≤ until) ts
  lock_end_of_closed p bound ts v h k =
      let (last, until, at, ends, e, le, after) =
        calculate_lock_end-EndsAfter p ts v (omega (arith, length-close_dates bound ts h)) in
      (until, e, All-key-le_trans last until ts le (close_key-le bound last ts h ends))

  abbrev later_of : Trade F → Trade F → Trade F
  later_of best t = if leb (close_key best) (close_key t) then t else best

  later_of-ge :
      (best t : Trade F)
      → (close_key best ≤ close_key (later_of best t)) × (close_key t ≤ close_key (later_of best t))
  later_of-ge best t = elim (Bool-cases (leb (close_key best) (close_key t))) [
    | inl e ↦ rw e (leb→le (close_key best) (close_key t) e, omega arith)
    | inr e ↦ rw e (omega arith, ground arith)
  ]

  latest_from_lem :
      (bound : ℕ) (best : Trade F) (ts : List (Trade F))
      → ClosedAfter bound best
      → All (ClosedAfter bound) ts
      → (close_key best ≤ close_key (latest_from best ts))
        × All (λ t. close_key t ≤ close_key (latest_from best ts)) ts
        × ClosedAfter bound (latest_from best ts)
  unfolding latest_from
  latest_from_lem bound best [] h k = (omega arith, tt, h)
  latest_from_lem bound best (t ∷ ts) h k =
      let b = later_of best t in
      let (ge, rest, closed) =
        latest_from_lem bound b ts (if_both (ClosedAfter bound) _ t best k.0 h) k.1 in
      let (a, c) = later_of-ge best t in (omega arith, (omega arith, rest), closed)

  latest_lem :
      (bound : ℕ) (ts : List (Trade F))
      → All (ClosedAfter bound) ts
      → 0 < length ts
      → (t : Trade F) × (latest ts ≡ some t)
        × All (λ u. close_key u ≤ close_key t) ts
        × ClosedAfter bound t
  unfolding latest
  latest_lem bound [] h k = elim k [ ]
  latest_lem bound (t ∷ ts) h k =
      let (ge, rest, closed) = latest_from_lem bound t ts h.0 h.1 in
      (latest_from t ts, refl, (ge, rest), closed)

module _ {F : Type 0} ⦃f : Float F⦄ (s : BtTrades F) (date_now : ℕ) where
  abbrev pub window : IProtection → ℕ
  window p = date_now - p.lookback_period * minute

  recent_trades-ClosedAfter :
      (p : IProtection) (pair : Option String)
      → All (ClosedAfter (window p)) (recent_trades s date_now p pair)
  unfolding recent_trades closed_after
  recent_trades-ClosedAfter p pair =
      All-select_of_test (ClosedAfter (window p)) _ _ (λ t h. (ground arith, ground arith))

  stoploss_trades-ClosedAfter :
      (p : StoplossGuard F) (pair : Option String) (side : String)
      → All (ClosedAfter (window p.base)) (stoploss_trades s date_now p pair side)
  unfolding stoploss_trades
  stoploss_trades-ClosedAfter p pair side =
      let kept =
        All-select (ClosedAfter (window p.base)) (is_stoploss s date_now p) _
          (recent_trades-ClosedAfter p.base pair) in
      if_both (All (ClosedAfter (window p.base))) p.only_per_side _ _
        (All-select (ClosedAfter (window p.base)) _ _ kept) kept

  -- The guard counts those closed trades of the store that were closed within the period it looks back
  -- on, at a stop loss or a liquidation, with a profit below the limit that is not 0, and that are of
  -- the pair and of the side, where it asks for them. With fewer than `trade_limit` of them it does
  -- nothing; otherwise it returns a lock, for the side alone if it counts per side, that ends no
  -- earlier than the last of them was closed. `trade_limit` is positive, and `unlock_at` is a time of
  -- day where it is set.
  pub stoploss_guard_cases :
      (p : StoplossGuard F) (reason : String) (pair : Option String) (side : String)
      → HasValidTime p.base.unlock_at
      → 0 < p.trade_limit
      → (ts : List (Trade F)) × Picked (IsCounted date_now p pair side) s.bt_trades ts
        × (length ts < p.trade_limit → stoploss_guard s date_now p reason pair side ≡ ok none)
        × (p.trade_limit ≤ length ts
            → (until : ℕ) × (stoploss_guard s date_now p reason pair side
                ≡ ok (some (lock_of until reason (if p.only_per_side then side else "*"))))
              × All (λ t. close_key t ≤ until) ts)
  unfolding stoploss_guard
  stoploss_guard_cases p reason pair side v pos =
      let ts = stoploss_trades s date_now p pair side in
      (
        ts,
        stoploss_trades-Picked s date_now p pair side,
        λ few. rw (lt→ltb (length ts) p.trade_limit few),
        λ many.
            let (until, e, ends) =
              lock_end_of_closed p.base (window p.base) ts v
                (stoploss_trades-ClosedAfter p pair side) (omega arith) in
            (until, rw (not_lt→ltb (length ts) p.trade_limit many, e), ends),
      )

  -- The cooldown locks a pair exactly when one of its trades was closed in the window, and until no
  -- earlier than the last of them was closed. `unlock_at` is a time of day where it is set.
  cooldown_period_cases :
      (p : CooldownPeriod) (reason pair : String)
      → HasValidTime p.base.unlock_at
      → let ts = recent_trades s date_now p.base (some pair) in
        (ts ≡ [] → cooldown_period s date_now p reason pair ≡ ok none)
        × (0 < length ts
            → (until : ℕ) × (cooldown_period s date_now p reason pair
                ≡ ok (some (lock_of until reason "*")))
              × All (λ t. close_key t ≤ until) ts)
  unfolding cooldown_period
  cooldown_period_cases p reason pair v =
      let ts = recent_trades s date_now p.base (some pair) in
      (
        λ e. rw (e, cooldown_period) refl,
        λ some_trade.
            let (t, e, last, closed) =
              latest_lem (window p.base) ts (recent_trades-ClosedAfter p.base (some pair))
                some_trade in
            let (until, e', ends) =
              lock_end_of_closed p.base (window p.base) (t ∷ []) v (closed, tt) (omega arith) in
            (
              until,
              rw (e, cooldown_period) (rw e'),
              All-key-le_trans (close_key t) until ts ends.0 last,
            ),
      )
