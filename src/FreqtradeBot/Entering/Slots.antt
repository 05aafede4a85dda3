-- ===== src/FreqtradeBot/Entering/Slots.antt =====
-- The slots of open trades when freqtrade/freqtradebot.py enters positions.
use freqtrade_llm.Base.{
  ℕ, ◌+◌, ◌-◌, ◌≤◌, ◌<◌, ◌≡◌, true, false, not, Option, none, some, List, [], ◌∷◌, ◌++◌, String,
  ltb, select, length, arith, if_both, if_cases, length-append, select-append, map,
}
use freqtrade_llm.Base.Float.{Float}
use freqtrade_llm.Base.Result.{Result, ok, err, ◌>>=◌}
use freqtrade_llm.Persistence.PairLocks.{is_global_lock}
use freqtrade_llm.Persistence.Trade.{Trade}
use freqtrade_llm.Strategy.Signals.{SignalDirection}
use freqtrade_llm.Wallets.{get_trade_stake_amount}
use freqtrade_llm.FreqtradeBot.{Exception, is_dependency}
use freqtrade_llm.FreqtradeBot.Orders.{Position, Parts}
use freqtrade_llm.FreqtradeBot.Entering.{
  House, EntryDesk, open_trades, has_free_open_trades, of_wallets, is_short_signal,
}
use freqtrade_llm.FreqtradeBot.Entering.Executing.{
  Opening, Turn, remove_pairs, execute_entry, with_position, entered, with_house, is_deep_enough,
  is_locked, enter_on_signal, on_signal, create_trade, unless_dependency, create_trades,
  enter_positions,
}

module _ {F P Db : Type 0} ⦃f : Float F⦄ (x : Parts F P Db) (y : EntryDesk F Db) (n : ℕ) where
  -- At most n trades are open.
  unfoldable pub IsWithin : House F Db → Type 0
  IsWithin h = length (open_trades x y h) ≤ n

  -- What is returned, and what a raise leaves
  abbrev pub Holds : {A : Type 0} → Result (Exception × House F Db) (A × House F Db) → Type 0
  Holds (ok (a, g)) = IsWithin g
  Holds (err (e, g)) = IsWithin g

  open_append :
      (t : Trade F) (ts : List (Trade F))
      → length (select (λ u. u.is_open) (ts ++ t ∷ [])) ≤ 1 + length (select (λ u. u.is_open) ts)
  unfolding select
  open_append t ts = ground (
    arith,
    select-append (λ u. u.is_open) ts (t ∷ []),
    length-append (select (λ u. u.is_open) ts) (select (λ u. u.is_open) (t ∷ [])),
  )

  with_position-IsWithin :
      (h : House F Db) (o : Option (Position F Db))
      → length (open_trades x y h) < n
      → IsWithin (with_position x y h o)
  unfolding with_position IsWithin open_trades
  with_position-IsWithin h none k = omega arith
  with_position-IsWithin h (some p) k =
      if_both (λ (ts : List (Trade F)). length (select (λ t. t.is_open) ts) ≤ n) p.in_database _ _
        (omega (arith, open_append p.trade h.trades)) (omega arith)

  below-IsWithin : (h : House F Db) → length (open_trades x y h) < n → IsWithin h
  unfolding IsWithin
  below-IsWithin h k = omega arith

  entered-Holds :
      (h : House F Db) (r : Opening x y (Option (Position F Db)))
      → length (open_trades x y h) < n
      → Holds (entered x y h r)
  entered-Holds h (ok none) k = below-IsWithin h k
  entered-Holds h (ok (some p)) k = with_position-IsWithin h (some p) k
  entered-Holds h (err (e, o)) k = with_position-IsWithin h o k

  with_house-Holds :
      {A B : Type 0} (h : House F Db) (r : Result Exception A)
      (k : A → Result (Exception × House F Db) (B × House F Db))
      → IsWithin h
      → ((a : A) → Holds (k a))
      → Holds (with_house x y h r >>= k)
  with_house-Holds h (ok a) k w n = n a
  with_house-Holds h (err e) k w n = w

  enter_on_signal-Holds :
      (h : House F Db) (pair : String) (signal : SignalDirection) (tag : Option String)
      → length (open_trades x y h) < n
      → Holds (enter_on_signal x y h pair signal tag)
  unfolding enter_on_signal
  enter_on_signal-Holds h pair signal tag k =
      let within_slots = below-IsWithin h k in
      let kept : Turn x y = ok (false, h) in
      if_both Holds (is_locked x y h pair signal) kept _ within_slots (
        with_house-Holds h
          (of_wallets (
            get_trade_stake_amount y.of_number y.config (y.books h.trades) (y.wallets h.trades)
              y.max_open_trades))
          _ within_slots
          λ stake. with_house-Holds h (is_deep_enough x y pair signal) _ within_slots λ deep.
            if_both Holds deep
              (entered x y h (execute_entry x y h pair stake (is_short_signal signal) tag)) kept
              (entered-Holds h (execute_entry x y h pair stake (is_short_signal signal) tag) k)
              within_slots)

  on_signal-Holds :
      (h : House F Db) (pair : String) (s : Option SignalDirection × Option String)
      → length (open_trades x y h) < n
      → Holds (on_signal x y h pair s)
  on_signal-Holds h pair (none, tag) k = below-IsWithin h k
  on_signal-Holds h pair (some signal, tag) k = enter_on_signal-Holds h pair signal tag k

  module _ (limit : y.max_open_trades ≡ some n) where
    free-below :
        (h : House F Db) → has_free_open_trades x y h ≡ true → length (open_trades x y h) < n
    unfolding has_free_open_trades
    free-below h e = slot_left (rw limit at e)
      where
        slot_left : ltb 0 (n - length (open_trades x y h)) ≡ true → length (open_trades x y h) < n
        slot_left k = ground arith

    create_trade-Holds :
        (h : House F Db) (pair : String) → IsWithin h → Holds (create_trade x y h pair)
    unfolding create_trade
    create_trade-Holds h pair w =
        let kept : Turn x y = ok (false, h) in
        if_cases Holds (not (has_free_open_trades x y h)) kept _ (λ e. w)
          (λ e. on_signal-Holds h pair _ (free-below h (ground arith)))

    unless_dependency-Holds : (r : Turn x y) → Holds r → Holds (unless_dependency x y r)
    unless_dependency-Holds (ok r) w = w
    unless_dependency-Holds (err (e, g)) w =
        let kept : Turn x y = ok (false, g) in if_both Holds (is_dependency e) kept (err (e, g)) w w

    Holds-bind :
        {A B : Type 0} (r : Result (Exception × House F Db) (A × House F Db))
        (k : A × House F Db → Result (Exception × House F Db) (B × House F Db))
        → Holds r
        → ((a : A) (g : House F Db) → IsWithin g → Holds (k (a, g)))
        → Holds (r >>= k)
    Holds-bind (ok (a, g)) k w n = n a g w
    Holds-bind (err (e, g)) k w n = w

    create_trades-Holds :
        (pairs : List String) (h : House F Db) → IsWithin h → Holds (create_trades x y pairs h)
    unfolding create_trades
    create_trades-Holds [] h w = w
    create_trades-Holds (pair ∷ pairs) h w =
        Holds-bind (unless_dependency x y (create_trade x y h pair)) _
          (unless_dependency-Holds (create_trade x y h pair) (create_trade-Holds h pair w))
          λ created g v.
            Holds-bind (create_trades x y pairs g) _ (create_trades-Holds pairs g v) (λ m last u. u)

    -- If no more than `max_open_trades` trades are open, then no more are when entering positions
    -- returns, and also when it raises.
    pub enter_positions-IsWithin :
        (whitelist : List String) (h : House F Db)
        → IsWithin h
        → Holds (enter_positions x y whitelist h)
    unfolding enter_positions
    enter_positions-IsWithin whitelist h w =
        let kept : Result (Exception × House F Db) (ℕ × House F Db) = ok (0, h) in
        if_both Holds (is_global_lock x.session x.clock h.locks none "*") kept _ w
          (create_trades-Holds (remove_pairs (map (λ t. t.pair) (open_trades x y h)) whitelist) h w)
