-- ===== src/FreqtradeBot/Entering/Blocked.antt =====
-- The whitelist of freqtrade/freqtradebot.py, and the pairs of open trades and the locked ones in it.
use freqtrade_llm.Base.{
  ℕ, ◌≡◌, refl, Bool, true, false, not, ◌&&◌, Option, none, some, List, [], ◌∷◌, String, str_eq,
  eq_iff, arith, if_both, All, any, map,
}
use freqtrade_llm.Base.Float.{Float}
use freqtrade_llm.Base.Result.{Result, ok}
use freqtrade_llm.Persistence.PairLocks.{is_global_lock}
use freqtrade_llm.Strategy.Signals.{SignalDirection, get_entry_signal}
use freqtrade_llm.FreqtradeBot.{Exception}
use freqtrade_llm.FreqtradeBot.Orders.{Parts}
use freqtrade_llm.FreqtradeBot.Entering.{House, EntryDesk, open_trades, has_free_open_trades}
use freqtrade_llm.FreqtradeBot.Entering.Executing.{
  Turn, remove_pair, remove_pairs, is_locked, enter_on_signal, on_signal, create_trade,
  create_trades, enter_positions,
}

unfoldable pub contains : String → List String → Bool
contains pair ps = any (λ p. str_eq p pair) ps

-- No pair stands twice in the list.
unfoldable pub IsDistinct : List String → Type 0
unfolding contains
IsDistinct [] = Unit
IsDistinct (p ∷ ps) = (contains p ps ≡ false) × IsDistinct ps

contains-remove_pair :
    (pair removed : String) (ps : List String)
    → IsDistinct ps
    → contains pair (remove_pair removed ps) ≡ (contains pair ps && not (str_eq pair removed))
unfolding contains IsDistinct remove_pair any
contains-remove_pair pair removed [] d = refl
contains-remove_pair pair removed (p ∷ ps) d = ground (
  arith,
  contains-remove_pair pair removed ps d.1,
  eq_iff p removed,
  eq_iff p pair,
  eq_iff pair removed,
  d.0,
)

remove_pair-IsDistinct :
    (removed : String) (ps : List String) → IsDistinct ps → IsDistinct (remove_pair removed ps)
unfolding IsDistinct remove_pair
remove_pair-IsDistinct removed [] d = tt
remove_pair-IsDistinct removed (p ∷ ps) d =
    if_both IsDistinct (str_eq p removed) ps (p ∷ remove_pair removed ps) d.1 (
      ground (arith, contains-remove_pair p removed ps d.1, d.0),
      remove_pair-IsDistinct removed ps d.1,
    )

-- From a list where no pair stands twice, exactly the given pairs are removed.
remove_pairs-contains :
    (pairs whitelist : List String) (pair : String)
    → IsDistinct whitelist
    → contains pair (remove_pairs pairs whitelist)
      ≡ (contains pair whitelist && not (contains pair pairs))
unfolding remove_pairs contains any
remove_pairs-contains [] whitelist pair d = ground arith
remove_pairs-contains (p ∷ ps) whitelist pair d = ground (
  arith,
  remove_pairs-contains ps (remove_pair p whitelist) pair (remove_pair-IsDistinct p whitelist d),
  contains-remove_pair pair p whitelist d,
  eq_iff p pair,
  eq_iff pair p,
)

module _ {ℓ} (Q : String → Type ℓ) where
  All-remove_pair : (pair : String) (ps : List String) → All Q ps → All Q (remove_pair pair ps)
  unfolding remove_pair
  All-remove_pair pair [] h = tt
  All-remove_pair pair (p ∷ ps) h =
      if_both (All Q) (str_eq p pair) ps (p ∷ remove_pair pair ps) h.1
        (h.0, All-remove_pair pair ps h.1)

  All-remove_pairs : (pairs ps : List String) → All Q ps → All Q (remove_pairs pairs ps)
  unfolding remove_pairs
  All-remove_pairs [] ps h = h
  All-remove_pairs (pair ∷ pairs) ps h =
      All-remove_pairs pairs (remove_pair pair ps) (All-remove_pair pair ps h)

module _ {F P Db : Type 0} ⦃f : Float F⦄ (x : Parts F P Db) (y : EntryDesk F Db) where
  -- The pair is locked for both directions.
  unfoldable pub IsBlocked : House F Db → String → Type 0
  IsBlocked h pair = (signal : SignalDirection) → is_locked x y h pair signal ≡ true

  on_signal-blocked :
      (h : House F Db) (pair : String) (s : Option SignalDirection × Option String)
      → IsBlocked h pair
      → on_signal x y h pair s ≡ ok (false, h)
  unfolding IsBlocked enter_on_signal
  on_signal-blocked h pair (none, tag) b = refl
  on_signal-blocked h pair (some signal, tag) b = rw (b signal) refl

  create_trade-blocked :
      (h : House F Db) (pair : String) → IsBlocked h pair → create_trade x y h pair ≡ ok (false, h)
  unfolding create_trade
  create_trade-blocked h pair b =
      let kept : Turn x y = ok (false, h) in
      if_both (λ (r : Turn x y). r ≡ kept) (not (has_free_open_trades x y h)) kept _ refl
        (on_signal-blocked h pair
          (get_entry_signal x.ccxt x.strategy x.clock y.timeframe (y.analyzed pair)) b)

  create_trades-blocked :
      (pairs : List String) (h : House F Db)
      → All (IsBlocked h) pairs
      → create_trades x y pairs h ≡ ok (0, h)
  unfolding create_trades
  create_trades-blocked [] h b = refl
  create_trades-blocked (pair ∷ pairs) h b =
      rw (create_trade-blocked h pair b.0, create_trades-blocked pairs h b.1) refl

  -- If every pair of the whitelist is locked for both directions, then entering positions creates no
  -- trade and changes nothing, whatever the signals are; it does not even ask for a price.
  pub enter_positions-blocked :
      (whitelist : List String) (h : House F Db)
      → All (IsBlocked h) whitelist
      → enter_positions x y whitelist h ≡ ok (0, h)
  unfolding enter_positions
  enter_positions-blocked whitelist h b =
      let kept : Result (Exception × House F Db) (ℕ × House F Db) = ok (0, h) in
      if_both (λ (r : Result (Exception × House F Db) (ℕ × House F Db)). r ≡ kept)
        (is_global_lock x.session x.clock h.locks none "*") kept _ refl
        (create_trades-blocked (remove_pairs (map (λ t. t.pair) (open_trades x y h)) whitelist) h
          (All-remove_pairs (IsBlocked h) (map (λ t. t.pair) (open_trades x y h)) whitelist b))
