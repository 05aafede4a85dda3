-- ===== src/FreqtradeBot/Entering/Executing.antt =====
-- freqtrade/freqtradebot.py: execute_entry for a new trade, create_trade for a pair, and
-- enter_positions for the whitelist.
use freqtrade_llm.Base.{
  ℕ, ◌+◌, Bool, true, false, not, Option, none, some, List, [], ◌∷◌, ◌++◌, String, str_eq,
  if◌then◌else◌, last?, map,
}
use freqtrade_llm.Base.Float.{Float, truthy}
use freqtrade_llm.Base.Result.{Result, ok, err, ◌>>=◌}
use freqtrade_llm.Exchange.Fees.{CcxtOrder}
use freqtrade_llm.Persistence.Order.{OrderSide, buy, sell}
use freqtrade_llm.Persistence.Order.Updating.{parse_from_ccxt_object}
use freqtrade_llm.Persistence.PairLocks.{is_global_lock}
use freqtrade_llm.Persistence.Trade.{Trade}
use freqtrade_llm.Persistence.Trade.Ledger.{recalc_trade_from_orders}
use freqtrade_llm.Strategy.Signals.{SignalDirection, get_entry_signal, is_pair_locked}
use freqtrade_llm.Wallets.{get_trade_stake_amount}
use freqtrade_llm.FreqtradeBot.{Exception, other, is_dependency}
use freqtrade_llm.FreqtradeBot.Orders.{Position, Parts, Act}
use freqtrade_llm.FreqtradeBot.Pricing.{
  Entry, initial, get_valid_enter_price_and_stake, check_depth_of_market,
}
use freqtrade_llm.FreqtradeBot.Entering.{
  House, EntryDesk, direction, is_short_signal, of_wallets, open_trades, has_free_open_trades,
  place_order, filled_rate, filled_size, new_trade, settle_entry,
}

-- `whitelist.remove(pair)` for the pairs that it has
unfoldable pub remove_pair : String → List String → List String
remove_pair pair [] = []
remove_pair pair (p ∷ ps) = if str_eq p pair then ps else p ∷ remove_pair pair ps

unfoldable pub remove_pairs : List String → List String → List String
unfolding remove_pair
remove_pairs [] whitelist = whitelist
remove_pairs (pair ∷ pairs) whitelist = remove_pairs pairs (remove_pair pair whitelist)

module _ {F P Db : Type 0} ⦃f : Float F⦄ (x : Parts F P Db) (y : EntryDesk F Db) where
  open f use {zero, one, add, mul, div, eq}

  -- A raise before the trade is in the database leaves nothing; afterwards the trade stays.
  abbrev pub Opening : Type 0 → Type 0
  Opening A = Result (Exception × Option (Position F Db)) A

  abbrev pub before {ℓ} :
      {A : Type ℓ} → Result Exception A → Result (Exception × Option (Position F Db)) A
  before (ok a) = ok a
  before (err e) = err (e, none)

  abbrev pub after : Act (Position F Db) (Position F Db) → Opening (Option (Position F Db))
  after (ok p) = ok (some p)
  after (err (e, p)) = err (e, some p)

  abbrev pub side_of : Bool → OrderSide
  side_of is_short = if is_short then sell else buy

  unfoldable pub recalculated : Trade F → Result Exception (Trade F)
  recalculated t = elim (recalc_trade_from_orders x.pr x.d x.py false x.clock t) [
    | ok u ↦ ok u
    | err e ↦ err other
  ]

  -- From the order on
  unfoldable pub add_entry :
      House F Db
      → String
      → Bool
      → Option String
      → Entry F
      → F
      → CcxtOrder F
      → Opening (Option (Position F Db))
  unfolding filled_rate filled_size new_trade settle_entry parse_from_ccxt_object
  add_entry h pair is_short enter_tag e amount order =
      let o =
        parse_from_ccxt_object x.clock order (side_of is_short) amount e.enter_limit_requested in
      before (y.get_fee pair) >>= λ fee.
      let funding = y.get_funding_fees pair (filled_size x y order amount) is_short x.clock in
      let t =
        new_trade x y (y.new_id h.trades) pair is_short enter_tag e
          (filled_rate x y order e.enter_limit_requested) fee funding in
      before (recalculated (record t { orders = o ∷ [] })) >>= λ u.
      after (settle_entry x y order o (record { trade = u; in_database = true; locks = h.locks }))

  abbrev pub add_if_placed :
      House F Db
      → String
      → Bool
      → Option String
      → Entry F
      → F
      → Option (CcxtOrder F)
      → Opening (Option (Position F Db))
  add_if_placed h pair is_short enter_tag e amount none = ok none
  add_if_placed h pair is_short enter_tag e amount (some order) =
      add_entry h pair is_short enter_tag e amount order

  -- `execute_entry` for a new trade: the trade, if an order was created for it
  unfoldable pub execute_entry :
      House F Db → String → F → Bool → Option String → Opening (Option (Position F Db))
  unfolding add_entry place_order
  execute_entry h pair stake is_short enter_tag =
      before (
        get_valid_enter_price_and_stake y.custom_price_max_distance_ratio y.tolerance y.market
          y.callbacks y.config (y.books h.trades) (y.wallets h.trades) pair none stake is_short none
          initial none)
      >>= λ e.
          let amount = mul (div e.stake_amount e.enter_limit_requested) e.leverage in
          let placed : Opening (Option (Position F Db)) =
            before (place_order x y pair (side_of is_short) e amount) >>= λ found.
            add_if_placed h pair is_short enter_tag e amount found in
          if not (truthy e.stake_amount)
          then ok none
          else if not (y.confirm_trade_entry pair amount e.enter_limit_requested)
          then ok none
          else placed

  -- The database with a new trade, unless it was deleted again
  unfoldable pub with_position : House F Db → Option (Position F Db) → House F Db
  with_position h none = h
  with_position h (some p) = record {
    trades = if p.in_database then h.trades ++ p.trade ∷ [] else h.trades;
    locks = p.locks;
  }

  abbrev pub Turn : Type 0
  Turn = Result (Exception × House F Db) (Bool × House F Db)

  abbrev pub entered : House F Db → Opening (Option (Position F Db)) → Turn
  entered h (ok none) = ok (false, h)
  entered h (ok (some p)) = ok (true, with_position h (some p))
  entered h (err (e, o)) = err (e, with_position h o)

  abbrev pub with_house {ℓ} :
      {A : Type ℓ} → House F Db → Result Exception A → Result (Exception × House F Db) A
  with_house h (ok a) = ok a
  with_house h (err e) = err (e, h)

  -- Whether the depth of market lets the entry through
  unfoldable pub is_deep_enough : String → SignalDirection → Result Exception Bool
  unfolding check_depth_of_market
  is_deep_enough pair signal = elim y.bids_to_ask_delta [
    | none ↦ ok true
    | some delta ↦ y.order_book_volumes pair >>= λ (bids, asks).
        ok (check_depth_of_market delta bids asks (not (is_short_signal signal)))
  ]

  abbrev pub nowtime : String → Option ℕ
  nowtime pair = elim (last? (y.analyzed pair)) [ none ↦ none | some row ↦ some row.date ]

  abbrev pub is_locked : House F Db → String → SignalDirection → Bool
  is_locked h pair signal =
      is_pair_locked x.ccxt x.strategy x.clock x.session h.locks y.timeframe pair (nowtime pair)
        (direction signal)

  -- A signal for a pair
  unfoldable pub enter_on_signal : House F Db → String → SignalDirection → Option String → Turn
  unfolding execute_entry with_position is_deep_enough
  enter_on_signal h pair signal enter_tag =
      let entry : F → Turn =
        λ stake. entered h (execute_entry h pair stake (is_short_signal signal) enter_tag) in
      let granted : Turn =
        with_house h (
          of_wallets (
            get_trade_stake_amount y.of_number y.config (y.books h.trades) (y.wallets h.trades)
              y.max_open_trades))
        >>= λ stake. with_house h (is_deep_enough pair signal) >>= λ deep.
            if deep then entry stake else ok (false, h) in
      if is_locked h pair signal then ok (false, h) else granted

  abbrev pub on_signal : House F Db → String → Option SignalDirection × Option String → Turn
  on_signal h pair (none, enter_tag) = ok (false, h)
  on_signal h pair (some signal, enter_tag) = enter_on_signal h pair signal enter_tag

  unfoldable pub create_trade : House F Db → String → Turn
  unfolding has_free_open_trades enter_on_signal
  create_trade h pair =
      if not (has_free_open_trades x y h)
      then ok (false, h)
      else on_signal h pair
          (get_entry_signal x.ccxt x.strategy x.clock y.timeframe (y.analyzed pair))

  -- A `DependencyException` gives up a pair alone.
  abbrev pub unless_dependency : Turn → Turn
  unless_dependency (ok r) = ok r
  unless_dependency (err (e, h)) = if is_dependency e then ok (false, h) else err (e, h)

  abbrev pub plus : Bool → ℕ → ℕ
  plus created n = if created then 1 + n else n

  -- The number of trades that were created
  unfoldable pub create_trades :
      List String → House F Db → Result (Exception × House F Db) (ℕ × House F Db)
  unfolding create_trade
  create_trades [] h = ok (0, h)
  create_trades (pair ∷ pairs) h = unless_dependency (create_trade h pair) >>= λ (created, g).
      create_trades pairs g >>= λ (n, last). ok (plus created n, last)

  unfoldable pub enter_positions :
      List String → House F Db → Result (Exception × House F Db) (ℕ × House F Db)
  unfolding create_trades remove_pairs open_trades
  enter_positions active_pair_whitelist h =
      let created =
        create_trades (remove_pairs (map (λ t. t.pair) (open_trades x y h)) active_pair_whitelist)
          h in
      if is_global_lock x.session x.clock h.locks none "*" then ok (0, h) else created
