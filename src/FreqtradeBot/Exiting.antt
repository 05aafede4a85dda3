-- ===== src/FreqtradeBot/Exiting.antt =====
-- freqtrade/freqtradebot.py: how an exit is found and executed. The state is the position and the
-- reasons for which an exit of its trade was executed in this candle. Messages are left out.
pub mod Handling
pub mod Seen
pub mod Staying
pub mod Remaining
use freqtrade_llm.Base.{
  ℕ, Bool, true, false, not, ◌&&◌, ◌||◌, Option, none, some, List, [], ◌∷◌, ◌++◌, String, str_eq,
  if◌then◌else◌, any,
}
use freqtrade_llm.Base.Float.{Float, truthy, truthy?, or_else}
use freqtrade_llm.Base.Result.{Result, ok, err, ◌>>=◌}
use freqtrade_llm.Exchange.Fees.{CcxtOrder}
use freqtrade_llm.Persistence.Order.{Order, OrderSide, buy, sell, stoploss, side_eq}
use freqtrade_llm.Persistence.Order.Updating.{parse_from_ccxt_object}
use freqtrade_llm.Persistence.PairLock.{given}
use freqtrade_llm.Persistence.Trade.{
  Trade, exit_side, has_open_orders, select_order, set_funding_fees,
}
use freqtrade_llm.Persistence.Trade.Profit.{ProfitError, calc_profit_ratio}
use freqtrade_llm.Strategy.{ExitCheckTuple, ExitType, exit_signal, liquidation, none_exit}
use freqtrade_llm.Strategy.Exit.{should_exit}
use freqtrade_llm.Strategy.Signals.{Candle}
use freqtrade_llm.Wallets.{Wallets, Config}
use freqtrade_llm.FreqtradeBot.{Exception, insufficient_funds, other, is_exchange_error}
use freqtrade_llm.FreqtradeBot.Canceling.{cancel_open_orders_of_trade, is_status}
use freqtrade_llm.FreqtradeBot.Orders.{Position, Parts, Act, within, with_trade}
use freqtrade_llm.FreqtradeBot.Orders.Following.{update_trade_state, cancel_stoploss_on_exchange}
use freqtrade_llm.FreqtradeBot.Pricing.{CustomPrice, get_valid_price, safe_exit_amount}

-- `exit_reason_cache` holds what was executed in this candle for the trade.
pub record Leaving (F Db : Type 0) : Type 0 where
  pub position : Position F Db
  pub seen : List String

-- The strategy's answers, the analysed candles, the exchange, and the wallets after an update; `almost`
-- is 0.98.
pub record ExitDesk (F : Type 0) : Type 0 where
  pub config : Config F
  pub custom_price_max_distance_ratio : F
  pub almost : F
  pub wallets : Wallets F
  pub timeframe : String
  pub analyzed : String → List Candle
  pub get_pair_base_currency : String → String
  pub get_funding_fees : Trade F → Option F
  pub custom_exit_price : Trade F → F → F → String → CustomPrice F
  pub confirm_trade_exit : Trade F → F → F → String → Bool
  pub create_order : String → OrderSide → F → F → F → Result Exception (CcxtOrder F)

abbrev pub is_liquidation : ExitType → Bool
is_liquidation liquidation = true
is_liquidation _ = false

abbrev pub is_exit_signal : ExitType → Bool
is_exit_signal exit_signal = true
is_exit_signal _ = false

abbrev pub exit_flag : ExitType → Bool
exit_flag none_exit = false
exit_flag _ = true

-- `exit_tag or exit_check.exit_reason`
unfoldable pub reason_of : Option String → ExitCheckTuple → String
reason_of none check = check.exit_reason
reason_of (some tag) check = if given (some tag) then tag else check.exit_reason

abbrev pub not_stoploss : OrderSide → Bool
not_stoploss side = not (side_eq side stoploss)

module _ {F P Db : Type 0} ⦃f : Float F⦄ (x : Parts F P Db) (y : ExitDesk F) where
  open f use {zero, eq}

  abbrev pub equals : F → Option F → Bool
  equals a none = false
  equals a (some b) = eq a b

  abbrev pub has_side : OrderSide → Option OrderSide → Bool
  has_side side none = false
  has_side side (some s) = side_eq side s

  abbrev pub is_similar : F → F → OrderSide → Option (Order F) → Bool
  is_similar price amount side none = false
  is_similar price amount side (some o) =
      equals price o.price && has_side side o.side && equals amount o.amount

  -- The flag says that a similar order is open. Otherwise the open orders are canceled.
  unfoldable pub handle_similar_open_order :
      F → F → OrderSide → Position F Db → Act (Position F Db) (Bool × Position F Db)
  handle_similar_open_order price amount side p =
      let canceled : Act (Position F Db) (Bool × Position F Db) =
        cancel_open_orders_of_trade x not_stoploss true p >>= λ q. ok (false, q) in
      if not (has_open_orders p.trade)
      then ok (false, p)
      else if is_similar price amount side (select_order p.trade (some side) (some true) false)
      then ok (true, p)
      else canceled

  -- One order in `handle_insufficient_funds`; an `ExchangeError` is caught.
  abbrev pub unless_exchange_error :
      Act (Position F Db) (Bool × Position F Db) → Act (Position F Db) (Position F Db)
  unless_exchange_error (ok (flag, q)) = ok q
  unless_exchange_error (err (e, q)) = if is_exchange_error e then ok q else err (e, q)

  unfoldable pub refind_order : Order F → Position F Db → Act (Position F Db) (Position F Db)
  refind_order o p =
      let is_stoploss = side_eq o.ft_order_side stoploss in
      let refound : Act (Position F Db) (Position F Db) = unless_exchange_error (
        within (λ e. e) p
          (x.venue.fetch_order_or_stoploss_order o.order_id p.trade.pair is_stoploss)
        >>= λ found. update_trade_state x o.order_id (some found) is_stoploss true p) in
      if o.ft_is_open then refound else ok p

  unfoldable pub handle_insufficient_funds :
      List (Order F) → Position F Db → Act (Position F Db) (Position F Db)
  unfolding refind_order
  handle_insufficient_funds [] p = ok p
  handle_insufficient_funds (o ∷ os) p = refind_order o p >>= λ q. handle_insufficient_funds os q

  abbrev pub Exit : Type 0
  Exit = Result (Exception × Leaving F Db) (Bool × Leaving F Db)

  abbrev pub leaving :
      {A : Type 0} → List String → Act (Position F Db) A → Result (Exception × Leaving F Db) A
  leaving seen (ok a) = ok a
  leaving seen (err (e, p)) = err (e, record { position = p; seen = seen })

  abbrev pub stayed : List String → Position F Db → Exit
  stayed seen p = ok (false, record { position = p; seen = seen })

  -- The trade with its new exit order
  unfoldable pub with_exit_order : CcxtOrder F → String → F → F → Position F Db → Position F Db
  with_exit_order order reason limit amount p =
      let t = p.trade in
      with_trade x p (record t {
        orders = t.orders ++ parse_from_ccxt_object x.clock order (exit_side t) amount limit ∷ [];
        exit_order_status = some "";
        close_rate_requested = some limit;
        exit_reason = some reason;
      })

  -- What follows the creation of the order
  unfoldable pub exit_ordered : CcxtOrder F → String → F → F → List String → Position F Db → Exit
  unfolding with_exit_order
  exit_ordered order reason limit amount seen p =
      let done = with_exit_order order reason limit amount p in
      let known = reason ∷ seen in
      let followed : Exit =
        leaving known (update_trade_state x order.id (some order) false true done) >>= λ (flag, q).
        ok (true, record { position = q; seen = known }) in
      if is_status "closed" order.status || is_status "expired" order.status
      then followed
      else ok (true, record { position = done; seen = known })

  abbrev pub is_insufficient : Exception → Bool
  is_insufficient insufficient_funds = true
  is_insufficient _ = false

  -- The order is created, or the funds do not suffice.
  abbrev pub exit_placed :
      Result Exception (CcxtOrder F) → String → F → F → List String → Position F Db → Exit
  exit_placed (ok order) reason limit amount seen p = exit_ordered order reason limit amount seen p
  exit_placed (err e) reason limit amount seen p =
      let refound : Exit =
        leaving seen (handle_insufficient_funds p.trade.orders p) >>= λ q. stayed seen q in
      if is_insufficient e then refound else err (e, record { position = p; seen = seen })

  -- The order, unless the strategy denies it or a similar one is open
  unfoldable pub exit_confirmed :
      ExitCheckTuple → String → F → F → Option F → List String → Position F Db → Exit
  unfolding exit_ordered handle_similar_open_order handle_insufficient_funds
  exit_confirmed check reason limit amount sub_trade_amt seen p =
      let placed : Exit =
        leaving seen (handle_similar_open_order limit amount (exit_side p.trade) p)
        >>= λ (similar, q).
            if similar
            then stayed seen q
            else exit_placed
                (y.create_order q.trade.pair (exit_side q.trade) amount limit q.trade.leverage)
                reason limit amount seen q in
      if not (is_liquidation check.exit_type)
        && not (truthy? sub_trade_amt)
        && not (y.confirm_trade_exit p.trade amount limit reason)
      then stayed seen p
      else placed

  -- The flag says that an exit order was created.
  unfoldable pub execute_trade_exit :
      F → ExitCheckTuple → Option String → Option F → Leaving F Db → Exit
  unfolding exit_confirmed reason_of
  execute_trade_exit proposed check exit_tag sub_trade_amt s =
      let p = s.position in
      let t = set_funding_fees p.trade (y.get_funding_fees p.trade) in
      let reason = reason_of exit_tag check in
      leaving s.seen (
        within (λ (e : ProfitError). other) (with_trade x p t)
          (calc_profit_ratio x.pr x.py t x.clock proposed none none))
      >>= λ profit.
          let limit =
            get_valid_price y.custom_price_max_distance_ratio
              (y.custom_exit_price t proposed profit reason) proposed in
          leaving s.seen (cancel_stoploss_on_exchange x (with_trade x p t)) >>= λ q.
          leaving s.seen (
            within (λ e. e) q
              (safe_exit_amount y.almost y.config y.wallets (y.get_pair_base_currency q.trade.pair)
                (or_else sub_trade_amt q.trade.amount) q.trade))
          >>= λ (amount, u).
              exit_confirmed check reason limit amount sub_trade_amt s.seen (with_trade x q u)

  -- The tag counts for an exit signal only.
  abbrev pub exit_tag1 : Option String → ExitCheckTuple → Option String
  exit_tag1 exit_tag check = if is_exit_signal check.exit_type then exit_tag else none

  -- An exit that is not tried: it is none, or was executed in this candle and an order is open.
  unfoldable pub is_passed_over : Option String → Leaving F Db → ExitCheckTuple → Bool
  unfolding reason_of
  is_passed_over exit_tag s check =
      not (exit_flag check.exit_type)
      || (has_open_orders s.position.trade
          && any (λ r. str_eq r (reason_of (exit_tag1 exit_tag check) check)) s.seen)

  -- The loop over the exits; the flag says that one was executed.
  unfoldable pub execute_exits : F → Option String → List ExitCheckTuple → Leaving F Db → Exit
  unfolding execute_trade_exit is_passed_over
  execute_exits exit_rate exit_tag [] s = ok (false, s)
  execute_exits exit_rate exit_tag (check ∷ checks) s =
      let next : Leaving F Db → Exit = execute_exits exit_rate exit_tag checks in
      let tried : Exit =
        execute_trade_exit exit_rate check (exit_tag1 exit_tag check) none s >>= λ (exited, u).
        if exited then ok (true, u) else next u in
      if is_passed_over exit_tag s check then next s else tried

  -- `should_exit` also moves the stop loss of the trade.
  unfoldable pub asked_exits : Trade F → F → Bool → Bool → Trade F × List ExitCheckTuple
  asked_exits t rate enter exit_ = should_exit x.pr x.d x.strategy x.callbacks t (record {
    rate = rate;
    current_time = x.clock;
    enter = enter;
    exit_ = exit_;
    low = none;
    high = none;
    force_stoploss = zero;
  })

  -- `_check_and_execute_exit`: the strategy is asked, and its exits are executed.
  unfoldable pub check_and_execute_exit : F → Bool → Bool → Option String → Leaving F Db → Exit
  unfolding asked_exits execute_exits
  check_and_execute_exit exit_rate enter exit_ exit_tag s =
      let (t, exits) = asked_exits s.position.trade exit_rate enter exit_ in
      execute_exits exit_rate exit_tag exits (record s { position = with_trade x s.position t })
