-- ===== src/FreqtradeBot/Entering.antt =====
-- freqtrade/freqtradebot.py: what a new entry is made of, its order and its trade. The state is the
-- trades of the database and the pair locks. Messages are left out.
pub mod Executing
pub mod Slots
pub mod Blocked
use freqtrade_llm.Base.{
  ℕ, ◌+◌, ◌-◌, Bool, true, false, not, ◌&&◌, ◌||◌, Option, none, some, List, [], ◌∷◌, ◌++◌, String,
  str_eq, if◌then◌else◌, ltb, leb, ◌==◌, select, length, any, is_empty, last?, map,
}
use freqtrade_llm.Base.Float.{Float, truthy, or_else}
use freqtrade_llm.Base.Float
use freqtrade_llm.Base.Result.{Result, ok, err, ◌>>=◌}
use freqtrade_llm.Exchange.Fees.{CcxtOrder}
use freqtrade_llm.Exchange.Precision.{PrecisionMode}
use freqtrade_llm.Persistence.Order.{Order, OrderSide, buy, sell, is_non_open}
use freqtrade_llm.Persistence.Order.Updating.{parse_from_ccxt_object}
use freqtrade_llm.Persistence.PairLocks.{PairLocks, is_global_lock}
use freqtrade_llm.Persistence.Trade.{Trade, set_funding_fees}
use freqtrade_llm.Persistence.Trade.Ledger.{LedgerError, recalc_trade_from_orders}
use freqtrade_llm.Persistence.Trade.Profit.{recalc_open_trade_value}
use freqtrade_llm.Persistence.Trade.StopLoss.{adjust_stop_loss}
use freqtrade_llm.Strategy.Signals.{
  Candle, SignalDirection, long, short, get_entry_signal, is_pair_locked,
}
use freqtrade_llm.Wallets.{Wallets, Config, Books, DependencyException, get_trade_stake_amount}
use freqtrade_llm.FreqtradeBot.{Exception, dependency, other, is_dependency}
use freqtrade_llm.FreqtradeBot.Canceling.{handle_cancel_enter, is_status}
use freqtrade_llm.FreqtradeBot.Orders.{Position, Parts, Act, within}
use freqtrade_llm.FreqtradeBot.Orders.Following.{update_trade_state}
use freqtrade_llm.FreqtradeBot.Pricing.{
  Market, Callbacks, Entry, initial, get_valid_enter_price_and_stake, check_depth_of_market,
}

pub record House (F Db : Type 0) : Type 0 where
  pub trades : List (Trade F)
  pub locks : PairLocks Db

-- What the exchange knows of a pair
pub record PairInfo (F : Type 0) : Type 0 where
  pub amount_precision : Option F
  pub price_precision : Option F
  pub precision_mode : Option PrecisionMode
  pub precision_mode_price : Option PrecisionMode
  pub contract_size : Option F

-- The configuration, the strategy, the exchange, and the analysed candles of an iteration. The depth
-- of market is checked where a smallest ratio is given, which is then above 0. The wallets are those
-- after an update with the trades of the database, which also gives a new trade its id.
pub record EntryDesk (F Db : Type 0) : Type 0 where
  pub config : Config F
  pub exchange_id : String
  pub max_open_trades : Option ℕ
  pub custom_price_max_distance_ratio : F
  pub bids_to_ask_delta : Option F
  pub timeframe : String
  pub tolerance : F
  pub callbacks : Callbacks F
  pub confirm_trade_entry : String → F → F → Bool
  pub market : Market F
  pub pair_info : String → PairInfo F
  pub order_book_volumes : String → Result Exception (F × F)
  pub create_order : String → OrderSide → F → F → F → Result Exception (CcxtOrder F)
  pub get_fee : String → Result Exception F
  pub get_funding_fees : String → F → Bool → ℕ → Option F
  pub analyzed : String → List Candle
  pub of_number : ℕ → F
  pub books : List (Trade F) → Books F
  pub wallets : List (Trade F) → Wallets F
  pub new_id : List (Trade F) → ℕ

abbrev pub direction : SignalDirection → String
direction long = "long"
direction short = "short"

abbrev pub is_short_signal : SignalDirection → Bool
is_short_signal long = false
is_short_signal short = true

abbrev pub of_wallets {ℓ} : {A : Type ℓ} → Result DependencyException A → Result Exception A
of_wallets (ok a) = ok a
of_wallets (err e) = err dependency

module _ {F P Db : Type 0} ⦃f : Float F⦄ (x : Parts F P Db) (y : EntryDesk F Db) where
  open f use {zero, one, add, mul, div, eq}

  unfoldable pub open_trades : House F Db → List (Trade F)
  open_trades h = select (λ t. t.is_open) h.trades

  -- `None` stands for an unlimited number of trades.
  unfoldable pub has_free_open_trades : House F Db → Bool
  unfolding open_trades
  has_free_open_trades h = elim y.max_open_trades [
    | none ↦ true
    | some n ↦ ltb 0 (n - length (open_trades h))
  ]

  -- The order of a new trade, or `none` where it expired at once and nothing was filled. What is
  -- filled of an order that expired is a number.
  unfoldable pub place_order :
      String → OrderSide → Entry F → F → Result Exception (Option (CcxtOrder F))
  place_order pair side e amount =
      y.create_order pair side amount e.enter_limit_requested e.leverage >>= λ order.
      let unfilled : Result Exception (Option (CcxtOrder F)) = elim order.filled [
        | none ↦ err other
        | some filled ↦ ok (if eq filled zero then none else some order)
      ] in
      if is_status "expired" order.status || is_status "rejected" order.status
      then unfilled
      else ok (some order)

  abbrev pub first_known : Option F → Option F → F → F
  first_known none none value = value
  first_known none (some b) value = b
  first_known (some a) b value = a

  -- The rate and the amount as far as the order is already filled
  unfoldable pub filled_rate : CcxtOrder F → F → F
  filled_rate order requested =
      if is_status "expired" order.status
        || is_status "rejected" order.status
        || is_status "closed" order.status
      then first_known order.average order.price requested
      else requested

  unfoldable pub filled_size : CcxtOrder F → F → F
  filled_size order requested =
      if is_status "expired" order.status
        || is_status "rejected" order.status
        || is_status "closed" order.status
      then first_known order.filled order.amount requested
      else requested

  -- The trade before its order is appended
  unfoldable pub new_trade :
      ℕ → String → Bool → Option String → Entry F → F → F → Option F → Trade F
  new_trade id pair is_short enter_tag e rate fee funding_fees =
      let info = y.pair_info pair in
      let t : Trade F = record {
        id = id;
        orders = [];
        exchange = y.exchange_id;
        pair = pair;
        is_open = true;
        fee_open = fee;
        fee_open_cost = none;
        fee_open_currency = none;
        fee_close = some fee;
        fee_close_cost = none;
        fee_close_currency = none;
        open_rate = rate;
        open_trade_value = zero;
        close_rate = none;
        close_rate_requested = none;
        close_profit = none;
        close_profit_abs = none;
        realized_profit = zero;
        stake_amount = e.stake_amount;
        max_stake_amount = none;
        amount = zero;
        open_date = x.clock;
        close_date = none;
        stop_loss = zero;
        stop_loss_pct = none;
        initial_stop_loss = some zero;
        initial_stop_loss_pct = none;
        is_stop_loss_trailing = false;
        max_rate = none;
        min_rate = none;
        exit_reason = none;
        exit_order_status = none;
        enter_tag = enter_tag;
        trading_mode = y.config.trading_mode;
        amount_precision = info.amount_precision;
        price_precision = info.price_precision;
        precision_mode = info.precision_mode;
        precision_mode_price = info.precision_mode_price;
        contract_size = info.contract_size;
        liquidation_price = none;
        is_short = is_short;
        leverage = e.leverage;
        interest_rate = zero;
        funding_fees = funding_fees;
        funding_fee_running = none;
      } in
      adjust_stop_loss x.pr x.d (recalc_open_trade_value x.pr x.py t) rate
        (some y.callbacks.stoploss) true false

  -- An order that is no longer open is followed at once. If it was canceled empty, so is the entry.
  unfoldable pub settle_entry :
      CcxtOrder F → Order F → Position F Db → Act (Position F Db) (Position F Db)
  settle_entry order o p =
      let followed : Act (Position F Db) (Position F Db) =
        update_trade_state x o.order_id (some order) false true p >>= λ (canceled, q).
        if canceled then (handle_cancel_enter x order o false q >>= λ (flag, r). ok r) else ok q in
      if is_non_open order.status then followed else ok p
