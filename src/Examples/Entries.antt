-- ===== src/Examples/Entries.antt =====
-- The theorems on the orders of the bot at concrete values: a trade whose exit is filled, an entry
-- that is canceled, and a bot with one free slot.
use freqtrade_llm.Base.{
  select, ℕ, ◌≡◌, ◌≢◌, refl, Bool, true, false, none, some, List, [], ◌∷◌, String, eq_iff, arith,
  select, last?,
}
use freqtrade_llm.Base.Result.{ok}
use freqtrade_llm.Exchange.Fees.{
  CcxtOrder, check_order_canceled_empty, order_has_fee, extract_cost_curr_rate,
}
use freqtrade_llm.Exchange.Precision.{price_to_precision, amount_to_contract_precision}
use freqtrade_llm.Exchange.Timeframe.{timeframe_to_next_date, dt_ts}
use freqtrade_llm.Persistence.Order.{Order, buy, is_non_open, safe_amount_after_fee, safe_price}
use freqtrade_llm.Persistence.PairLock.{PairLock}
use freqtrade_llm.Persistence.PairLocks
use freqtrade_llm.Persistence.PairLocks.{PairLocks}
use freqtrade_llm.Persistence.Trade.{
  Trade, fee_updated, nr_of_successful_entries, update_fee, entry_side, exit_side,
  select_order_by_order_id,
}
use freqtrade_llm.Plugins.ProtectionManager.InForce.{InRange}
use freqtrade_llm.Strategy.Signals
use freqtrade_llm.Strategy.Signals.{Candle, SignalDirection, long, short}
use freqtrade_llm.Persistence.Trade.Updating.{update_order}
use freqtrade_llm.Persistence.Trade.Ledger.{
  take_profit, still_open, settle, count_exit, count_amount, count_entry, count_order, count_orders,
  recalc_trade_from_orders,
}
use freqtrade_llm.Persistence.Trade.Ledger.Filling.{
  date_last_filled, update_trade, fills, stopped_on_exchange, pay_funding, close, date_of_close,
}
use freqtrade_llm.FreqtradeBot.Fees.{handle_order_fee}
use freqtrade_llm.FreqtradeBot.Protecting.{handle_protections}
use freqtrade_llm.FreqtradeBot.Canceling.{handle_cancel_enter}
use freqtrade_llm.FreqtradeBot.Canceling.Deletion.{IsCanceled, handle_cancel_enter-IsCanceled}
use freqtrade_llm.FreqtradeBot.Entering.{House, EntryDesk, open_trades}
use freqtrade_llm.FreqtradeBot.Entering.Executing.{enter_positions}
use freqtrade_llm.FreqtradeBot.Entering.Blocked.{IsBlocked, enter_positions-blocked}
use freqtrade_llm.FreqtradeBot.Entering.Slots.{IsWithin, Holds, enter_positions-IsWithin}
use freqtrade_llm.FreqtradeBot.Orders.{
  Venue, Position, Parts, Act, update_trade_after_fill, order_close_notify,
}
use freqtrade_llm.FreqtradeBot.Orders.Following.{update_trade_state}
use freqtrade_llm.FreqtradeBot.Orders.Locking.{IsLocked, update_trade_state-IsLocked}
use freqtrade_llm.Persistence.Trade.Profit.{recalc_open_trade_value, calculate_profit}
use freqtrade_llm.Persistence.Trade.StopLoss.{adjust_stop_loss}
use freqtrade_llm.Plugins.ProtectionManager.{global_stop, stop_per_pair}
use freqtrade_llm.Examples.Setting.{
  whole, exact, digits, table, table-SessionLaws, five_minutes, five_minutes-CcxtLaws,
}
use freqtrade_llm.Examples.Trades.{long_trade, python, no_trades}
use freqtrade_llm.Examples.Guards.{texts, unlocked, now}
use freqtrade_llm.Examples.Ledgers.{entry_order, exit_order, full_trade}
use freqtrade_llm.Examples.Bots.{config, books, purse}
use freqtrade_llm.Examples.Strategies.{strategy, callbacks}
use freqtrade_llm.Examples.Trading.{value_or, fee_desk, filled_exit, market, asked}

-- The open order of a first entry, and what the exchange says of it before and after it is canceled
abbrev pub open_order : Order ℕ
open_order = record entry_order {
  order_id = "e";
  ft_is_open = true;
  status = some "open";
  filled = some 0;
}

abbrev pub waiting : CcxtOrder ℕ
waiting = record filled_exit {
  id = "e";
  side = buy;
  status = some "open";
  filled = some 0;
  fee = none;
}

abbrev canceled : CcxtOrder ℕ
canceled = record waiting { status = some "canceled" }

abbrev venue : Venue ℕ
venue = record {
  fetch_order = λ n id pair. ok waiting;
  fetch_order_or_stoploss_order = λ id pair stoploss. ok waiting;
  cancel_order_with_result = λ id pair amount. ok canceled;
  cancel_stoploss_order_with_result = λ id pair amount. ok canceled;
  get_min_pair_stake_amount = λ pair price stoploss. some 50;
  get_exit_rate = λ pair is_short. ok 100;
  get_liquidation_price = λ t. none;
}

abbrev pub parts : Parts ℕ ℕ (List PairLock)
parts = record {
  pr = exact;
  d = digits;
  py = python;
  strategy = strategy;
  callbacks = callbacks;
  venue = venue;
  fees = fee_desk;
  texts = texts;
  trades = λ t. no_trades;
  session = table;
  ccxt = five_minutes;
  handlers = [];
  clock = now;
}

abbrev pub held : Trade ℕ → Position ℕ (List PairLock)
held t = record { trade = t; in_database = true; locks = unlocked }

abbrev new_trade : Trade ℕ
new_trade = record long_trade { orders = open_order ∷ []; amount = 0 }

abbrev cancellation : Act (Position ℕ (List PairLock)) (Bool × Position ℕ (List PairLock))
cancellation = handle_cancel_enter parts waiting open_order false (held new_trade)

cancellation_is_ok : cancellation ≡ ok (true, record (held new_trade) { in_database = false })
unfolding handle_cancel_enter is_non_open select nr_of_successful_entries
cancellation_is_ok = refl

handle_cancel_enter-IsCanceled_example :
    IsCanceled parts waiting "e" false
      (held new_trade)
      (true, record (held new_trade) { in_database = false })
handle_cancel_enter-IsCanceled_example =
    handle_cancel_enter-IsCanceled parts waiting open_order false (held new_trade)
      (true, record (held new_trade) { in_database = false }) cancellation_is_ok

pub in_range : (tf : String) → InRange five_minutes tf now
unfolding dt_ts
in_range tf = ground arith

abbrev exiting : Act (Position ℕ (List PairLock)) (Bool × Position ℕ (List PairLock))
exiting = update_trade_state parts "c" (some filled_exit) false true (held full_trade)

abbrev exited : Position ℕ (List PairLock)
exited = (value_or (false, held full_trade) exiting).1

exiting_is_ok : exiting ≡ ok (false, exited)
unfolding update_trade_state update_order check_order_canceled_empty is_non_open
    select_order_by_order_id handle_order_fee fee_updated order_has_fee extract_cost_curr_rate
    nr_of_successful_entries select update_fee update_trade fills safe_amount_after_fee
    amount_to_contract_precision stopped_on_exchange pay_funding close date_of_close
    recalc_trade_from_orders entry_side exit_side safe_price update_trade_after_fill
    order_close_notify handle_protections date_last_filled count_orders count_order count_entry
    count_amount count_exit calculate_profit settle take_profit still_open adjust_stop_loss
    recalc_open_trade_value price_to_precision stop_per_pair global_stop
exiting_is_ok = refl

exit_found : select_order_by_order_id full_trade "c" ≡ some exit_order
unfolding select_order_by_order_id
exit_found = refl

exit_named : filled_exit.id ≢ ""
exit_named e = ground (arith, eq_iff filled_exit.id "")

update_trade_state-IsLocked_example :
    IsLocked parts table-SessionLaws five_minutes-CcxtLaws in_range exit_order exited
update_trade_state-IsLocked_example =
    update_trade_state-IsLocked parts table-SessionLaws five_minutes-CcxtLaws in_range filled_exit
      false true (held full_trade) exited exit_order exit_named exit_found exiting_is_ok

abbrev candle : Candle
candle = record {
  date = now;
  enter_long = true;
  exit_long = false;
  enter_short = false;
  exit_short = false;
  enter_tag = none;
  exit_tag = none;
}

abbrev desk : EntryDesk ℕ (List PairLock)
desk = record {
  config = config;
  exchange_id = "binance";
  max_open_trades = some 2;
  custom_price_max_distance_ratio = 1;
  bids_to_ask_delta = none;
  timeframe = "5m";
  tolerance = 1;
  callbacks = asked;
  confirm_trade_entry = λ pair amount rate. true;
  market = market;
  pair_info = λ pair. record {
    amount_precision = none;
    price_precision = none;
    precision_mode = none;
    precision_mode_price = none;
    contract_size = none;
  };
  order_book_volumes = λ pair. ok (1, 1);
  create_order = λ pair side amount rate leverage. ok waiting;
  get_fee = λ pair. ok 0;
  get_funding_fees = λ pair amount is_short since. none;
  analyzed = λ pair. candle ∷ [];
  of_number = λ n. n;
  books = λ trades. books;
  wallets = λ trades. purse;
  new_id = λ trades. 7;
}

abbrev house : House ℕ (List PairLock)
house = record { trades = long_trade ∷ []; locks = unlocked }

abbrev whitelist : List String
whitelist = "BTC/USDT" ∷ "ETH/USDT" ∷ "ADA/USDT" ∷ []

house-IsWithin : IsWithin parts desk 2 house
unfolding IsWithin open_trades select
house-IsWithin = ground arith

enter_positions-IsWithin_example : Holds parts desk 2 (enter_positions parts desk whitelist house)
enter_positions-IsWithin_example =
    enter_positions-IsWithin parts desk 2 refl whitelist house house-IsWithin

abbrev closed_house : House ℕ (List PairLock)
closed_house = record house {
  locks = record unlocked {
    locks =
        record {
          pair = "*";
          side = "*";
          reason = none;
          lock_time = now;
          lock_end_time = 4_800_000_000;
          active = true;
        }
        ∷ [];
  };
}

closed_house-IsBlocked : (pair : String) → IsBlocked parts desk closed_house pair
unfolding IsBlocked Signals.is_pair_locked PairLocks.is_pair_locked last? select
    timeframe_to_next_date
closed_house-IsBlocked pair long = ground arith
closed_house-IsBlocked pair short = ground arith

enter_positions-blocked_example :
    enter_positions parts desk whitelist closed_house ≡ ok (0, closed_house)
enter_positions-blocked_example = enter_positions-blocked parts desk whitelist closed_house (
  closed_house-IsBlocked "BTC/USDT",
  (closed_house-IsBlocked "ETH/USDT", (closed_house-IsBlocked "ADA/USDT", tt)),
)
