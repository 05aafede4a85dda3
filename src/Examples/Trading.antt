-- ===== src/Examples/Trading.antt =====
-- The theorems on the bot at concrete values: a trade in BTC/USDT whose exit is filled, and a bot with
-- one free slot.
use freqtrade_llm.Base.{
  ℕ, ◌+◌, ◌≡◌, ◌≢◌, refl, inr, true, false, none, some, List, [], ◌∷◌, ◌++◌, eq_iff, arith, select,
  ◌==◌,
}
use freqtrade_llm.Base.Float
use freqtrade_llm.Base.Result.{Result, ok, err}
use freqtrade_llm.Exchange.Fees.{extract_cost_curr_rate, order_has_fee, CcxtOrder}
use freqtrade_llm.Exchange.Timeframe.{dt_ts}
use freqtrade_llm.Persistence.Order.{is_non_open, Order, sell}
use freqtrade_llm.Persistence.PairLock.{PairLock}
use freqtrade_llm.Persistence.PairLocks.{is_pair_locked, is_global_lock}
use freqtrade_llm.Persistence.Trade.{
  update_fee, nr_of_successful_entries, fee_updated, Trade, futures,
}
use freqtrade_llm.Plugins.ProtectionManager.{
  global_stop, stop_per_pair, cooldown, guard, handler_global_stop, handler_stop_per_pair,
  has_global_stop, has_local_stop,
}
use freqtrade_llm.Plugins.ProtectionManager.InForce.{InRange}
use freqtrade_llm.Plugins.Protections.{Error}
use freqtrade_llm.Plugins.Protections.Guards.{lock_of, cooldown_period, stoploss_guard}
use freqtrade_llm.Wallets.{
  get_available_stake_amount, get_free, get_used, get_total_stake_amount, total_open_trades_stakes,
}
use freqtrade_llm.Wallets.Stake.{IsComparable}
use freqtrade_llm.FreqtradeBot.{Exception}
use freqtrade_llm.FreqtradeBot.Fees.{FeeDesk, handle_order_fee}
use freqtrade_llm.FreqtradeBot.Fees.Rates.{IsFeeHandled, handle_order_fee-IsFeeHandled}
use freqtrade_llm.FreqtradeBot.Pricing.{
  Market, Callbacks, Entry, number, initial, safe_exit_amount, get_valid_enter_price_and_stake,
  enter_price, proposed_enter_price, stake_at_price,
}
use freqtrade_llm.FreqtradeBot.Pricing.Bounds.{
  IsValidEntry, IsExitAmount, safe_exit_amount-IsExitAmount,
  get_valid_enter_price_and_stake-IsValidEntry,
}
use freqtrade_llm.FreqtradeBot.Protecting.{Protected, handle_protections}
use freqtrade_llm.FreqtradeBot.Protecting.Locked.{handle_protections_in_force}
use freqtrade_llm.Examples.Setting.{
  whole, whole-OrderLaws, table, table-SessionLaws, five_minutes, five_minutes-CcxtLaws,
}
use freqtrade_llm.Examples.Trades.{long_trade, stopped_trade}
use freqtrade_llm.Examples.Guards.{texts, unlocked, one_stopped, pause, limit, now}
use freqtrade_llm.Examples.Ledgers.{exit_order, full_trade}
use freqtrade_llm.Examples.Bots.{config, books, purse}

-- An hour after the close
abbrev end : ℕ
end = 4_500_000_000

-- What a function returns, or a value in place of a raise
abbrev pub value_or : {E A : Type 0} → A → Result E A → A
value_or a (ok b) = b
value_or a (err e) = a

abbrev pub market : Market ℕ
market = record {
  get_rate = λ pair is_short. ok 100;
  get_max_leverage = λ pair stake. 5;
  get_min_pair_stake_amount = λ pair price reserve leverage. some 50;
  get_max_pair_stake_amount = λ pair price leverage. 450;
}

abbrev pub asked : Callbacks ℕ
asked = record {
  stoploss = 0;
  custom_entry_price = λ pair rate. number 110;
  leverage = λ pair rate largest. 3;
  custom_stake_amount = λ pair rate stake smallest largest leverage. some 300;
}

abbrev entry : Result Exception (Entry ℕ)
entry =
    get_valid_enter_price_and_stake 1 1 market asked config books purse "ETH/USDT" none 400 false
      none initial none

abbrev nothing_entered : Entry ℕ
nothing_entered = record { enter_limit_requested = 0; stake_amount = 0; leverage = 0 }

entry_is_ok : entry ≡ ok (value_or nothing_entered entry)
unfolding get_valid_enter_price_and_stake enter_price proposed_enter_price stake_at_price
entry_is_ok = refl

market-IsComparable :
    (rate leverage : ℕ)
    → IsComparable whole-OrderLaws 450 (get_available_stake_amount config books purse)
unfolding get_available_stake_amount IsComparable get_free get_total_stake_amount
    total_open_trades_stakes Float.sum
market-IsComparable rate leverage = inr refl

get_valid_enter_price_and_stake-IsValidEntry_example :
    IsValidEntry whole-OrderLaws market asked config
      (get_available_stake_amount config books purse)
      "ETH/USDT"
      400
      none
      initial
      (value_or nothing_entered entry)
get_valid_enter_price_and_stake-IsValidEntry_example =
    get_valid_enter_price_and_stake-IsValidEntry whole-OrderLaws 1 1 market asked config books purse
      "ETH/USDT" none 400 false none initial none (value_or nothing_entered entry)
      market-IsComparable entry_is_ok

spot_market : config.trading_mode ≢ futures
spot_market e = ground arith

-- All of the 500 that there are is sold where 500 is asked for.
sold_amount : safe_exit_amount 1 config purse "USDT" 500 long_trade ≡ ok (500, long_trade)
unfolding safe_exit_amount get_free get_used
sold_amount = refl

safe_exit_amount-IsExitAmount_example :
    IsExitAmount whole-OrderLaws 1
      (get_free purse "USDT" + get_used purse "USDT")
      500
      long_trade
      (500, long_trade)
safe_exit_amount-IsExitAmount_example =
    safe_exit_amount-IsExitAmount whole-OrderLaws 1 config purse "USDT" 500 long_trade
      (500, long_trade) spot_market sold_amount

abbrev pub fee_desk : FeeDesk ℕ
fee_desk = record {
  currencies = record {
    get_pair_base_currency = λ pair. "BTC";
    get_pair_quote_currency = λ pair. "USDT";
    get_conversion_rate = λ currency. none;
    unknown_fee_rate = none;
    round8 = λ a. a;
  };
  wallets = purse;
  get_trades_for_order = λ id pair since. ok [];
  of_number = λ n. n;
  isclose = λ a b. a == b;
  two_percent = 2;
}

-- The exit that the exchange filled, and paid for in the base currency
abbrev pub filled_exit : CcxtOrder ℕ
filled_exit = record {
  id = "c";
  symbol = "BTC/USDT";
  side = sell;
  status = some "closed";
  price = some 180;
  average = some 180;
  amount = some 20;
  filled = some 20;
  remaining = some 0;
  cost = some 3600;
  stop_price = none;
  timestamp = none;
  last_trade_timestamp = some 5000;
  fee = some (record { currency = some "BTC"; cost = some 1; rate = some 1 });
  trades = [];
}

abbrev fee_result : Result (Exception × Trade ℕ) (Trade ℕ × Order ℕ)
fee_result = handle_order_fee fee_desk full_trade exit_order filled_exit

fee_result_is_ok : fee_result ≡ ok (value_or (full_trade, exit_order) fee_result)
unfolding handle_order_fee fee_updated order_has_fee extract_cost_curr_rate nr_of_successful_entries
    select update_fee is_non_open
fee_result_is_ok = refl

handle_order_fee-IsFeeHandled_example :
    IsFeeHandled fee_desk full_trade exit_order (value_or (full_trade, exit_order) fee_result)
handle_order_fee-IsFeeHandled_example =
    handle_order_fee-IsFeeHandled fee_desk full_trade exit_order filled_exit
      (value_or (full_trade, exit_order) fee_result) fee_result_is_ok

abbrev protected : Result Error (Protected (List PairLock))
protected =
    handle_protections texts one_stopped table five_minutes now
      ((cooldown pause ∷ []) ++ guard limit ∷ []) "ETH/USDT" "long" unlocked

abbrev unprotected : Protected (List PairLock)
unprotected = record { prot_trig = none; prot_trig_glb = none; locks = unlocked }

protected_is_ok : protected ≡ ok (value_or unprotected protected)
unfolding handle_protections stop_per_pair has_local_stop handler_stop_per_pair cooldown_period
    select stoploss_guard global_stop has_global_stop handler_global_stop
protected_is_ok = refl

end-InRange : InRange five_minutes "5m" end
unfolding dt_ts
end-InRange = ground arith

eth_named : stopped_trade.pair ≢ ""
eth_named e = ground (arith, eq_iff stopped_trade.pair "")

handle_protections_in_force_example :
    (has_local_stop (guard limit) ≡ true
      → handler_stop_per_pair texts one_stopped now (guard limit) "ETH/USDT" "long"
        ≡ ok (some (lock_of end "reason" "*"))
      → is_pair_locked table now (value_or unprotected protected).locks "ETH/USDT" (some end) "*"
        ≡ true)
    × (has_global_stop (guard limit) ≡ true
        → handler_global_stop texts one_stopped now (guard limit) "long"
          ≡ ok (some (lock_of end "reason" "*"))
        → is_global_lock table now (value_or unprotected protected).locks (some end) "*" ≡ true)
handle_protections_in_force_example =
    handle_protections_in_force texts one_stopped table five_minutes now "ETH/USDT" eth_named
      table-SessionLaws five_minutes-CcxtLaws (cooldown pause ∷ []) [] (guard limit) "long" unlocked
      (value_or unprotected protected) (lock_of end "reason" "*") protected_is_ok end-InRange
