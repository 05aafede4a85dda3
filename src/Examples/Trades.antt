-- ===== src/Examples/Trades.antt =====
-- The theorems on trades and on the store of backtested trades at concrete values.
use freqtrade_llm.Base.{
  ◌-◌, ◌/◌, inl, inr, ℕ, ◌+◌, true, false, none, some, [], ◌∷◌, ◌++◌, str_eq, eq_iff, any, select,
  if◌then◌else◌, ◌≡◌, ◌≢◌, refl, arith, ◌==◌,
}
use freqtrade_llm.Base.Result.{ok}
use freqtrade_llm.Persistence.Trade.Profit.{
  Python, ProfitStruct, calc_profit_ratio, calculate_profit, max_stake,
}
use freqtrade_llm.Persistence.Trade.Profit.Agree.{HasStake, calc_profit_ratio-calculate_profit}
use freqtrade_llm.Persistence.Trade.{Trade, margin, spot}
use freqtrade_llm.Persistence.Trade.StopLoss.Ratchet.{Tightens, adjust_all, adjust_all-Tightens}
use freqtrade_llm.Persistence.Trade.Store.{BtTrades, returned, same_object, remove, close_bt_trade}
use freqtrade_llm.Persistence.Trade.Store.Index.{IsIndexed, close_bt_trade-IsIndexed}
use freqtrade_llm.Examples.Setting.{whole, whole-OrderLaws, exact, digits}

abbrev pub long_trade : Trade ℕ
long_trade = record {
  id = 1;
  orders = [];
  exchange = "binance";
  pair = "BTC/USDT";
  is_open = true;
  fee_open = 0;
  fee_open_cost = none;
  fee_open_currency = none;
  fee_close = some 0;
  fee_close_cost = none;
  fee_close_currency = none;
  open_rate = 100;
  open_trade_value = 1000;
  close_rate = none;
  close_rate_requested = none;
  close_profit = none;
  close_profit_abs = some 5;
  realized_profit = 0;
  stake_amount = 1000;
  max_stake_amount = none;
  amount = 10;
  open_date = 1000;
  close_date = none;
  stop_loss = 90;
  stop_loss_pct = some 0;
  initial_stop_loss = some 90;
  initial_stop_loss_pct = some 0;
  is_stop_loss_trailing = false;
  max_rate = none;
  min_rate = none;
  exit_reason = none;
  exit_order_status = none;
  enter_tag = none;
  trading_mode = spot;
  amount_precision = none;
  price_precision = none;
  precision_mode = none;
  precision_mode_price = none;
  contract_size = none;
  liquidation_price = none;
  is_short = false;
  leverage = 1;
  interest_rate = 0;
  funding_fees = none;
  funding_fee_running = none;
}

abbrev pub stopped_trade : Trade ℕ
stopped_trade = record long_trade {
  id = 2;
  pair = "ETH/USDT";
  is_open = false;
  close_date = some 900_000_000;
  close_profit = some 1;
  exit_reason = some "stop_loss";
}

abbrev pub no_trades : BtTrades ℕ
no_trades = record {
  bt_trades = [];
  bt_trades_open = [];
  bt_trades_open_pp = λ p. [];
  bt_open_open_trade_count = 0;
  bt_total_profit = 0;
}

abbrev one_open : BtTrades ℕ
one_open = record no_trades {
  bt_trades_open = long_trade ∷ [];
  bt_trades_open_pp = λ p. if str_eq long_trade.pair p then long_trade ∷ [] else [];
  bt_open_open_trade_count = 1;
}

one_open-IsIndexed : IsIndexed one_open
unfolding select
one_open-IsIndexed = record { by_pair = λ p. refl; counted = refl }

long_trade_is_open : any (same_object long_trade) one_open.bt_trades_open ≡ true
unfolding any
long_trade_is_open = refl

long_trade_named : long_trade.pair ≢ ""
long_trade_named e = ground (arith, eq_iff long_trade.pair "")

adjust_all-Tightens_example : Tightens exact digits long_trade (
    adjust_all exact digits long_trade
      (record { current_price = 150; stoploss = some 0; initial = false } ∷ []))
adjust_all-Tightens_example =
    adjust_all-Tightens exact digits whole-OrderLaws long_trade
      (record { current_price = 150; stoploss = some 0; initial = false } ∷ []) refl

close_bt_trade-IsIndexed_example :
    (u : BtTrades ℕ) × (close_bt_trade one_open long_trade ≡ returned u)
    × IsIndexed u
    × (remove long_trade one_open.bt_trades_open ≡ some u.bt_trades_open)
    × (u.bt_trades ≡ one_open.bt_trades ++ long_trade ∷ [])
    × (u.bt_total_profit ≡ 0 + 5)
close_bt_trade-IsIndexed_example =
    close_bt_trade-IsIndexed one_open long_trade 5 one_open-IsIndexed long_trade_is_open refl

abbrev pub python : Python ℕ ℕ
python = record {
  round8 = λ x. x;
  lower = λ name. name;
  total_seconds = λ later earlier. (later - earlier) / 1_000_000;
  of_number = λ n. n;
  ceil = λ x. x;
  isclose = λ a b. a == b;
}

abbrev pub margin_trade : Trade ℕ
margin_trade = record long_trade {
  trading_mode = margin;
  leverage = 3;
  max_stake_amount = some 1000;
}

margin_trade-HasStake : HasStake exact python margin_trade
unfolding max_stake
margin_trade-HasStake stake e = ground arith

calc_profit_ratio-calculate_profit_example :
    (p : ProfitStruct ℕ) × (calculate_profit exact python margin_trade 7_200_000_000 120 none none
      ≡ ok p)
    × (calc_profit_ratio exact python margin_trade 7_200_000_000 120 none none ≡ ok p.profit_ratio)
calc_profit_ratio-calculate_profit_example =
    calc_profit_ratio-calculate_profit exact python margin_trade 7_200_000_000 120 none none
      (inr (inl refl)) margin_trade-HasStake
