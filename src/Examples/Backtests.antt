-- ===== src/Examples/Backtests.antt =====
-- The theorems on backtesting at concrete values.
use freqtrade_llm.Base.{ℕ, true, false, none, some, [], ◌∷◌, ◌≡◌, refl, select, any}
use freqtrade_llm.Base.Result.{ok}
use freqtrade_llm.Persistence.Trade.{entry_side, exit_side, nr_of_successful_entries}
use freqtrade_llm.Strategy.Signals.{long, entry_of}
use freqtrade_llm.Optimize.CloseRate.{Row, check_for_trade_entry}
use freqtrade_llm.Optimize.CloseRate.Candle.{check_for_trade_entry_cases, to_candle}
use freqtrade_llm.Optimize.Orders.{Book, Timeouts, Placing, cancel_open_orders, manage_open_orders}
use freqtrade_llm.Optimize.Orders.Cancelling.{manage_open_orders-is_unfilled}
use freqtrade_llm.Optimize.Orders.Remaining.{cancel_open_orders-select, IsDistinct, of_side}
use freqtrade_llm.Examples.Setting.{whole}
use freqtrade_llm.Examples.Trades.{long_trade}
use freqtrade_llm.Examples.Strategies.{strategy}
use freqtrade_llm.Examples.Ledgers.{entry_order, second_order, exit_order}

abbrev falling_row : Row ℕ
falling_row = record {
  date = 900_000_000;
  open_ = 100;
  high = 110;
  low = 80;
  close = 85;
  enter_long = true;
  exit_long = false;
  enter_short = true;
  exit_short = false;
}

check_for_trade_entry_cases_example :
    (false ≡ true
      → check_for_trade_entry false falling_row ≡ entry_of strategy (to_candle falling_row))
    × (true ≡ false
        → check_for_trade_entry false falling_row ≡ entry_of strategy (to_candle falling_row))
    × (false ≡ false
        → true ≡ true
        → false ≡ false
        → true ≡ true
        → (check_for_trade_entry false falling_row ≡ some long)
          × (entry_of strategy (to_candle falling_row) ≡ none))
check_for_trade_entry_cases_example = check_for_trade_entry_cases strategy falling_row

abbrev waiting : Book ℕ
waiting = record {
  trade = record long_trade {
    orders =
        entry_order
        ∷ record second_order { ft_is_open = true; status = some "open"; filled = some 0 }
        ∷ record exit_order { ft_is_open = true; status = some "open"; filled = some 0 }
        ∷ [];
  };
  timedout_entry_orders = 0;
  timedout_exit_orders = 0;
  canceled_trade_entries = 0;
  canceled_entry_orders = 0;
  canceled_exit_orders = 3;
  replaced_entry_orders = 0;
  replaced_exit_orders = 0;
}

waiting-IsDistinct : IsDistinct waiting.trade.orders
unfolding any IsDistinct
waiting-IsDistinct = (refl, (refl, (refl, tt)))

cancel_open_orders-select_example :
    (u : Book ℕ) × (cancel_open_orders waiting ≡ ok u)
    × (u.trade ≡ record long_trade { orders = entry_order ∷ [] })
    × (u.canceled_entry_orders ≡ 1)
    × (u.canceled_exit_orders ≡ 4)
unfolding select of_side entry_side exit_side
cancel_open_orders-select_example = cancel_open_orders-select waiting waiting-IsDistinct

-- A trade whose only order is open and was placed long ago
abbrev expired : Book ℕ
expired = record waiting {
  trade = record long_trade {
    orders = record entry_order { ft_is_open = true; status = some "open"; filled = some 0 } ∷ [];
  };
}

abbrev timeouts : Timeouts ℕ
timeouts = record {
  entry = some 600;
  exit = none;
  check_entry_timeout = λ t o now. false;
  check_exit_timeout = λ t o now. false;
}

abbrev placing : Placing ℕ
placing = record {
  adjust_order_price = λ t o now. none;
  enter_trade = λ rate stake b. ok b;
  exit_trade = λ rate amount b. ok b;
}

expired_is_deleted :
    manage_open_orders timeouts placing 5000 expired
    ≡ ok (true, record expired { timedout_entry_orders = 1 })
unfolding manage_open_orders nr_of_successful_entries select
expired_is_deleted = refl

manage_open_orders-is_unfilled_example : nr_of_successful_entries expired.trade ≡ 0
manage_open_orders-is_unfilled_example =
    manage_open_orders-is_unfilled timeouts placing 5000 expired
      (record expired { timedout_entry_orders = 1 }) expired_is_deleted
