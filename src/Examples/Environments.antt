-- ===== src/Examples/Environments.antt =====
-- The theorems on the trading environment at concrete values.
use freqtrade_llm.Base.{ℕ, ◌+◌, true, false, some, [], ◌∷◌, ◌++◌, length, ◌≡◌, refl, arith}
use freqtrade_llm.Base.Result.{ok}
use freqtrade_llm.Freqai.Environment.{Env, Setup, long_exit, stay, long, is_tradesignal, trade_step}
use freqtrade_llm.Freqai.Environment.Positions.{
  IsConsistent, run, run-IsConsistent, trade_step_exit,
}
use freqtrade_llm.Examples.Setting.{whole}

abbrev setup : Setup ℕ
setup = record {
  prices = 100 ∷ 110 ∷ 120 ∷ 130 ∷ [];
  window_size = 1;
  fee = 0;
  compound_trades = true;
  max_drawdown = 0;
  starting_point = true;
  calculate_reward = λ e a. 1;
}

-- A long trade, entered at the first tick.
abbrev in_trade : Env ℕ
in_trade = record {
  start_tick = 0;
  current_tick = 1;
  last_trade_tick = some 0;
  position = long;
  position_history = some long ∷ [];
  total_reward = 0;
  total_profit = 1;
  total_unrealized_profit = 1;
  done = false;
  trade_history = [];
  history = [];
}

run-IsConsistent_example :
    (u : Env ℕ) × (run setup in_trade (stay ∷ long_exit ∷ []) ≡ ok u)
    × IsConsistent u
    × (u.current_tick ≡ 1 + length (stay ∷ long_exit ∷ []))
run-IsConsistent_example =
    run-IsConsistent setup in_trade (stay ∷ long_exit ∷ []) (refl, refl) (ground arith)

exit_is_signal : is_tradesignal long_exit long ≡ true
unfolding is_tradesignal
exit_is_signal = refl

trade_step_exit_example :
    (u : Env ℕ) × (price : ℕ) × (trade_step setup long_exit in_trade ≡ ok u)
    × (u.trade_history
        ≡ [] ++ record { price = price; index = 1; type_ = long_exit; profit = 0 } ∷ [])
trade_step_exit_example =
    trade_step_exit setup long_exit in_trade (refl, refl) (ground arith) exit_is_signal refl
