-- ===== src/Examples/Bots.antt =====
-- The theorems on the wallets and on the loop that runs a bot at concrete values.
use freqtrade_llm.Base.{ℕ, true, false, ◌⊎◌, none, some, [], ◌∷◌, ◌≡◌, ltb, str_eq, if◌then◌else◌}
use freqtrade_llm.Persistence.Trade.{spot}
use freqtrade_llm.Wallets.{
  Wallets, Config, Books, get_trade_stake_amount, get_available_stake_amount,
}
use freqtrade_llm.Wallets.Stake.{get_trade_stake_amount-IsCovered, IsCovered}
use freqtrade_llm.Worker.{
  Bot, Turn, State, running, stopped, reload_config, returned, sleep_duration, run,
}
use freqtrade_llm.Worker
use freqtrade_llm.Worker.Startup.{is_orderly, run-is_orderly}
use freqtrade_llm.Worker.Progress.{processed, states, run-processed}
use freqtrade_llm.Base.{length, select}
use freqtrade_llm.Worker.{is_active}
use freqtrade_llm.Worker.Throttle.{IsTimely, sleep_duration-IsTimely}
use freqtrade_llm.Examples.Setting.{whole, whole-OrderLaws}
use freqtrade_llm.Examples.Trades.{long_trade}

abbrev pub config : Config ℕ
config = record {
  dry_run = true;
  runmode_live = false;
  cross_margin = false;
  trading_mode = spot;
  available_capital = none;
  tradable_balance_ratio = 1;
  amend_last_stake_amount = true;
  last_stake_amount_min_ratio = 1;
  stake_amount = some 400;
}

abbrev pub books : Books ℕ
books = record { open_trades = long_trade ∷ []; total_closed_profit = 0 }

abbrev pub purse : Wallets ℕ
purse = record {
  wallets =
      λ k. if str_eq k "USDT" then some (record { free = 500; used = 0; total = 500 }) else none;
  positions = λ k. none;
  start_cap = ("USDT", 1500) ∷ [];
  stake_currency = "USDT";
  last_wallet_refresh = none;
}

get_trade_stake_amount-IsCovered_example :
    IsCovered whole-OrderLaws
      (get_available_stake_amount config books purse)
      true
      (get_trade_stake_amount (λ n. n) config books purse (some 3))
get_trade_stake_amount-IsCovered_example =
    get_trade_stake_amount-IsCovered whole-OrderLaws (λ n. n) config books purse (some 3)

-- A bot that is only its state
abbrev bot : Bot State
bot = record {
  state = λ b. b;
  with_state = λ s b. s;
  startup = λ b. b;
  check_for_open_trades = λ b. b;
  process_stopped = λ b. b;
  process = λ b. (returned, b);
  notify_status = λ s b. b;
  notify_exception = λ b. b;
}

abbrev settings : Worker.Config ℕ
settings = record {
  throttle_secs = 5;
  heartbeat_interval = 60;
  timeframe = true;
  timeframe_offset = 1;
  retry_timeout = 30;
}

-- A turn in which a user asks for a state
abbrev asking : State → Turn State ℕ
asking s = record {
  commands = λ b. s;
  time_passed = 1;
  next_tft = 3;
  now = 100;
  new_config = record settings { throttle_secs = 10 };
  new_bot = running;
}

run-is_orderly_example :
    is_orderly false (
      run bot settings
        (asking running ∷ asking reload_config ∷ asking running ∷ asking stopped ∷ [])
        none
        0
        stopped)
    ≡ true
run-is_orderly_example =
    run-is_orderly bot settings
      (asking running ∷ asking reload_config ∷ asking running ∷ asking stopped ∷ []) 0 stopped

run-processed_example :
    processed
      (run bot settings (asking running ∷ asking stopped ∷ asking running ∷ []) none 0 stopped)
    ≡ length (
        select
          (λ s. is_active (some s))
          (states bot settings
            (asking running ∷ asking stopped ∷ asking running ∷ [])
            none
            0
            stopped))
run-processed_example =
    run-processed bot settings (asking running ∷ asking stopped ∷ asking running ∷ []) 0 stopped
      none

sleep_duration-IsTimely_example :
    (ltb (sleep_duration 5 1 (some 3) 2) 0 ≡ false)
    × ((sleep_duration {F = ℕ} 5 1 (some 3) 2 ≡ 0)
        ⊎ IsTimely whole-OrderLaws 3 5 (sleep_duration 5 1 (some 3) 2))
    × (ltb 3 4 ≡ false → ltb 5 4 ≡ false → sleep_duration {F = ℕ} 5 1 (some 3) 2 ≡ 4)
sleep_duration-IsTimely_example = sleep_duration-IsTimely whole-OrderLaws 5 1 3 2
