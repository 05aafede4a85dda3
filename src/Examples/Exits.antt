-- ===== src/Examples/Exits.antt =====
-- The theorems on the exits of the bot at concrete values: a trade with an open exit order.
use freqtrade_llm.Base.{some, ℕ, refl, true, false, none, List, [], ◌∷◌}
use freqtrade_llm.Base.Result.{ok}
use freqtrade_llm.Persistence.Order.{sell}
use freqtrade_llm.Persistence.PairLock.{PairLock}
use freqtrade_llm.Persistence.Trade.{Trade}
use freqtrade_llm.Strategy.{ExitCheckTuple, roi}
use freqtrade_llm.FreqtradeBot.Exiting.{Leaving, ExitDesk, Exit, execute_trade_exit}
use freqtrade_llm.FreqtradeBot.Exiting.Remaining.{Remains}
use freqtrade_llm.FreqtradeBot.Exiting.Handling.{handle_trade, handle_trade-Remains}
use freqtrade_llm.FreqtradeBot.Pricing.{no_price}
use freqtrade_llm.Examples.Trading.{value_or}
use freqtrade_llm.Examples.Setting.{whole}
use freqtrade_llm.Examples.Trades.{long_trade}
use freqtrade_llm.Examples.Bots.{config, purse}
use freqtrade_llm.Examples.Ledgers.{entry_order}
use freqtrade_llm.Examples.Entries.{parts, held, open_order, waiting}

abbrev pub exit_desk : ExitDesk ℕ
exit_desk = record {
  config = config;
  custom_price_max_distance_ratio = 1;
  almost = 1;
  wallets = purse;
  timeframe = "5m";
  analyzed = λ pair. [];
  get_pair_base_currency = λ pair. "USDT";
  get_funding_fees = λ t. none;
  custom_exit_price = λ t limit profit reason. no_price;
  confirm_trade_exit = λ t amount limit reason. true;
  create_order = λ pair side amount limit leverage. ok waiting;
}

abbrev leaving_trade : Trade ℕ
leaving_trade = record long_trade {
  orders = entry_order ∷ record open_order { ft_order_side = sell; side = some sell } ∷ [];
}

abbrev tried_already : Leaving ℕ (List PairLock)
tried_already = record { position = held leaving_trade; seen = "roi" ∷ [] }

abbrev at_roi : ExitCheckTuple
at_roi = record { exit_type = roi; exit_reason = "roi" }

abbrev resting : Leaving ℕ (List PairLock)
resting = record { position = held (record long_trade { orders = entry_order ∷ [] }); seen = [] }

abbrev executed : Exit parts exit_desk
executed = execute_trade_exit parts exit_desk 180 at_roi none none resting

abbrev exiting : Leaving ℕ (List PairLock)
exiting = (value_or (false, resting) executed).1

handle_trade-Remains_example :
    Remains parts exit_desk true (handle_trade parts exit_desk tried_already)
handle_trade-Remains_example = handle_trade-Remains parts exit_desk true tried_already refl
