-- ===== src/Lib.antt =====
-- The core of freqtrade, a trading bot: how it decides to leave a trade, how it moves stop losses,
-- how it locks pairs, how protections stop trading, how a trade follows from its orders, what stake a
-- trade may have, how the bot enters positions and follows its orders, the loop that runs it, the
-- prices and the orders of a backtest, and the environment its reinforcement learning acts in.
--
-- The parts and how they interact. A strategy (freqtrade/strategy/interface.py) looks at a trade
-- (freqtrade/persistence/trade_model.py) and answers with the exits that apply; on the way it moves
-- the trade's stop loss, whose price is rounded by freqtrade/exchange/exchange_utils.py. When a
-- trade was closed, the protections (freqtrade/plugins/protections) look at the closed trades, and
-- their manager (freqtrade/plugins/protectionmanager.py) stores locks in
-- freqtrade/persistence/pairlock_middleware.py, which rounds their ends to candles with
-- freqtrade/exchange/exchange_utils_timeframe.py. Before an entry the bot asks the strategy for the
-- signal of the latest candle and whether the pair is locked, and the wallets (freqtrade/wallets.py)
-- for the stake. An order that was filled updates its trade. The worker (freqtrade/worker.py) calls
-- the bot in a loop. A backtest (freqtrade/optimize/backtesting.py) asks the same strategy, and fills
-- the orders from candles.
--
-- The files:
-- - Base and its children: tests, lists, results, and floats as a parameter.
-- - Exchange/Timeframe: exchange_utils_timeframe.py, freqtrade/util/datetime_helpers.py.
-- - Exchange/Precision: amount_to_contracts, amount_to_precision, price_to_precision.
-- - Exchange/Fees: an order as the exchange answers it, and its fee (freqtrade/exchange/exchange.py).
-- - Persistence/PairLock: the table of locks and its query (freqtrade/persistence/pairlock.py).
-- - Persistence/PairLocks: the class PairLocks, with the state of the class as a record. Effects:
--   locking and looking up; Unlock: releasing; Longest: the lock that ends last; Backends: the
--   database against the list.
-- - Persistence/Order, Persistence/Trade: the classes Order and LocalTrade of trade_model.py.
--   Order/Updating, Trade/Updating: how an order is read from an answer of the exchange;
--   Trade/Profit: the values and the profit of a trade, with freqtrade/leverage/interest.py;
--   Trade/StopLoss: adjust_stop_loss and its helpers, Ratchet below it; Trade/Store: the class
--   attributes that hold the trades of a backtest, Index below it; Trade/Ledger:
--   recalc_trade_from_orders, Loop and Mean (its loop over the orders, amounts and rates) below it;
--   Ledger/Filling: update_trade, close and close_bt_order, Keeping and Closing (when a trade is
--   closed) beside it.
-- - Persistence/KeyValueStore: key_value_store.py; Rows, Keys: what a key holds.
-- - Plugins/Protections: the base class IProtection; Guards: the four protections; LockEnd,
--   Rules and Counting: when they lock, until when, and for which trades.
-- - Plugins/ProtectionManager: the configuration's validation and the loops over the handlers.
--   InForce, PairInForce: the locks after the loops.
-- - Strategy: the attributes and callbacks of IStrategy. Roi, Stoploss, Exit, Signals: its methods
--   of these names; Stoploss/Hit, Exit/Order, Exit/Crossing: what follows for stop losses and exits.
-- - Wallets: freqtrade/wallets.py, Wallets/Balances: its refreshes. Stake: the stakes that are granted;
--   Refresh: what a refresh depends on.
-- - FreqtradeBot: freqtrade/exceptions.py, and below it freqtrade/freqtradebot.py. Pricing: price,
--   stake and leverage of an entry, amount of an exit, Bounds below it; Entering: the order
--   and the trade of an entry, with Executing (execute_entry for a new trade, create_trade,
--   enter_positions), Slots (how many trades are open) and Blocked (open and locked pairs); Orders:
--   what a filled order leads to, with Following (update_trade_state), Keeping (the trade in the
--   database) and Locking (the locks after an exit); Fees: get_real_amount and its helpers, Rates
--   below it; Canceling: handle_cancel_enter, handle_cancel_exit and cancel_open_orders_of_trade,
--   Deletion below it; Exiting: _check_and_execute_exit, execute_trade_exit,
--   handle_similar_open_order and handle_insufficient_funds, with Handling (handle_trade), Seen (the
--   exits that a candle has seen), Staying and Remaining (the trade in the database); Stopping:
--   handle_stoploss_on_exchange and what it calls, with Active and Hit (a stop loss that is active, or
--   was hit) and Remaining; Protecting: handle_protections, Locked below it.
-- - Worker: freqtrade/worker.py, freqtrade/enums/state.py. Startup and Progress: the order and
--   the number of its calls; Throttle: the sleep between them.
-- - Optimize/CloseRate: the rates and entries of backtesting.py, Candle below it; Optimize/Orders: its
--   handling of open orders, with ft_check_timed_out of strategy/interface.py. Cancelling: when a
--   trade is deleted; Remaining: which orders are left.
-- - Freqai/Environment: freqtrade/freqai/RL/BaseEnvironment.py and Base5ActionRLEnv.py, the trading
--   environment of reinforcement learning; Positions: its states over a step and an episode.
-- - Examples: the parameters instantiated, and the theorems at concrete values.
--
-- How the code is read. A function returns the new state next to its result; an operation that can
-- raise returns a result type. A method of a class is a function of the record with the object's
-- attributes. A date is the number of microseconds since the epoch; a function that may ask for the
-- time takes the clock as an argument. Dates are bounded where `dt_from_ts` would read seconds as
-- milliseconds, in the year 2286. Loops are structural recursion, so there is no fuel; an order that
-- is replaced is fetched again three times at most, as in the source.
--
-- Parameters, for what is not written in this repository: floats (Python) with the laws of their
-- order, decimals (ccxt), candle arithmetic (ccxt) with its laws, the session of the database
-- (SQLAlchemy) with the law that it keeps what is committed, the callbacks of a user's strategy.
-- Parameters besides, for code of this repository that works on pandas or on decimal digits: the
-- drawdown of freqtrade/data/metrics.py, the texts of reasons, and the rounding to significant
-- digits. Parameters, too, are the operations of the bot that the worker calls, what the wallets and
-- the bot ask the exchange and the trades for, and the placing of a new order in a backtest. The bot
-- sees the wallets as they are after an update.
--
-- Not modelled: of freqtradebot.py exit_positions (the loop over handle_trade, which recovers orders
-- first), position adjustment, the replacing of orders, cross margin, and
-- the column ft_cancel_reason of an order, a text that only log lines and messages read; the loop of a backtest over candles, pair lists, the learning itself in freqtrade/freqai,
-- and all that is input, output or configuration; of trade_model.py the queries in SQL.
pub mod Base
pub mod Exchange
pub mod Persistence
pub mod Plugins
pub mod Strategy
pub mod Freqai
pub mod Wallets
pub mod FreqtradeBot
pub mod Worker
pub mod Optimize
pub mod Examples
