-- ===== src/FreqtradeBot.antt =====
-- freqtrade/freqtradebot.py: the bot between the strategy, the wallets, the trades and the exchange.
-- Here are the exceptions of freqtrade/exceptions.py that its methods raise and catch.
pub mod Canceling
pub mod Entering
pub mod Exiting
pub mod Fees
pub mod Orders
pub mod Pricing
pub mod Protecting
pub mod Stopping
use freqtrade_llm.Base.{Bool, true, false}

-- A class of exceptions is named without its ending. What is no `FreqtradeException` is `other`.
pub data Exception : Type 0 where
  freqtrade operational configuration dependency pricing exchange_error invalid_order : Exception
  retryable_order insufficient_funds temporary ddos_protection strategy_error other : Exception

-- `except DependencyException` catches the class and its subclasses.
unfoldable pub is_dependency : Exception → Bool
is_dependency dependency = true
is_dependency pricing = true
is_dependency exchange_error = true
is_dependency invalid_order = true
is_dependency retryable_order = true
is_dependency insufficient_funds = true
is_dependency temporary = true
is_dependency ddos_protection = true
is_dependency _ = false

-- `except InvalidOrderException`
unfoldable pub is_invalid_order : Exception → Bool
is_invalid_order invalid_order = true
is_invalid_order retryable_order = true
is_invalid_order insufficient_funds = true
is_invalid_order _ = false

-- `except ExchangeError`
unfoldable pub is_exchange_error : Exception → Bool
is_exchange_error exchange_error = true
is_exchange_error invalid_order = true
is_exchange_error retryable_order = true
is_exchange_error insufficient_funds = true
is_exchange_error temporary = true
is_exchange_error ddos_protection = true
is_exchange_error _ = false
