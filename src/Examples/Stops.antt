-- ===== src/Examples/Stops.antt =====
-- The theorems on stop losses on the exchange at concrete values: a long trade with a stop loss order.
use freqtrade_llm.Base.{
  ℕ, ◌≡◌, refl, Bool, true, false, none, some, List, [], ◌∷◌, String, any, select,
}
use freqtrade_llm.Base.Result.{ok}
use freqtrade_llm.Exchange.Fees.{
  CcxtOrder, check_order_canceled_empty, order_has_fee, extract_cost_curr_rate,
}
use freqtrade_llm.Persistence.Order.{
  sell, Order, stoploss, is_non_open, safe_amount_after_fee, safe_price,
}
use freqtrade_llm.Persistence.PairLock.{PairLock}
use freqtrade_llm.Persistence.Trade.{
  trade_direction, Trade, open_sl_orders, fee_updated, nr_of_successful_entries, update_fee,
  entry_side, exit_side, select_order_by_order_id,
}
use freqtrade_llm.FreqtradeBot.Exiting.{Leaving}
use freqtrade_llm.FreqtradeBot.Exiting.Remaining.{Remains}
use freqtrade_llm.FreqtradeBot.Stopping.{
  StopDesk, Stop, Found, follow_stops, handle_stoploss_on_exchange,
}
use freqtrade_llm.FreqtradeBot.Stopping.Active.{is_active, handle_stoploss_on_exchange-active}
use freqtrade_llm.FreqtradeBot.Stopping.Hit.{IsStopped, handle_stoploss_on_exchange-IsStopped}
use freqtrade_llm.FreqtradeBot.Stopping.Remaining.{handle_stoploss_on_exchange-Remains}
use freqtrade_llm.Exchange.Precision.{price_to_precision, amount_to_contract_precision}
use freqtrade_llm.Persistence.Trade.Updating.{update_order}
use freqtrade_llm.Persistence.Trade.Ledger.{
  take_profit, still_open, settle, count_exit, count_amount, count_entry, count_order, count_orders,
  recalc_trade_from_orders,
}
use freqtrade_llm.Persistence.Trade.Ledger.Filling.{
  date_last_filled, update_trade, fills, stopped_on_exchange, pay_funding, close, date_of_close,
}
use freqtrade_llm.FreqtradeBot.Fees.{handle_order_fee}
use freqtrade_llm.FreqtradeBot.Protecting.{handle_protections}
use freqtrade_llm.FreqtradeBot.Orders.{update_trade_after_fill, order_close_notify}
use freqtrade_llm.FreqtradeBot.Orders.Following.{update_trade_state}
use freqtrade_llm.Persistence.Trade.Profit.{recalc_open_trade_value, calculate_profit}
use freqtrade_llm.Persistence.Trade.StopLoss.{adjust_stop_loss}
use freqtrade_llm.Plugins.ProtectionManager.{global_stop, stop_per_pair}
use freqtrade_llm.Examples.Trading.{value_or}
use freqtrade_llm.Examples.Trades.{long_trade}
use freqtrade_llm.Examples.Ledgers.{entry_order}
use freqtrade_llm.Examples.Entries.{parts, held, open_order, waiting, in_range}
use freqtrade_llm.Examples.Exits.{exit_desk}
use freqtrade_llm.Examples.Setting.{whole, table-SessionLaws, five_minutes-CcxtLaws}

abbrev stop_order : Order ℕ
stop_order = record open_order { order_id = "s"; ft_order_side = stoploss; side = some sell }

abbrev guarded_trade : Trade ℕ
guarded_trade = record long_trade { orders = entry_order ∷ stop_order ∷ [] }

abbrev guarded : Leaving ℕ (List PairLock)
guarded = record { position = held guarded_trade; seen = [] }

-- What the exchange says of the stop loss
abbrev stop_answer : String → CcxtOrder ℕ
stop_answer status = record waiting { id = "s"; status = some status }

abbrev stop_desk : String → StopDesk ℕ
stop_desk status = record {
  create_stoploss = λ pair amount stop_price side leverage. ok (stop_answer "open");
  fetch_stoploss_order = λ id pair. ok (stop_answer status);
  has_stoploss = true;
  stop_price_of = λ order. none;
  is_triggered = λ order. false;
  blocks_assets = true;
  price_precision = λ pair. none;
  precision_mode_price = none;
  trailing = false;
  interval = 60;
}

handle_stoploss_on_exchange-Remains_example :
    Remains parts exit_desk true
      (handle_stoploss_on_exchange parts exit_desk (stop_desk "open") guarded)
handle_stoploss_on_exchange-Remains_example =
    handle_stoploss_on_exchange-Remains parts exit_desk (stop_desk "open") true guarded refl

abbrev found : Found parts exit_desk (stop_desk "open")
found = follow_stops parts exit_desk (stop_desk "open") (open_sl_orders guarded_trade) [] guarded

abbrev followed : Leaving ℕ (List PairLock)
followed = (value_or (false, [], guarded) found).2

found_is_ok : found ≡ ok (false, stop_answer "open" ∷ [], followed)
unfolding follow_stops open_sl_orders select update_trade_state update_order
    check_order_canceled_empty is_non_open select_order_by_order_id handle_order_fee fee_updated
    update_trade
found_is_ok = refl

answer_is_active : is_active (stop_answer "open" ∷ []) ≡ true
unfolding is_active any
answer_is_active = refl

handle_stoploss_on_exchange-active_example :
    handle_stoploss_on_exchange parts exit_desk (stop_desk "open") guarded ≡ ok (false, followed)
handle_stoploss_on_exchange-active_example =
    handle_stoploss_on_exchange-active parts exit_desk (stop_desk "open") guarded followed
      (stop_answer "open" ∷ []) refl found_is_ok answer_is_active

abbrev handled : Stop parts exit_desk (stop_desk "triggered") (Bool × Leaving ℕ (List PairLock))
handled = handle_stoploss_on_exchange parts exit_desk (stop_desk "triggered") guarded

abbrev stopped_trade : Leaving ℕ (List PairLock)
stopped_trade = (value_or (false, guarded) handled).1

handled_is_ok : handled ≡ ok (true, stopped_trade)
unfolding handle_stoploss_on_exchange open_sl_orders trade_direction update_trade_state update_order
    check_order_canceled_empty is_non_open select_order_by_order_id handle_order_fee fee_updated
    order_has_fee extract_cost_curr_rate nr_of_successful_entries select update_fee update_trade
    fills safe_amount_after_fee amount_to_contract_precision stopped_on_exchange pay_funding close
    date_of_close recalc_trade_from_orders entry_side exit_side safe_price update_trade_after_fill
    order_close_notify handle_protections date_last_filled count_orders count_order count_entry
    count_amount count_exit calculate_profit settle take_profit still_open adjust_stop_loss
    recalc_open_trade_value price_to_precision stop_per_pair global_stop
handled_is_ok = refl

handle_stoploss_on_exchange-IsStopped_example :
    IsStopped parts exit_desk
      (stop_desk "triggered")
      table-SessionLaws
      five_minutes-CcxtLaws
      in_range
      stopped_trade.position
handle_stoploss_on_exchange-IsStopped_example =
    handle_stoploss_on_exchange-IsStopped parts exit_desk (stop_desk "triggered") table-SessionLaws
      five_minutes-CcxtLaws in_range guarded stopped_trade handled_is_ok
