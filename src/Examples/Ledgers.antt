-- ===== src/Examples/Ledgers.antt =====
-- The theorems on the orders of a trade at concrete values.
use freqtrade_llm.Base.{ℕ, true, false, none, some, [], ◌∷◌, is_some, ◌≡◌, refl, arith, inl}
use freqtrade_llm.Base.Result.{ok}
use freqtrade_llm.Exchange.Precision.{amount_to_contract_precision, price_to_precision}
use freqtrade_llm.Persistence.Order.{
  Order, buy, sell, safe_price, safe_amount_after_fee, safe_filled, safe_fee_base,
}
use freqtrade_llm.Persistence.Trade.{Trade, entry_side, exit_side}
use freqtrade_llm.Persistence.Trade.Profit.{max_stake}
use freqtrade_llm.Persistence.Trade.Ledger.{recalc_trade_from_orders}
use freqtrade_llm.Persistence.Trade.Ledger.Filling.{update_trade, fills}
use freqtrade_llm.Persistence.Trade.Ledger.Mean.{
  recalc_trade_from_orders-Mean, total_amount, total_cost,
}
use freqtrade_llm.Persistence.Trade.Ledger.Closing.{update_trade-closes, IsRegular}
use freqtrade_llm.Examples.Setting.{whole, exact, digits}
use freqtrade_llm.Examples.Trades.{long_trade, python}

abbrev pub entry_order : Order ℕ
entry_order = record {
  order_id = "a";
  ft_order_side = buy;
  side = some buy;
  ft_is_open = false;
  ft_amount = 10;
  ft_price = 100;
  status = some "closed";
  price = some 100;
  average = some 100;
  amount = some 10;
  filled = some 10;
  remaining = some 0;
  cost = some 1000;
  stop_price = none;
  order_date = 1000;
  order_filled_date = some 2000;
  funding_fee = none;
  ft_fee_base = none;
}

-- A second entry at a higher price, and the exit of both
abbrev pub second_order : Order ℕ
second_order = record entry_order { order_id = "b"; average = some 200 }

abbrev pub exit_order : Order ℕ
exit_order = record entry_order {
  order_id = "c";
  ft_order_side = sell;
  side = some sell;
  average = some 180;
  amount = some 20;
  filled = some 20;
}

abbrev entered_trade : Trade ℕ
entered_trade = record long_trade { orders = entry_order ∷ second_order ∷ [] }

recalc_trade_from_orders-Mean_example :
    (u : Trade ℕ) × (recalc_trade_from_orders exact digits python false 5000 entered_trade ≡ ok u)
    × (u.amount ≡ 20)
    × (u.open_rate ≡ 150)
    × (u.stake_amount ≡ 3000)
    × (u.realized_profit ≡ 0)
unfolding total_amount total_cost amount_to_contract_precision price_to_precision
    safe_amount_after_fee safe_price safe_filled safe_fee_base entry_side
recalc_trade_from_orders-Mean_example =
    recalc_trade_from_orders-Mean exact digits python (λ x. ground arith) 5000 entered_trade refl
      ((λ c. (refl, refl)), ((λ c. (refl, refl)), tt)) refl

abbrev pub full_trade : Trade ℕ
full_trade = record entered_trade {
  orders = entry_order ∷ second_order ∷ exit_order ∷ [];
  amount = 20;
  open_rate = 150;
}

full_trade-IsRegular : IsRegular exact digits python full_trade
unfolding max_stake safe_amount_after_fee safe_filled safe_fee_base
full_trade-IsRegular = record {
  supported = inl (λ e. ground arith);
  has_stake = λ stake e. ground arith;
  amounts = ((λ c. refl), ((λ c. refl), ((λ c. refl), tt)));
  dated = (refl, (refl, (refl, tt)));
}

update_trade-closes_example :
    (u : Trade ℕ) × (update_trade exact digits python exit_order false 5000 full_trade ≡ ok u)
    × (u.is_open ≡ false)
    × (true ≡ true → (u.close_rate ≡ some 180) × (is_some u.close_date ≡ true))
    × (true ≡ false → (u.close_rate ≡ none) × (u.close_date ≡ none))
unfolding fills safe_price safe_amount_after_fee safe_filled safe_fee_base entry_side exit_side
    amount_to_contract_precision
update_trade-closes_example =
    update_trade-closes exact digits python exit_order false 5000 full_trade (λ c. refl) refl
      full_trade-IsRegular
