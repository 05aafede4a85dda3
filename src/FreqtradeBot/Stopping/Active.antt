-- ===== src/FreqtradeBot/Stopping/Active.antt =====
-- A stop loss that is active on the exchange, when freqtrade/freqtradebot.py handles it.
use freqtrade_llm.Base.{
  suc, ◌≤◌, ◌≡◌, refl, Bool, true, false, not, ◌&&◌, List, [], ◌∷◌, ltb, ◌==◌, length, select, any,
  Option, none, some, arith, length-select-le, if_both, if_cases,
}
use freqtrade_llm.Base.Float.{Float}
use freqtrade_llm.Base.Result.{ok}
use freqtrade_llm.Exchange.Fees.{CcxtOrder}
use freqtrade_llm.Persistence.Trade.{open_sl_orders}
use freqtrade_llm.FreqtradeBot.Exiting.{Leaving, ExitDesk, Exit}
use freqtrade_llm.FreqtradeBot.Orders.{Parts}
use freqtrade_llm.FreqtradeBot.Stopping.{
  StopDesk, Stop, is_canceled_stop, trailed, manage_trade_stoploss_orders, follow_stops,
  add_stoploss, handle_stoploss_on_exchange,
}

module _ {F : Type 0} where
  -- Some of the orders is not canceled.
  unfoldable pub is_active : List (CcxtOrder F) → Bool
  is_active orders = any (λ o. not (is_canceled_stop o)) orders

  active-length :
      (orders : List (CcxtOrder F))
      → is_active orders ≡ true
      → suc (length (select is_canceled_stop orders)) ≤ length orders
  unfolding is_active any select
  active-length [] h = ground arith
  active-length (o ∷ os) h = ground (arith, length-select-le is_canceled_stop os, active-length os)

  active-not_all :
      (orders : List (CcxtOrder F))
      → is_active orders ≡ true
      → (length orders == length (select is_canceled_stop orders)) ≡ false
  active-not_all orders h = ground (arith, active-length orders h)

  active-not_empty :
      (orders : List (CcxtOrder F)) → is_active orders ≡ true → (length orders == 0) ≡ false
  active-not_empty orders h = ground (arith, active-length orders h)

module _ {F P Db : Type 0} ⦃f : Float F⦄ (x : Parts F P Db) (y : ExitDesk F) (z : StopDesk F) where
  open f use {zero, lt}

  trailed-fixed :
      (active : Option (CcxtOrder F)) (s : Leaving F Db)
      → z.trailing ≡ false
      → trailed x y z active s ≡ ok s
  trailed-fixed none s h = refl
  trailed-fixed (some order) s h = ground arith

  manage-active :
      (orders : List (CcxtOrder F)) (s : Leaving F Db)
      → z.trailing ≡ false
      → is_active orders ≡ true
      → manage_trade_stoploss_orders x y z orders s ≡ ok s
  unfolding manage_trade_stoploss_orders
  manage-active orders s h k =
      if_cases (λ (r : Stop x y z (Leaving F Db)). r ≡ ok s)
        (s.position.trade.is_open
          && ltb 0 (length orders)
          && (length orders == length (select is_canceled_stop orders)))
        _ _ (λ e. ground (arith, active-not_all orders k)) (λ e. trailed-fixed _ s h)

  add_stoploss-active :
      (orders : List (CcxtOrder F)) (s : Leaving F Db)
      → z.trailing ≡ false
      → is_active orders ≡ true
      → add_stoploss x y z (false, orders, s) ≡ ok (false, s)
  add_stoploss-active orders s h k =
      let unchanged : Exit x y = ok (false, s) in
      rw (active-not_empty orders k, manage-active orders s h k)
        (if_both (λ (r : Exit x y). r ≡ ok (false, s)) _ unchanged unchanged refl refl)

  -- While one of the stop losses that were found on the exchange is not canceled, and stop losses
  -- neither trail nor are custom, no further stop loss is created: nothing changes but by following
  -- those orders.
  pub handle_stoploss_on_exchange-active :
      (s u : Leaving F Db) (orders : List (CcxtOrder F))
      → z.trailing ≡ false
      → follow_stops x y z (open_sl_orders s.position.trade) [] s ≡ ok (false, orders, u)
      → is_active orders ≡ true
      → handle_stoploss_on_exchange x y z s ≡ ok (false, u)
  unfolding handle_stoploss_on_exchange
  handle_stoploss_on_exchange-active s u orders h e k = rw e (add_stoploss-active orders u h k)
