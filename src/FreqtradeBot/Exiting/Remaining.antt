-- ===== src/FreqtradeBot/Exiting/Remaining.antt =====
-- The trade in the database when freqtrade/freqtradebot.py executes exits.
use freqtrade_llm.Base.{
  ◌≡◌, Bool, true, false, not, ◌&&◌, ◌||◌, Option, none, some, List, [], ◌∷◌, String, if_both,
}
use freqtrade_llm.Base.Float.{Float, truthy?, or_else}
use freqtrade_llm.Base.Result.{Leaves, Leaves-bind, Result, ok, err, ◌>>=◌}
use freqtrade_llm.Exchange.Fees.{CcxtOrder}
use freqtrade_llm.Persistence.Trade.{exit_side, open_sl_orders, set_funding_fees}
use freqtrade_llm.Persistence.Trade.Profit.{ProfitError, calc_profit_ratio}
use freqtrade_llm.Strategy.{ExitCheckTuple}
use freqtrade_llm.FreqtradeBot.{Exception, other}
use freqtrade_llm.FreqtradeBot.Canceling.{is_status}
use freqtrade_llm.FreqtradeBot.Exiting.{
  Leaving, ExitDesk, Exit, leaving, stayed, handle_similar_open_order, handle_insufficient_funds,
  with_exit_order, exit_ordered, is_insufficient, exit_placed, exit_confirmed, is_liquidation,
  reason_of, execute_trade_exit, is_passed_over, exit_tag1, execute_exits, asked_exits,
  check_and_execute_exit,
}
use freqtrade_llm.FreqtradeBot.Exiting.Staying.{
  handle_similar_open_order-Keeps, handle_insufficient_funds-Keeps,
}
use freqtrade_llm.FreqtradeBot.Orders.{Position, Parts, Act, within, with_trade}
use freqtrade_llm.FreqtradeBot.Orders.Following.{update_trade_state, cancel_stoploss_on_exchange}
use freqtrade_llm.FreqtradeBot.Orders.Keeping.{
  Any, Keeps, Stays, FlagStays, within-Keeps, update_trade_state-Keeps,
  cancel_stoploss_orders-Keeps,
}
use freqtrade_llm.FreqtradeBot.Pricing.{get_valid_price, safe_exit_amount}

module _ {F Db : Type 0} (b : Bool) where
  abbrev pub Rests : Leaving F Db → Type 0
  Rests s = s.position.in_database ≡ b

  abbrev pub FlagRests : Bool × Leaving F Db → Type 0
  FlagRests (flag, s) = Rests s

module _ {F P Db : Type 0} ⦃f : Float F⦄ (x : Parts F P Db) (y : ExitDesk F) (b : Bool) where
  -- What is returned, and what a raise leaves, is as much in the database as it was before.
  abbrev pub Remains : Exit x y → Type 0
  Remains r = Leaves (Rests b) (FlagRests b) r

  pub leaving-Leaves :
      {A : Type 0} (Q : A → Type 0) (seen : List String) (r : Act (Position F Db) A)
      → Keeps b Q r
      → Leaves (Rests b) Q (leaving x y seen r)
  leaving-Leaves Q seen (ok a) h = h
  leaving-Leaves Q seen (err (e, p)) h = h

  pub leaving-Remains :
      {A : Type 0} (Q : A → Type 0) (seen : List String) (r : Act (Position F Db) A)
      (k : A → Exit x y)
      → Keeps b Q r
      → ((a : A) → Q a → Remains (k a))
      → Remains (leaving x y seen r >>= k)
  leaving-Remains Q seen r k h n =
      Leaves-bind (Rests b) Q (FlagRests b) (leaving x y seen r) k (leaving-Leaves Q seen r h) n

  exit_ordered-Remains :
      (order : CcxtOrder F) (reason : String) (limit amount : F) (seen : List String)
      (p : Position F Db)
      → Stays b p
      → Remains (exit_ordered x y order reason limit amount seen p)
  unfolding exit_ordered with_exit_order
  exit_ordered-Remains order reason limit amount seen p h =
      let done = with_exit_order x y order reason limit amount p in
      let kept : Exit x y = ok (true, record { position = done; seen = reason ∷ seen }) in
      if_both Remains (is_status "closed" order.status || is_status "expired" order.status) _ kept
        (leaving-Remains (FlagStays b) (reason ∷ seen)
          (update_trade_state x order.id (some order) false true done) _
          (update_trade_state-Keeps x b order.id (some order) false true done h) (λ (flag, q) k. k))
        h

  exit_placed-Remains :
      (r : Result Exception (CcxtOrder F)) (reason : String) (limit amount : F) (seen : List String)
      (p : Position F Db)
      → Stays b p
      → Remains (exit_placed x y r reason limit amount seen p)
  exit_placed-Remains (ok order) reason limit amount seen p h =
      exit_ordered-Remains order reason limit amount seen p h
  exit_placed-Remains (err e) reason limit amount seen p h =
      let raised : Exit x y = err (e, record { position = p; seen = seen }) in
      if_both Remains (is_insufficient x y e) _ raised
        (leaving-Remains (Stays b) seen (handle_insufficient_funds x y p.trade.orders p) _
          (handle_insufficient_funds-Keeps x y b p.trade.orders p h) (λ q k. k))
        h

  exit_confirmed-Remains :
      (check : ExitCheckTuple) (reason : String) (limit amount : F) (sub_trade_amt : Option F)
      (seen : List String) (p : Position F Db)
      → Stays b p
      → Remains (exit_confirmed x y check reason limit amount sub_trade_amt seen p)
  unfolding exit_confirmed
  exit_confirmed-Remains check reason limit amount sub_trade_amt seen p h =
      if_both Remains
        (not (is_liquidation check.exit_type)
          && not (truthy? sub_trade_amt)
          && not (y.confirm_trade_exit p.trade amount limit reason))
        (stayed x y seen p) _ h
        (leaving-Remains (FlagStays b) seen
          (handle_similar_open_order x y limit amount (exit_side p.trade) p) _
          (handle_similar_open_order-Keeps x y b limit amount (exit_side p.trade) p h)
          λ (similar, q) k. if_both Remains similar (stayed x y seen q) _ k (
            exit_placed-Remains
              (y.create_order q.trade.pair (exit_side q.trade) amount limit q.trade.leverage) reason
              limit amount seen q k))

  pub execute_trade_exit-Remains :
      (proposed : F) (check : ExitCheckTuple) (exit_tag : Option String) (sub_trade_amt : Option F)
      (s : Leaving F Db)
      → Stays b s.position
      → Remains (execute_trade_exit x y proposed check exit_tag sub_trade_amt s)
  unfolding execute_trade_exit cancel_stoploss_on_exchange
  execute_trade_exit-Remains proposed check exit_tag sub_trade_amt s h =
      let p = s.position in
      let t = set_funding_fees p.trade (y.get_funding_fees p.trade) in
      leaving-Remains Any s.seen
        (within (λ (e : ProfitError). other) (with_trade x p t)
          (calc_profit_ratio x.pr x.py t x.clock proposed none none))
        _ (within-Keeps b (λ (e : ProfitError). other) (with_trade x p t) _ h)
        λ profit v.
          leaving-Remains (Stays b) s.seen (cancel_stoploss_on_exchange x (with_trade x p t)) _
            (cancel_stoploss_orders-Keeps x b (open_sl_orders t) (with_trade x p t) h)
            λ q k.
              leaving-Remains Any s.seen
                (within (λ e. e) q
                  (safe_exit_amount y.almost y.config y.wallets
                    (y.get_pair_base_currency q.trade.pair) (or_else sub_trade_amt q.trade.amount)
                    q.trade))
                _ (within-Keeps b (λ e. e) q _ k)
                λ (amount, u) w.
                  exit_confirmed-Remains check (reason_of exit_tag check)
                    (get_valid_price y.custom_price_max_distance_ratio
                      (y.custom_exit_price t proposed profit (reason_of exit_tag check)) proposed)
                    amount sub_trade_amt s.seen (with_trade x q u) k

  -- Executing the exits of a strategy neither deletes the trade nor brings it back, whether it returns
  -- or raises, although open entries of the trade may be canceled for it.
  execute_exits-Remains :
      (exit_rate : F) (exit_tag : Option String) (checks : List ExitCheckTuple) (s : Leaving F Db)
      → Stays b s.position
      → Remains (execute_exits x y exit_rate exit_tag checks s)
  unfolding execute_exits
  execute_exits-Remains exit_rate exit_tag [] s h = h
  execute_exits-Remains exit_rate exit_tag (check ∷ checks) s h =
      if_both Remains (is_passed_over x y exit_tag s check)
        (execute_exits x y exit_rate exit_tag checks s) _
        (execute_exits-Remains exit_rate exit_tag checks s h)
        (Leaves-bind (Rests b) (FlagRests b) (FlagRests b)
          (execute_trade_exit x y exit_rate check (exit_tag1 x y exit_tag check) none s) _
          (execute_trade_exit-Remains exit_rate check (exit_tag1 x y exit_tag check) none s h)
          λ (exited, u) k.
            if_both Remains exited (ok (true, u)) (execute_exits x y exit_rate exit_tag checks u) k
              (execute_exits-Remains exit_rate exit_tag checks u k))

  pub check_and_execute_exit-Remains :
      (exit_rate : F) (enter exit_ : Bool) (exit_tag : Option String) (s : Leaving F Db)
      → Stays b s.position
      → Remains (check_and_execute_exit x y exit_rate enter exit_ exit_tag s)
  unfolding check_and_execute_exit
  check_and_execute_exit-Remains exit_rate enter exit_ exit_tag s h =
      let (t, exits) = asked_exits x y s.position.trade exit_rate enter exit_ in
      execute_exits-Remains exit_rate exit_tag exits
        (record s { position = with_trade x s.position t }) h
