-- ===== src/FreqtradeBot/Stopping/Remaining.antt =====
-- The trade in the database when freqtrade/freqtradebot.py handles its stop losses on the exchange.
use freqtrade_llm.Base.{
  Bool, true, false, not, ◌&&◌, ◌||◌, Option, none, some, List, [], ◌∷◌, ◌++◌, str_eq, ltb, ◌==◌,
  length, last?, select, if_both,
}
use freqtrade_llm.Base.Float.{Float}
use freqtrade_llm.Base.Result.{Leaves, Leaves-bind, Result, ok, err}
use freqtrade_llm.Exchange.Fees.{CcxtOrder}
use freqtrade_llm.Persistence.Order.{Order}
use freqtrade_llm.Persistence.Trade.{
  exit_side, trade_direction, open_sl_orders, has_open_orders, stoploss_or_liquidation,
}
use freqtrade_llm.Plugins.Protections.{Error}
use freqtrade_llm.Strategy.{ExitType, stoploss_on_exchange, value, exit_check}
use freqtrade_llm.FreqtradeBot.{
  Exception, other, is_dependency, is_invalid_order, is_exchange_error,
}
use freqtrade_llm.FreqtradeBot.Exiting.{
  Leaving, ExitDesk, Exit, leaving, handle_insufficient_funds, is_insufficient,
}
use freqtrade_llm.FreqtradeBot.Exiting.Staying.{handle_insufficient_funds-Keeps}
use freqtrade_llm.FreqtradeBot.Exiting.Remaining.{
  Rests, FlagRests, Remains, leaving-Leaves, execute_trade_exit-Remains,
}
use freqtrade_llm.FreqtradeBot.Orders.{Position, Parts, within, with_trade}
use freqtrade_llm.FreqtradeBot.Orders.Following.{update_trade_state, cancel_stoploss_on_exchange}
use freqtrade_llm.FreqtradeBot.Orders.Keeping.{
  Any, Keeps, Stays, FlagStays, within-Keeps, update_trade_state-Keeps,
  cancel_stoploss_orders-Keeps,
}
use freqtrade_llm.FreqtradeBot.Protecting.{handle_protections}
use freqtrade_llm.FreqtradeBot.Stopping.{
  StopDesk, Stop, Found, is_canceled_stop, is_hit, unless_dependent, emergency_exit,
  stoploss_created, create_stoploss_order, stoploss_adjust, stoploss_norm, is_due,
  handle_trailing_stoploss_on_exchange, trailed, manage_trade_stoploss_orders, if_valid_stop,
  fetched_stop, stopped_out, follow_stop, follow_stops, add_stoploss, handle_stoploss_on_exchange,
}

module _ {F P Db : Type 0} ⦃f : Float F⦄ (x : Parts F P Db) (y : ExitDesk F) (z : StopDesk F)
    (b : Bool) where
  open f use {zero, lt}

  abbrev FoundRests : Bool × List (CcxtOrder F) × Leaving F Db → Type 0
  FoundRests (hit, orders, s) = Rests b s

  unless_dependent-Leaves :
      (r : Exit x y) → Remains x y b r → Leaves (Rests b) (Rests b) (unless_dependent x y z r)
  unless_dependent-Leaves (ok (exited, s)) h = h
  unless_dependent-Leaves (err (e, s)) h =
      if_both (Leaves (Rests b) (Rests b)) (is_dependency e) (ok s) (err (e, s)) h h

  emergency_exit-Leaves :
      (price : F) (sub_trade_amt : Option F) (s : Leaving F Db)
      → Rests b s
      → Leaves (Rests b) (Rests b) (emergency_exit x y z price sub_trade_amt s)
  unfolding emergency_exit
  emergency_exit-Leaves price sub_trade_amt s h = unless_dependent-Leaves _ (
      execute_trade_exit-Remains x y b price (exit_check ExitType.emergency_exit "") none
        sub_trade_amt s h)

  stoploss_created-Leaves :
      (stop_price : F) (s : Leaving F Db) (r : Result Exception (CcxtOrder F))
      → Rests b s
      → Leaves (Rests b) (FlagRests b) (stoploss_created x y z stop_price s r)
  unfolding stoploss_created
  stoploss_created-Leaves stop_price s (ok order) h = h
  stoploss_created-Leaves stop_price s (err e) h =
      let p = s.position in
      let failed : Exit x y = ok (false, s) in
      if_both (Leaves (Rests b) (FlagRests b)) (is_insufficient x y e) _ _
        (Leaves-bind (Rests b) (Stays b) (FlagRests b)
          (leaving x y s.seen (handle_insufficient_funds x y p.trade.orders p)) _
          (leaving-Leaves x y b (Stays b) s.seen _
            (handle_insufficient_funds-Keeps x y b p.trade.orders p h))
          (λ q k. k))
        (if_both (Leaves (Rests b) (FlagRests b)) (is_invalid_order e) _ _
          (Leaves-bind (Rests b) (Rests b) (FlagRests b) (emergency_exit x y z stop_price none s) _
            (emergency_exit-Leaves stop_price none s h) (λ u k. k))
          (if_both (Leaves (Rests b) (FlagRests b)) (is_exchange_error e) failed (err (e, s)) h h))

  create_stoploss_order-Leaves :
      (stop_price : F) (s : Leaving F Db)
      → Rests b s
      → Leaves (Rests b) (FlagRests b) (create_stoploss_order x y z stop_price s)
  unfolding create_stoploss_order
  create_stoploss_order-Leaves stop_price s h = stoploss_created-Leaves stop_price s _ h

  trailing-Leaves :
      (order : CcxtOrder F) (s : Leaving F Db)
      → Rests b s
      → Leaves (Rests b) (Rests b) (handle_trailing_stoploss_on_exchange x y z order s)
  unfolding handle_trailing_stoploss_on_exchange cancel_stoploss_on_exchange
  trailing-Leaves order s h =
      let t = s.position.trade in
      Leaves-bind (Rests b) Any (Rests b)
        (leaving x y s.seen (
          within (λ e. e) s.position
            (stoploss_adjust x y z (stoploss_norm x y z t) order (exit_side t))))
        _ (leaving-Leaves x y b Any s.seen _ (within-Keeps b (λ e. e) s.position _ h))
        λ adjust u.
          let unchanged : Stop x y z (Leaving F Db) = ok s in
          if_both (Leaves (Rests b) (Rests b)) (adjust && is_due x y z t) _ unchanged
            (Leaves-bind (Rests b) (Stays b) (Rests b)
              (leaving x y s.seen (cancel_stoploss_on_exchange x s.position)) _
              (leaving-Leaves x y b (Stays b) s.seen _
                (cancel_stoploss_orders-Keeps x b (open_sl_orders t) s.position h))
              λ q k.
                let v : Leaving F Db = record s { position = q } in
                let closed : Stop x y z (Leaving F Db) = ok v in
                if_both (Leaves (Rests b) (Rests b)) (not q.trade.is_open) closed _ k (
                  Leaves-bind (Rests b) (FlagRests b) (Rests b)
                    (create_stoploss_order x y z (stoploss_norm x y z t) v) _
                    (create_stoploss_order-Leaves (stoploss_norm x y z t) v k) (λ (flag, w) l. l)))
            h

  trailed-Leaves :
      (active : Option (CcxtOrder F)) (s : Leaving F Db)
      → Rests b s
      → Leaves (Rests b) (Rests b) (trailed x y z active s)
  trailed-Leaves none s h = h
  trailed-Leaves (some order) s h =
      if_both (Leaves (Rests b) (Rests b)) _ (handle_trailing_stoploss_on_exchange x y z order s)
        (ok s) (trailing-Leaves order s h) h

  manage-Leaves :
      (orders : List (CcxtOrder F)) (s : Leaving F Db)
      → Rests b s
      → Leaves (Rests b) (Rests b) (manage_trade_stoploss_orders x y z orders s)
  unfolding manage_trade_stoploss_orders
  manage-Leaves orders s h =
      let t = s.position.trade in
      let active = last? (select (λ o. not (is_canceled_stop o)) orders) in
      if_both (Leaves (Rests b) (Rests b))
        (t.is_open
          && ltb 0 (length orders)
          && (length orders == length (select is_canceled_stop orders)))
        _ (trailed x y z active s)
        (Leaves-bind (Rests b) (FlagRests b) (Rests b)
          (create_stoploss_order x y z (stoploss_or_liquidation t) s) _
          (create_stoploss_order-Leaves (stoploss_or_liquidation t) s h)
          λ (created, u) k.
            if_both (Leaves (Rests b) (Rests b)) created (ok u) (trailed x y z active u) k
              (trailed-Leaves active u k))
        (trailed-Leaves active s h)

  if_valid_stop-Leaves :
      (s : Leaving F Db) (r : Result Exception (CcxtOrder F))
      → Rests b s
      → Leaves (Rests b) Any (if_valid_stop x y z s r)
  if_valid_stop-Leaves s (ok order) h = tt
  if_valid_stop-Leaves s (err e) h =
      let unknown : Stop x y z (Option (CcxtOrder F)) = ok none in
      if_both (Leaves (Rests b) Any) (is_invalid_order e) unknown (err (e, s)) tt h

  fetched_stop-Leaves :
      (slo : Order F) (s : Leaving F Db)
      → Rests b s
      → Leaves (Rests b) Any (fetched_stop x y z slo s)
  unfolding fetched_stop
  fetched_stop-Leaves slo s h =
      let unnamed : Stop x y z (Option (CcxtOrder F)) = ok none in
      if_both (Leaves (Rests b) Any) (str_eq slo.order_id "") unnamed _ tt
        (if_valid_stop-Leaves s _ h)

  stopped_out-Keeps : (p : Position F Db) → Stays b p → Keeps b (Stays b) (stopped_out x y z p)
  unfolding stopped_out
  stopped_out-Keeps p h =
      let t = record p.trade { exit_reason = some (value stoploss_on_exchange) } in
      let q : Position F Db = with_trade x p t in
      Leaves-bind (Stays b) Any (Stays b)
        (within (λ (e : Error). other) q
          (handle_protections x.texts (x.trades t) x.session x.ccxt x.clock x.handlers t.pair
            (trade_direction t) p.locks))
        _ (within-Keeps b (λ (e : Error). other) q _ h) (λ done u. h)

  follow_stop-Leaves :
      (next : List (CcxtOrder F) → Leaving F Db → Found x y z) (slo : Order F)
      (found : List (CcxtOrder F)) (s : Leaving F Db) (answer : Option (CcxtOrder F))
      → ((os : List (CcxtOrder F)) (u : Leaving F Db)
          → Rests b u
          → Leaves (Rests b) FoundRests (next os u))
      → Rests b s
      → Leaves (Rests b) FoundRests (follow_stop x y z next slo found s answer)
  follow_stop-Leaves next slo found s none n h = n found s h
  follow_stop-Leaves next slo found s (some order) n h =
      Leaves-bind (Rests b) (FlagStays b) FoundRests
        (leaving x y s.seen (update_trade_state x slo.order_id (some order) true true s.position)) _
        (leaving-Leaves x y b (FlagStays b) s.seen _
          (update_trade_state-Keeps x b slo.order_id (some order) true true s.position h))
        λ (flag, q) k.
          if_both (Leaves (Rests b) FoundRests) (is_hit order) _ _
            (Leaves-bind (Rests b) (Stays b) FoundRests (leaving x y s.seen (stopped_out x y z q)) _
              (leaving-Leaves x y b (Stays b) s.seen _ (stopped_out-Keeps q k)) (λ r l. l))
            (n (found ++ order ∷ []) (record s { position = q }) k)

  follow_stops-Leaves :
      (slos : List (Order F)) (found : List (CcxtOrder F)) (s : Leaving F Db)
      → Rests b s
      → Leaves (Rests b) FoundRests (follow_stops x y z slos found s)
  unfolding follow_stops
  follow_stops-Leaves [] found s h = h
  follow_stops-Leaves (slo ∷ slos) found s h =
      Leaves-bind (Rests b) Any FoundRests (fetched_stop x y z slo s) _
        (fetched_stop-Leaves slo s h)
        (λ answer u.
          follow_stop-Leaves (follow_stops x y z slos) slo found s answer (follow_stops-Leaves slos)
            h)

  add_stoploss-Leaves :
      (hit : Bool) (orders : List (CcxtOrder F)) (s : Leaving F Db)
      → Rests b s
      → Leaves (Rests b) (FlagRests b) (add_stoploss x y z (hit, orders, s))
  add_stoploss-Leaves true orders s h = h
  add_stoploss-Leaves false orders s h =
      let t = s.position.trade in
      let unchanged : Exit x y = ok (false, s) in
      if_both (Leaves (Rests b) (FlagRests b))
        (not (lt zero t.amount) || not t.is_open || (has_open_orders t && z.blocks_assets))
        unchanged _ h
        (if_both (Leaves (Rests b) (FlagRests b)) (length orders == 0) _ _
          (Leaves-bind (Rests b) (FlagRests b) (FlagRests b)
            (create_stoploss_order x y z (stoploss_or_liquidation t) s) _
            (create_stoploss_order-Leaves (stoploss_or_liquidation t) s h)
            λ (flag, u) k. if_both (Leaves (Rests b) (FlagRests b)) flag (ok (false, u)) _ k (
              Leaves-bind (Rests b) (Rests b) (FlagRests b)
                (manage_trade_stoploss_orders x y z orders u) _ (manage-Leaves orders u k)
                (λ v l. l)))
          (Leaves-bind (Rests b) (Rests b) (FlagRests b)
            (manage_trade_stoploss_orders x y z orders s) _ (manage-Leaves orders s h) (λ v l. l)))

  -- Handling the stop losses on the exchange neither deletes the trade nor brings it back, whether it
  -- returns or raises, although it may leave the trade in an emergency.
  pub handle_stoploss_on_exchange-Remains :
      (s : Leaving F Db) → Stays b s.position → Remains x y b (handle_stoploss_on_exchange x y z s)
  unfolding handle_stoploss_on_exchange
  handle_stoploss_on_exchange-Remains s h =
      (Leaves-bind (Rests b) FoundRests (FlagRests b)
        (follow_stops x y z (open_sl_orders s.position.trade) [] s) _
        (follow_stops-Leaves (open_sl_orders s.position.trade) [] s h)
        (λ (hit, orders, u) k. add_stoploss-Leaves hit orders u k))
