-- ===== src/FreqtradeBot/Stopping/Hit.antt =====
-- A stop loss that was hit on the exchange, when freqtrade/freqtradebot.py handles it.
use freqtrade_llm.Base.{
  ◌≡◌, refl, Bool, true, false, not, ◌&&◌, ◌||◌, Option, none, some, List, [], ◌∷◌, ◌++◌, String,
  str_eq, ◌==◌, length, if_both, arith, ◌⊎◌, inl, inr, Bool-cases, eq_iff,
}
use freqtrade_llm.Base.Float.{Float}
use freqtrade_llm.Base.Result.{
  Result, ok, err, ◌>>=◌, Ensures, Ensures-bind, Ensures-then, Ensures-returned,
}
use freqtrade_llm.Exchange.Fees.{CcxtOrder}
use freqtrade_llm.Exchange.Timeframe.{CcxtLaws}
use freqtrade_llm.Persistence.Order.{Order}
use freqtrade_llm.Persistence.PairLock.{SessionLaws}
use freqtrade_llm.Persistence.PairLocks.{is_pair_locked}
use freqtrade_llm.Persistence.Trade.{
  trade_direction, open_sl_orders, has_open_orders, stoploss_or_liquidation,
}
use freqtrade_llm.Plugins.Protections.{Error}
use freqtrade_llm.Plugins.ProtectionManager.InForce.{InRange}
use freqtrade_llm.Strategy.{stoploss_on_exchange, value}
use freqtrade_llm.FreqtradeBot.{other}
use freqtrade_llm.FreqtradeBot.Exiting.{Leaving, ExitDesk, Exit, leaving}
use freqtrade_llm.FreqtradeBot.Orders.{Position, Parts, Act, within, within-ok, with_trade}
use freqtrade_llm.FreqtradeBot.Orders.Following.{update_trade_state}
use freqtrade_llm.FreqtradeBot.Protecting.{Protected, handle_protections}
use freqtrade_llm.FreqtradeBot.Protecting.Locked.{handle_protections-is_pair_locked}
use freqtrade_llm.FreqtradeBot.Stopping.{
  StopDesk, Stop, Found, is_hit, create_stoploss_order, manage_trade_stoploss_orders, fetched_stop,
  stopped_out, follow_stop, follow_stops, add_stoploss, handle_stoploss_on_exchange,
}

module _ {F P Db : Type 0} ⦃f : Float F⦄ (x : Parts F P Db) (y : ExitDesk F) (z : StopDesk F)
    (laws : SessionLaws x.session) (times : CcxtLaws x.ccxt)
    (range : (tf : String) → InRange x.ccxt tf x.clock) where
  open f use {zero, lt}

  -- The exit has its reason, and the pair is locked at that moment for the direction of the trade,
  -- where the pair is not the empty text.
  unfoldable pub IsStopped : Position F Db → Type 0
  IsStopped p =
      (p.trade.exit_reason ≡ some "stoploss_on_exchange")
      × ((str_eq p.trade.pair "" ≡ true)
          ⊎ (is_pair_locked x.session x.clock p.locks p.trade.pair (some x.clock)
                (trade_direction p.trade)
              ≡ true))

  abbrev FlagStopped : Bool × Leaving F Db → Type 0
  FlagStopped (flag, s) = flag ≡ true → IsStopped s.position

  abbrev FoundStopped : Bool × List (CcxtOrder F) × Leaving F Db → Type 0
  FoundStopped (hit, orders, s) = hit ≡ true → IsStopped s.position

  stopped_out-IsStopped : (p : Position F Db) → Ensures IsStopped (stopped_out x y z p)
  unfolding stopped_out IsStopped value
  stopped_out-IsStopped p =
      let t = record p.trade { exit_reason = some (value stoploss_on_exchange) } in
      let asked : Result Error (Protected Db) =
        handle_protections x.texts (x.trades t) x.session x.ccxt x.clock x.handlers t.pair
          (trade_direction t) p.locks in
      Ensures-bind IsStopped (within (λ (e : Error). other) (with_trade x p t) asked) _ λ done e. (
        refl,
        elim (Bool-cases (str_eq t.pair "")) [
          | inl unnamed ↦ inl unnamed
          | inr named ↦ inr (
              handle_protections-is_pair_locked x.texts (x.trades t) x.session x.ccxt x.clock t.pair
                (λ (k : t.pair ≡ ""). ground (arith, eq_iff t.pair "")) laws times x.handlers
                (trade_direction t) p.locks done (range p.locks.timeframe)
                (within-ok (λ (e : Error). other) (with_trade x p t) asked done e))
        ],
      )

  leaving-Ensures :
      {A : Type 0} (Q : A → Type 0) (seen : List String) (r : Act (Position F Db) A)
      → Ensures Q r
      → Ensures Q (leaving x y seen r)
  leaving-Ensures Q seen (ok a) h = h
  leaving-Ensures Q seen (err (e, p)) h = tt

  follow_stop-Stopped :
      (next : List (CcxtOrder F) → Leaving F Db → Found x y z) (slo : Order F)
      (found : List (CcxtOrder F)) (s : Leaving F Db) (answer : Option (CcxtOrder F))
      → ((os : List (CcxtOrder F)) (u : Leaving F Db) → Ensures FoundStopped (next os u))
      → Ensures FoundStopped (follow_stop x y z next slo found s answer)
  follow_stop-Stopped next slo found s none n = n found s
  follow_stop-Stopped next slo found s (some order) n =
      Ensures-bind FoundStopped
        (leaving x y s.seen (update_trade_state x slo.order_id (some order) true true s.position)) _
        λ (flag, q) e.
          if_both (Ensures FoundStopped) (is_hit order) _ _
            (Ensures-then IsStopped FoundStopped (leaving x y s.seen (stopped_out x y z q)) _
              (leaving-Ensures IsStopped s.seen _ (stopped_out-IsStopped q)) (λ r h k. h))
            (n (found ++ order ∷ []) (record s { position = q }))

  follow_stops-Stopped :
      (slos : List (Order F)) (found : List (CcxtOrder F)) (s : Leaving F Db)
      → Ensures FoundStopped (follow_stops x y z slos found s)
  unfolding follow_stops
  follow_stops-Stopped [] found s = λ h. ground arith
  follow_stops-Stopped (slo ∷ slos) found s =
      Ensures-bind FoundStopped (fetched_stop x y z slo s) _ (λ answer e.
        follow_stop-Stopped (follow_stops x y z slos) slo found s answer
          (follow_stops-Stopped slos))

  -- A call that finds no stop loss that was hit says so.
  unhit : (m : Stop x y z (Leaving F Db)) → Ensures FlagStopped (m >>= λ u. ok (false, u))
  unhit (ok u) = λ h. ground arith
  unhit (err e) = tt

  add_stoploss-Stopped :
      (hit : Bool) (orders : List (CcxtOrder F)) (s : Leaving F Db)
      → FoundStopped (hit, orders, s)
      → Ensures FlagStopped (add_stoploss x y z (hit, orders, s))
  add_stoploss-Stopped true orders s h = h
  add_stoploss-Stopped false orders s h =
      let t = s.position.trade in
      let unchanged : Exit x y = ok (false, s) in
      if_both (Ensures FlagStopped)
        (not (lt zero t.amount) || not t.is_open || (has_open_orders t && z.blocks_assets))
        unchanged _ h
        (if_both (Ensures FlagStopped) (length orders == 0) _ _
          (Ensures-bind FlagStopped (create_stoploss_order x y z (stoploss_or_liquidation t) s) _
            λ (flag, u) e.
              if_both (Ensures FlagStopped) flag (ok (false, u)) _ (λ k. ground arith)
                (unhit (manage_trade_stoploss_orders x y z orders u)))
          (unhit (manage_trade_stoploss_orders x y z orders s)))

  -- When handling the stop losses on the exchange says that one was hit, the trade has that reason,
  -- and its pair is locked at that moment for its direction, unless the pair is the empty text. The
  -- time lies in the range of `dt_from_ts`.
  pub handle_stoploss_on_exchange-IsStopped :
      (s u : Leaving F Db)
      → handle_stoploss_on_exchange x y z s ≡ ok (true, u)
      → IsStopped u.position
  unfolding handle_stoploss_on_exchange
  handle_stoploss_on_exchange-IsStopped s u e =
      Ensures-returned FlagStopped _ (true, u)
        (Ensures-then FoundStopped FlagStopped
          (follow_stops x y z (open_sl_orders s.position.trade) [] s) _
          (follow_stops-Stopped (open_sl_orders s.position.trade) [] s)
          (λ (hit, orders, v) h. add_stoploss-Stopped hit orders v h))
        e refl
