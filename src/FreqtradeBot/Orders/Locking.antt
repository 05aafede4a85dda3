-- ===== src/FreqtradeBot/Orders/Locking.antt =====
-- What is locked after `update_trade_state` in freqtrade/freqtradebot.py.
use mathlib.Core.Path.{subst}
use freqtrade_llm.Base.{
  ℕ, ◌≡◌, ◌≢◌, refl, ap, Bool, true, false, not, ◌&&◌, some, inl, inr, arith, String, str_eq,
  eq_iff, sym, ◌∙◌, if_cases,
}
use freqtrade_llm.Base.Float.{Float}
use freqtrade_llm.Base.Result.{Result, ok, err, Ensures, Ensures-bind, Ensures-returned}
use freqtrade_llm.Exchange.Fees.{CcxtOrder, check_order_canceled_empty}
use freqtrade_llm.Exchange.Timeframe.{CcxtLaws}
use freqtrade_llm.Persistence.Order.{Order, side_eq}
use freqtrade_llm.Persistence.Order.Updating.{UpdateError, with_answer}
use freqtrade_llm.Persistence.PairLock.{SessionLaws}
use freqtrade_llm.Persistence.PairLocks.{is_pair_locked}
use freqtrade_llm.Persistence.Trade.{Trade, exit_side, trade_direction, select_order_by_order_id}
use freqtrade_llm.Persistence.Trade.Ledger.{LedgerError}
use freqtrade_llm.Persistence.Trade.Ledger.Filling.{update_trade}
use freqtrade_llm.Persistence.Trade.Updating.{update_order, update_order-finds, answered}
use freqtrade_llm.Plugins.Protections.{Error}
use freqtrade_llm.Plugins.ProtectionManager.InForce.{InRange}
use freqtrade_llm.FreqtradeBot.{Exception, dependency, other}
use freqtrade_llm.FreqtradeBot.Fees.{handle_order_fee}
use freqtrade_llm.FreqtradeBot.Fees.Rates.{IsFeeHandled, handle_order_fee-IsFeeHandled}
use freqtrade_llm.FreqtradeBot.Protecting.{Protected, handle_protections}
use freqtrade_llm.FreqtradeBot.Protecting.Locked.{handle_protections-is_pair_locked}
use freqtrade_llm.FreqtradeBot.Orders.{
  Position, Parts, Act, within, within-ok, with_trade, update_trade_after_fill, order_close_notify,
}
use freqtrade_llm.FreqtradeBot.Orders.Following.{
  fee_handled, with_fees, follow_order, order_of_exchange, update_with, update_trade_state_with,
  update_trade_state, cancel_stoploss_on_exchange,
}

module _ {F P Db : Type 0} ⦃f : Float F⦄ (x : Parts F P Db) (laws : SessionLaws x.session)
    (times : CcxtLaws x.ccxt) (range : (tf : String) → InRange x.ccxt tf x.clock) where
  ok_eq : {E A : Type 0} (a c : A) → ◌≡◌ {A = Result E A} (ok a) (ok c) → a ≡ c
  ok_eq a c e = ground arith

  unnamed : (id : String) → id ≢ "" → str_eq id "" ≡ false
  unnamed id h = ground (arith, eq_iff id "")

  -- If the trade is closed, its pair is locked for its direction, as long as the order is an exit.
  unfoldable pub IsLocked : Order F → Position F Db → Type 0
  IsLocked o q =
      side_eq o.ft_order_side (exit_side q.trade) ≡ true
      → q.trade.is_open ≡ false
      → q.trade.pair ≢ ""
      → is_pair_locked x.session x.clock q.locks q.trade.pair (some x.clock)
          (trade_direction q.trade)
        ≡ true

  protected-IsLocked :
      (o : Order F) (p : Position F Db) (done : Protected Db)
      → handle_protections x.texts
          (x.trades p.trade)
          x.session
          x.ccxt
          x.clock
          x.handlers
          p.trade.pair
          (trade_direction p.trade)
          p.locks
        ≡ ok done
      → IsLocked o (record p { locks = done.locks })
  unfolding IsLocked
  protected-IsLocked o p done e exit closed named =
      handle_protections-is_pair_locked x.texts (x.trades p.trade) x.session x.ccxt x.clock
        p.trade.pair named laws times x.handlers (trade_direction p.trade) p.locks done
        (range p.locks.timeframe) e

  open-IsLocked :
      (o : Order F) (p : Position F Db)
      → (side_eq o.ft_order_side (exit_side p.trade) && not p.trade.is_open) ≡ false
      → IsLocked o p
  unfolding IsLocked
  open-IsLocked o p h exit closed named = ground arith

  order_close_notify-IsLocked :
      (o : Order F) (p : Position F Db) → Ensures (IsLocked o) (order_close_notify x o p)
  unfolding order_close_notify
  order_close_notify-IsLocked o p =
      let asked : Result Error (Protected Db) =
        handle_protections x.texts (x.trades p.trade) x.session x.ccxt x.clock x.handlers
          p.trade.pair (trade_direction p.trade) p.locks in
      if_cases (Ensures (IsLocked o))
        (side_eq o.ft_order_side (exit_side p.trade) && not p.trade.is_open) _ (ok p)
        (λ h.
          Ensures-bind (IsLocked o) (within (λ (e : Error). other) p asked) _
            λ done e. protected-IsLocked o p done (within-ok (λ (e : Error). other) p asked done e))
        (open-IsLocked o p)

  same_side-IsLocked :
      (o w : Order F) (q : Position F Db)
      → w.ft_order_side ≡ o.ft_order_side
      → IsLocked w q
      → IsLocked o q
  unfolding IsLocked
  same_side-IsLocked o w q e h exit closed named = ground (arith, h)

  abbrev HasSideOf : Order F → Trade F × Order F → Type 0
  HasSideOf o (t, w) = w.ft_order_side ≡ o.ft_order_side

  handled-side :
      (t u : Trade F) (o w : Order F)
      → IsFeeHandled x.fees t o (u, w)
      → w.ft_order_side ≡ o.ft_order_side
  unfolding IsFeeHandled
  handled-side t u o w (h, inl e) = ap (λ (v : Order F). v.ft_order_side) e
  handled-side t u o w (h, inr (a, e, k)) = ap (λ (v : Order F). v.ft_order_side) e

  with_fees-side :
      (o : Order F) (p : Position F Db) (r : Result (Exception × Trade F) (Trade F × Order F))
      → ((after : Trade F × Order F) → r ≡ ok after → IsFeeHandled x.fees p.trade o after)
      → Ensures (HasSideOf o) (with_fees x p r)
  with_fees-side o p (ok (u, w)) h = handled-side p.trade u o w (h (u, w) refl)
  with_fees-side o p (err e) h = tt

  fee_handled-side :
      (o : Order F) (order : CcxtOrder F) (p : Position F Db) (t : Trade F) (w : Order F)
      → fee_handled x o order p ≡ ok (t, w)
      → w.ft_order_side ≡ o.ft_order_side
  fee_handled-side o order p t w =
      Ensures-returned (HasSideOf o) (fee_handled x o order p) (t, w)
        (with_fees-side o p (handle_order_fee x.fees p.trade o order)
          (handle_order_fee-IsFeeHandled x.fees p.trade o order))

  Ensures-same_side :
      (o w : Order F) (r : Act (Position F Db) (Position F Db))
      → w.ft_order_side ≡ o.ft_order_side
      → Ensures (IsLocked w) r
      → Ensures (IsLocked o) r
  Ensures-same_side o w (ok q) e h = same_side-IsLocked o w q e h
  Ensures-same_side o w (err e) k h = tt

  follow_order-IsLocked :
      (cancel : Position F Db → Act (Position F Db) (Position F Db)) (order_id : String)
      (order : CcxtOrder F) (send_msg : Bool) (p : Position F Db) (o : Order F)
      → select_order_by_order_id p.trade order_id ≡ some o
      → Ensures (IsLocked o) (follow_order x cancel order_id order send_msg p)
  unfolding follow_order
  follow_order-IsLocked cancel order_id order send_msg p o found = rw found (
      Ensures-bind (IsLocked o) (fee_handled x o order p) _ λ (t, w) e.
        Ensures-bind (IsLocked o)
          (within (λ (e : LedgerError). other) (with_trade x p t)
            (update_trade x.pr x.d x.py w (not send_msg) x.clock t))
          _
          λ u k.
            Ensures-bind (IsLocked o)
              (update_trade_after_fill x cancel w send_msg (with_trade x p u)) _
              λ q l.
                Ensures-same_side o w (order_close_notify x w q) (fee_handled-side o order p t w e)
                  (order_close_notify-IsLocked w q))

  -- `answered` keeps the side of an order.
  side-with_answer :
      (clock : ℕ) (order : CcxtOrder F) (o : Order F)
      → (with_answer clock order o).ft_order_side ≡ o.ft_order_side
  unfolding with_answer
  side-with_answer clock order o = refl

  -- What the exchange says of an order of the trade is noted, and the order is still found.
  noted :
      (order : CcxtOrder F) (t u : Trade F) (o : Order F)
      → select_order_by_order_id t order.id ≡ some o
      → update_order x.clock order t ≡ ok u
      → select_order_by_order_id u order.id ≡ some (with_answer x.clock order o)
  noted order t u o found e =
      let (v, h, k, l) = update_order-finds x.clock order t in
      subst
        (λ (n : Trade F). select_order_by_order_id n order.id ≡ some (with_answer x.clock order o))
        (ok_eq v u (sym h ∙ e)) (k ∙ ap (answered x.clock order) found)

  abbrev FlagLocked : Order F → Bool × Position F Db → Type 0
  FlagLocked o (flag, q) = flag ≡ false → IsLocked o q

  update_with-IsLocked :
      (cancel : Position F Db → Act (Position F Db) (Position F Db)) (order : CcxtOrder F)
      (send_msg : Bool) (p : Position F Db) (o : Order F)
      → select_order_by_order_id p.trade order.id ≡ some o
      → Ensures (FlagLocked o) (update_with x cancel order.id order send_msg p)
  unfolding update_with
  update_with-IsLocked cancel order send_msg p o found =
      Ensures-bind (FlagLocked o)
        (within (λ (e : UpdateError). dependency) p (update_order x.clock order p.trade)) _
        λ t e.
          if_cases (Ensures (FlagLocked o)) (check_order_canceled_empty order)
            (ok (true, with_trade x p t)) _ (λ k l. ground arith)
            (λ k.
              Ensures-bind (FlagLocked o)
                (follow_order x cancel order.id order send_msg (with_trade x p t)) _
                λ q l m.
                  same_side-IsLocked o (with_answer x.clock order o) q
                    (side-with_answer x.clock order o)
                    (Ensures-returned (IsLocked (with_answer x.clock order o)) _ q
                      (follow_order-IsLocked cancel order.id order send_msg (with_trade x p t)
                        (with_answer x.clock order o)
                        (noted order p.trade t o found (
                          within-ok (λ (e : UpdateError). dependency) p
                            (update_order x.clock order p.trade) t e)))
                      l))

  -- When an order of a trade was followed that is an exit, and it was not canceled empty, then the
  -- trade is still open, or its pair is locked at that moment for the direction of the trade. The
  -- order is not unnamed, its pair is not the empty text, and the time lies in the range of
  -- `dt_from_ts`.
  pub update_trade_state-IsLocked :
      (order : CcxtOrder F) (stoploss_order send_msg : Bool) (p q : Position F Db) (o : Order F)
      → order.id ≢ ""
      → select_order_by_order_id p.trade order.id ≡ some o
      → update_trade_state x order.id (some order) stoploss_order send_msg p ≡ ok (false, q)
      → IsLocked o q
  unfolding update_trade_state update_trade_state_with order_of_exchange
  update_trade_state-IsLocked order stoploss_order send_msg p q o named found e =
      Ensures-returned (FlagLocked o) _ (false, q)
        (update_with-IsLocked (cancel_stoploss_on_exchange x) order send_msg p o found)
        (rw (unnamed order.id named) at e) refl
