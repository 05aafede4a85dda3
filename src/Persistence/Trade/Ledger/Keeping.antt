-- ===== src/Persistence/Trade/Ledger/Keeping.antt =====
-- What a recalculation of a trade from its orders keeps (freqtrade/persistence/trade_model.py).
use freqtrade_llm.Base.{
  ℕ, Bool, not, ◌&&◌, Option, none, some, is_some, if_both, All, ◌≡◌, refl, arith,
}
use freqtrade_llm.Base.Float.{Float, Precise, truthy}
use freqtrade_llm.Base.Result.{ok, value_of_ok}
use freqtrade_llm.Exchange.Precision.{Decimals}
use freqtrade_llm.Persistence.Trade.{Trade}
use freqtrade_llm.Persistence.Trade.Profit.{Python, recalc_open_trade_value}
use freqtrade_llm.Persistence.Trade.Profit.Agree.{Supported, HasStake}
use freqtrade_llm.Persistence.Trade.StopLoss.{
  adjust_stop_loss, new_loss, stop_loss_norm, first_stop_loss, next_stop_loss, set_stop_loss,
}
use freqtrade_llm.Persistence.Trade.Ledger.{
  Totals, start, take_profit, still_open, settle, tradable_amount, closed_out, with_totals,
  recalc_trade_from_orders,
}
use freqtrade_llm.Persistence.Trade.Ledger.Loop.{HasAmount, count_orders-is_ok}

module _ {F : Type 0} where
  -- The fields that recalculating a trade leaves alone
  abbrev pub Keeps : Trade F → Trade F → Type 0
  Keeps t u =
      (u.is_open ≡ t.is_open)
      × (u.orders ≡ t.orders)
      × (u.close_rate ≡ t.close_rate)
      × (u.close_date ≡ t.close_date)
      × (u.exit_order_status ≡ t.exit_order_status)

  Keeps-trans : (t u v : Trade F) → Keeps t u → Keeps u v → Keeps t v
  Keeps-trans t u v h k = ground arith

module _ {F P : Type 0} ⦃f : Float F⦄ (pr : Precise F P) (d : Decimals F) (py : Python F P) where
  first_stop_loss-Keeps : (t : Trade F) (norm x : F) → Keeps t (first_stop_loss pr d t norm x)
  unfolding first_stop_loss set_stop_loss
  first_stop_loss-Keeps t norm x = (refl, refl, refl, refl, refl)

  next_stop_loss-Keeps :
      (t : Trade F) (norm x : F) (r : Bool) → Keeps t (next_stop_loss pr d t norm x r)
  unfolding next_stop_loss set_stop_loss
  next_stop_loss-Keeps t norm x r = ground arith

  adjust_stop_loss-Keeps :
      (t : Trade F) (price : F) (x : Option F) (i r : Bool)
      → Keeps t (adjust_stop_loss pr d t price x i r)
  unfolding adjust_stop_loss
  adjust_stop_loss-Keeps t price none i r = (refl, refl, refl, refl, refl)
  adjust_stop_loss-Keeps t price (some x) i r =
      let norm = stop_loss_norm pr d t (new_loss pr d t price x) in
      if_both (Keeps t) (i && not (f.eq t.stop_loss f.zero)) _ _ (refl, refl, refl, refl, refl)
        (if_both (Keeps t) (not (is_some t.initial_stop_loss_pct)) _ _
          (first_stop_loss-Keeps t norm x) (next_stop_loss-Keeps t norm x r))

  still_open-Keeps :
      (s : Totals F P) (amount : F) (t : Trade F) → Keeps t (still_open pr d py s amount t)
  unfolding still_open recalc_open_trade_value
  still_open-Keeps s amount t = adjust_stop_loss-Keeps _ _ _ _ _

  take_profit-Keeps : (s : Totals F P) (t : Trade F) → Keeps t (take_profit pr d py s t)
  unfolding take_profit
  take_profit-Keeps s t =
      if_both (Keeps t) (truthy s.close_profit) _ _ (refl, refl, refl, refl, refl)
        (refl, refl, refl, refl, refl)

  closed_out-Keeps : (c : Bool) (s : Totals F P) (t : Trade F) → Keeps t (closed_out pr d py c s t)
  unfolding closed_out
  closed_out-Keeps c s t =
      if_both (Keeps t) (c && f.lt f.zero s.total_stake) _ _ (refl, refl, refl, refl, refl)
        (refl, refl, refl, refl, refl)

  settle-Keeps : (c : Bool) (s : Totals F P) (t : Trade F) → Keeps t (settle pr d py c s t)
  unfolding settle
  settle-Keeps c s t =
      let u = take_profit pr d py s (with_totals pr d py s t) in
      let amount = tradable_amount pr d py s u in
      let kept = take_profit-Keeps s (with_totals pr d py s t) in
      if_both (Keeps t) (f.lt f.zero amount) (still_open pr d py s amount u)
        (closed_out pr d py c s u)
        (Keeps-trans t u (still_open pr d py s amount u) kept (still_open-Keeps s amount u))
        (Keeps-trans t u (closed_out pr d py c s u) kept (closed_out-Keeps c s u))

  -- Where the exchange supports the trade, its largest stake is not 0, and each order that is counted
  -- has an amount left after its fee, the recalculation returns. It leaves alone whether the trade is
  -- open, its orders, and its close rate and date.
  pub recalc_trade_from_orders-Keeps :
      (is_closing : Bool) (clock : ℕ) (t : Trade F)
      → Supported pr py t
      → HasStake pr py t
      → All (HasAmount pr d py) t.orders
      → (u : Trade F) × (recalc_trade_from_orders pr d py is_closing clock t ≡ ok u) × Keeps t u
  unfolding recalc_trade_from_orders
  recalc_trade_from_orders-Keeps is_closing clock t h k hs =
      let (s, e) =
        value_of_ok _
          (count_orders-is_ok pr d py t clock is_closing t.orders (start pr d py) h k hs) in
      rw e (settle pr d py is_closing s t, refl, settle-Keeps is_closing s t)
