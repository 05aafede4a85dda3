-- ===== src/Strategy/Stoploss/Hit.antt =====
-- What the stop loss handling of freqtrade/strategy/interface.py does to the trade.
use freqtrade_llm.Base.{
  Bool, true, false, ◌&&◌, Option, none, some, if◌then◌else◌, is_some, ◌≡◌, if_both,
}
use freqtrade_llm.Base.Float.{Float, OrderLaws, Precise, truthy}
use freqtrade_llm.Exchange.Precision.{Decimals}
use freqtrade_llm.Persistence.Trade.{Trade}
use freqtrade_llm.Persistence.Trade.StopLoss.{adjust_stop_loss}
use freqtrade_llm.Persistence.Trade.StopLoss.Ratchet.{
  Tightens, Tightens-refl, Tightens-trans, adjust_stop_loss-Tightens,
}
use freqtrade_llm.Strategy.{Strategy, Callbacks}
use freqtrade_llm.Strategy.Stoploss.{
  Situation, apply_custom, custom_step, trailing_step, trailing_value, bound, bound_profit,
  dir_correct, ft_stoploss_reached,
}

module _ {F P : Type 0} ⦃f : Float F⦄ (pr : Precise F P) (d : Decimals F) (s : Strategy F)
    (calls : Callbacks F) (laws : OrderLaws f) where
  abbrev Started : Trade F → Type 0
  Started t = is_some t.initial_stop_loss_pct ≡ true

  apply_custom-Tightens :
      (t : Trade F) (rate value : F) (custom : Option F)
      → Started t
      → Tightens pr d t (apply_custom pr d s calls t rate false value custom).0
  unfolding apply_custom
  apply_custom-Tightens t rate value none h = Tightens-refl pr d t h
  apply_custom-Tightens t rate value (some v) h =
      adjust_stop_loss-Tightens pr d t rate (some v) false h

  custom_step-Tightens :
      (t : Trade F) (x : Situation F) (dir : Bool) (value : F)
      → Started t
      → Tightens pr d t (custom_step pr d s calls t x dir false value).0
  unfolding custom_step
  custom_step-Tightens t x dir value h =
      if_both (λ (u : Trade F × F). Tightens pr d t u.0) (s.use_custom_stoploss && dir) _ _
        (apply_custom-Tightens t _ value _ h) (Tightens-refl pr d t h)

  trailing_step-Tightens :
      (x : Situation F) (dir : Bool) (bound : Option F) (profit : F) (u : Trade F × F)
      → Started u.0
      → Tightens pr d u.0 (trailing_step pr d s calls x dir bound profit u)
  unfolding trailing_step
  trailing_step-Tightens x dir bound profit (t, value) h =
      if_both (Tightens pr d t) (s.trailing_stop && dir) _ _
        (if_both (Tightens pr d t) _ _ _
          (adjust_stop_loss-Tightens pr d t _ (some (trailing_value pr d s calls profit value))
            false h)
          (Tightens-refl pr d t h))
        (Tightens-refl pr d t h)

  -- Whatever the strategy and its callbacks answer, looking for an exit never loosens a stop loss
  -- that has been set, and keeps its initial percentage: after `ft_stoploss_reached` it is where it
  -- was, or strictly higher for a long trade and strictly lower for a short one.
  pub ft_stoploss_reached-Tightens :
      (t : Trade F) (x : Situation F)
      → Started t
      → Tightens pr d t (ft_stoploss_reached pr d s calls t x).0
  unfolding ft_stoploss_reached
  ft_stoploss_reached-Tightens t x h =
      let value = if truthy x.force_stoploss then x.force_stoploss else s.stoploss in
      let u = adjust_stop_loss pr d t t.open_rate (some value) true false in
      let dir = dir_correct pr d s calls u x in
      let v = custom_step pr d s calls u x dir false value in
      let first = adjust_stop_loss-Tightens pr d t t.open_rate (some value) true h in
      let second = custom_step-Tightens u x dir value first.started in
      let third =
        trailing_step-Tightens x dir (bound pr d s calls u x) (bound_profit pr d s calls u x) v
          second.started in
      Tightens-trans pr d laws t u _ first (Tightens-trans pr d laws u v.0 _ second third)
