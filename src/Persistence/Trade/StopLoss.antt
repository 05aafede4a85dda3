-- ===== src/Persistence/Trade/StopLoss.antt =====
-- The stop loss of `LocalTrade` (freqtrade/persistence/trade_model.py).
pub mod Ratchet
use freqtrade_llm.Base.{
  Bool, true, false, not, ◌&&◌, ◌||◌, Option, none, some, List, map, if◌then◌else◌, is_some, ◌≡◌,
}
use freqtrade_llm.Base.Float.{Float, Precise, truthy}
use freqtrade_llm.Exchange.Precision.{Decimals, round, round_up, round_down, price_to_precision}
use freqtrade_llm.Persistence.Trade.{Trade}

module _ {F P : Type 0} ⦃f : Float F⦄ (pr : Precise F P) (d : Decimals F) where
  open f use {zero, one, lt, eq, add, sub, mul, div, neg, abs}

  unfoldable pub set_liquidation_price : Trade F → Option F → Trade F
  set_liquidation_price t none = t
  set_liquidation_price t (some price) = record t {
    liquidation_price =
        some (price_to_precision pr d price t.price_precision t.precision_mode_price round);
  }

  -- `__set_stop_loss`
  unfoldable pub set_stop_loss : Trade F → F → F → Trade F
  set_stop_loss t stop_loss percent = record t {
    initial_stop_loss = if not (truthy t.stop_loss) then some stop_loss else t.initial_stop_loss;
    stop_loss = stop_loss;
    stop_loss_pct = some (mul (neg one) (abs percent));
  }

  -- `leverage = self.leverage or 1.0`
  abbrev pub leverage_or_one : Trade F → F
  leverage_or_one t = if truthy t.leverage then t.leverage else one

  unfoldable pub new_loss : Trade F → F → F → F
  new_loss t current_price stoploss =
      if t.is_short
      then mul current_price (add one (abs (div stoploss (leverage_or_one t))))
      else mul current_price (sub one (abs (div stoploss (leverage_or_one t))))

  unfoldable pub stop_loss_norm : Trade F → F → F
  stop_loss_norm t price =
      price_to_precision pr d price t.price_precision t.precision_mode_price
        (if t.is_short then round_down else round_up)

  -- The first stop loss of a trade, which is also recorded as the initial one.
  unfoldable pub first_stop_loss : Trade F → F → F → Trade F
  unfolding set_stop_loss stop_loss_norm
  first_stop_loss t norm stoploss = record (set_stop_loss t norm stoploss) {
    initial_stop_loss = some (stop_loss_norm t norm);
    initial_stop_loss_pct = some (mul (neg one) (abs stoploss));
  }

  -- "stop losses only walk up, never down!", or down only for a short trade
  abbrev pub is_better : Trade F → F → Bool
  is_better t norm = (lt t.stop_loss norm && not t.is_short) || (lt norm t.stop_loss && t.is_short)

  unfoldable pub next_stop_loss : Trade F → F → F → Bool → Trade F
  unfolding set_stop_loss
  next_stop_loss t norm stoploss allow_refresh =
      if allow_refresh
      then set_stop_loss t norm stoploss
      else if is_better t norm
      then set_stop_loss (record t { is_stop_loss_trailing = true }) norm stoploss
      else t

  unfoldable pub adjust_stop_loss : Trade F → F → Option F → Bool → Bool → Trade F
  unfolding new_loss stop_loss_norm first_stop_loss next_stop_loss
  adjust_stop_loss t current_price none initial allow_refresh = t
  adjust_stop_loss t current_price (some stoploss) initial allow_refresh =
      let norm = stop_loss_norm t (new_loss t current_price stoploss) in
      if initial && not (eq t.stop_loss zero)
      then t
      else if not (is_some t.initial_stop_loss_pct)
      then first_stop_loss t norm stoploss
      else next_stop_loss t norm stoploss allow_refresh

  abbrev pub differs : Option F → F → Bool
  differs none x = true
  differs (some y) x = not (eq y x)

  -- The body of the loop in `stoploss_reinitialization`.
  unfoldable pub reinitialize_stop_loss : F → Trade F → Trade F
  unfolding adjust_stop_loss
  reinitialize_stop_loss desired t =
      if not t.is_stop_loss_trailing && differs t.initial_stop_loss_pct desired
      then adjust_stop_loss (record t { stop_loss = zero; initial_stop_loss_pct = none })
          t.open_rate (some desired) false false
      else t

  unfoldable pub stoploss_reinitialization : F → List (Trade F) → List (Trade F)
  unfolding reinitialize_stop_loss
  stoploss_reinitialization desired = map (reinitialize_stop_loss desired)
