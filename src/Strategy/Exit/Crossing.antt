-- ===== src/Strategy/Exit/Crossing.antt =====
-- When `should_exit` of freqtrade/strategy/interface.py stops a trade out.
use freqtrade_llm.Base.{
  Bool, true, false, not, ◌&&◌, ◌||◌, some, any, ◌≡◌, ◌⊎◌, inl, inr, arith, Bool-cases,
  Option-cases, sym, ◌∙◌, if◌then◌else◌,
}
use freqtrade_llm.Base.Float.{Float, Precise, or_else, truthy}
use freqtrade_llm.Exchange.Precision.{Decimals}
use freqtrade_llm.Persistence.Trade.{Trade}
use freqtrade_llm.Strategy.{Strategy, Callbacks}
use freqtrade_llm.Strategy.Exit.{Request, should_exit, situation}
use freqtrade_llm.Strategy.Exit.Order.{is_stop, is_stop-should_exit}
use freqtrade_llm.Strategy.Stoploss.{stop_hit, liquidation_hit}

module _ {F : Type 0} ⦃f : Float F⦄ (r : Request F) where
  open f use {zero, le, eq}

  -- The lowest and the highest rate that the trade has to stand
  abbrev pub lowest : F
  lowest = or_else r.low r.rate

  abbrev pub highest : F
  highest = or_else r.high r.rate

  -- A long trade is hit from above, a short one from below; the price itself counts.
  pub data Crosses (price : F) : Bool → Type 0 where
    long_falls : le lowest price ≡ true → Crosses price false
    short_rises : le price highest ≡ true → Crosses price true

  -- The trade has crossed its stop loss, which no order on the exchange stands for, or its liquidation
  -- price.
  pub data IsStoppedOut (s : Strategy F) (t : Trade F) : Type 0 where
    at_stop_loss :
        (s.stoploss_on_exchange ≡ false) ⊎ (s.dry_run ≡ true)
        → Crosses t.stop_loss t.is_short
        → IsStoppedOut s t
    at_liquidation :
        (price : F)
        → t.liquidation_price ≡ some price
        → eq price zero ≡ false
        → Crosses price t.is_short
        → IsStoppedOut s t

module _ {F P : Type 0} ⦃f : Float F⦄ (pr : Precise F P) (d : Decimals F) (s : Strategy F)
    (calls : Callbacks F) (r : Request F) (profit : F) where
  open f use {zero, le, eq}

  -- The test of a price, by direction
  abbrev crosses : F → Bool → Bool
  crosses price short = if short then le price (highest r) else le (lowest r) price

  crosses-Crosses : (price : F) (short : Bool) → crosses price short ≡ true → Crosses r price short
  crosses-Crosses price true h = short_rises h
  crosses-Crosses price false h = long_falls h

  Crosses-crosses : (price : F) (short : Bool) → Crosses r price short → crosses price short ≡ true
  Crosses-crosses price true (short_rises h) = h
  Crosses-crosses price false (long_falls h) = h

  stop_hit-crosses :
      (t : Trade F)
      → stop_hit pr d s calls t (situation pr d s calls r profit) ≡ crosses t.stop_loss t.is_short
  stop_hit-crosses t = ground arith

  liquidation_hit-crosses :
      (t : Trade F) (price : F)
      → t.liquidation_price ≡ some price
      → liquidation_hit pr d s calls t (situation pr d s calls r profit)
        ≡ (truthy price && crosses price t.is_short)
  liquidation_hit-crosses t price e = ground arith

  liquidation_hit-IsStoppedOut :
      (t : Trade F)
      → liquidation_hit pr d s calls t (situation pr d s calls r profit) ≡ true
      → IsStoppedOut r s t
  liquidation_hit-IsStoppedOut t h = elim (Option-cases t.liquidation_price) [
    | inl e ↦ ground arith
    | inr (price, e) ↦
        let both : (truthy price && crosses price t.is_short) ≡ true =
          ground (arith, liquidation_hit-crosses t price e) in
        at_liquidation price e (ground arith) (crosses-Crosses price t.is_short (ground arith))
  ]

  -- The two tests, together with who looks after the stop loss
  abbrev hit : Trade F → Bool
  hit t =
      let x = situation pr d s calls r profit in
      (stop_hit pr d s calls t x && (not s.stoploss_on_exchange || s.dry_run))
      || liquidation_hit pr d s calls t x

  hit-IsStoppedOut : (t : Trade F) → hit t ≡ true → IsStoppedOut r s t
  hit-IsStoppedOut t h =
      let x = situation pr d s calls r profit in
      elim (Bool-cases (liquidation_hit pr d s calls t x)) [
        | inl e ↦ liquidation_hit-IsStoppedOut t e
        | inr e ↦
            let crossed : crosses t.stop_loss t.is_short ≡ true =
              ground (arith, stop_hit-crosses t) in
            at_stop_loss (ground arith) (crosses-Crosses t.stop_loss t.is_short crossed)
      ]

  IsStoppedOut-hit : (t : Trade F) → IsStoppedOut r s t → hit t ≡ true
  IsStoppedOut-hit t (at_stop_loss own h) =
      ground (arith, stop_hit-crosses t, Crosses-crosses t.stop_loss t.is_short h)
  IsStoppedOut-hit t (at_liquidation price e n h) =
      ground (arith, liquidation_hit-crosses t price e, Crosses-crosses price t.is_short h)

module _ {F P : Type 0} ⦃f : Float F⦄ (pr : Precise F P) (d : Decimals F) (s : Strategy F)
    (calls : Callbacks F) where
  -- There is an exit of a stop loss or a liquidation among the exits exactly when the trade, with the
  -- stop loss as the call leaves it, is stopped out: a long trade whose lowest rate has fallen to its
  -- stop loss, or a short one whose highest rate has risen to it, with no live order on the exchange
  -- that stands for the stop loss; or the same for a liquidation price that is given and not 0.
  pub should_exit_stops :
      (t : Trade F) (r : Request F)
      → let (u, es) = should_exit pr d s calls t r in
        (any is_stop es ≡ true → IsStoppedOut r s u) × (IsStoppedOut r s u → any is_stop es ≡ true)
  should_exit_stops t r =
      let (u, es) = should_exit pr d s calls t r in
      let profit = calls.calc_profit_ratio t r.rate in
      let tests = is_stop-should_exit pr d s calls t r in
      (
        λ h. hit-IsStoppedOut pr d s calls r profit u (sym tests ∙ h),
        λ h. tests ∙ IsStoppedOut-hit pr d s calls r profit u h,
      )
