-- ===== src/Persistence/Trade/Ledger/Mean.antt =====
-- The position that `recalc_trade_from_orders` computes from entries alone: its amount is their sum,
-- and its open rate is the mean of their prices, weighted with the amounts.
use freqtrade_llm.Base.{
  ℕ, Bool, true, false, not, ◌&&◌, Option, none, some, List, [], ◌∷◌, is_some, if◌then◌else◌,
  if_both, Bool-cases, All, ◌≡◌, refl, ap, ◌∙◌, inl, inr, arith,
}
use freqtrade_llm.Base.Float.{Float, Precise, truthy}
use freqtrade_llm.Base.Result.{ok}
use freqtrade_llm.Exchange.Precision.{
  Decimals, round, price_to_precision, amount_to_contract_precision,
}
use freqtrade_llm.Persistence.Order.{Order, safe_price, safe_amount_after_fee}
use freqtrade_llm.Persistence.Trade.{Trade}
use freqtrade_llm.Persistence.Trade.Profit.{Python, recalc_open_trade_value}
use freqtrade_llm.Persistence.Trade.StopLoss.{
  adjust_stop_loss, new_loss, stop_loss_norm, first_stop_loss, next_stop_loss, set_stop_loss,
  leverage_or_one,
}
use freqtrade_llm.Persistence.Trade.Ledger.{
  Totals, start, is_exit, counts, has_amount, count_amount, count_entry, count_order, count_orders,
  take_profit, still_open, with_totals, settle, tradable_amount, recalc_trade_from_orders,
}

module _ {F P : Type 0} ⦃f : Float F⦄ (pr : Precise F P) (d : Decimals F) (py : Python F P) where
  open pr use {of_float, to_float}

  abbrev amount_with : Order F → P → P
  amount_with o acc = pr.add acc (of_float (safe_amount_after_fee o))

  abbrev cost_with : Order F → P → P
  cost_with o acc =
      pr.add acc (pr.mul (of_float (safe_price o)) (of_float (safe_amount_after_fee o)))

  -- The sum of the filled amounts, and of what they cost, in the order of the list
  unfoldable pub total_amount : P → List (Order F) → P
  total_amount acc [] = acc
  total_amount acc (o ∷ os) = total_amount (if counts pr d py o then amount_with o acc else acc) os

  unfoldable pub total_cost : P → List (Order F) → P
  total_cost acc [] = acc
  total_cost acc (o ∷ os) = total_cost (if counts pr d py o then cost_with o acc else acc) os

  -- The fields that say how large a trade is
  abbrev SameSize : Trade F → Trade F → Type 0
  SameSize t u =
      (u.amount ≡ t.amount)
      × (u.open_rate ≡ t.open_rate)
      × (u.stake_amount ≡ t.stake_amount)
      × (u.realized_profit ≡ t.realized_profit)

  next_stop_loss-SameSize :
      (t : Trade F) (norm x : F) (r : Bool) → SameSize t (next_stop_loss pr d t norm x r)
  unfolding next_stop_loss set_stop_loss
  next_stop_loss-SameSize t norm x r = ground arith

  first_stop_loss-SameSize : (t : Trade F) (norm x : F) → SameSize t (first_stop_loss pr d t norm x)
  unfolding first_stop_loss set_stop_loss
  first_stop_loss-SameSize t norm x = (refl, refl, refl, refl)

  adjust_stop_loss-SameSize :
      (t : Trade F) (price : F) (x : Option F) (i r : Bool)
      → SameSize t (adjust_stop_loss pr d t price x i r)
  unfolding adjust_stop_loss
  adjust_stop_loss-SameSize t price none i r = (refl, refl, refl, refl)
  adjust_stop_loss-SameSize t price (some x) i r =
      let norm = stop_loss_norm pr d t (new_loss pr d t price x) in
      if_both (SameSize t) (i && not (f.eq t.stop_loss f.zero)) _ _ (refl, refl, refl, refl)
        (if_both (SameSize t) (not (is_some t.initial_stop_loss_pct)) _ _
          (first_stop_loss-SameSize t norm x) (next_stop_loss-SameSize t norm x r))

  still_open_lem :
      (s : Totals F P) (amount : F) (t : Trade F)
      → let u = still_open pr d py s amount t in
        (u.amount ≡ amount)
        × (u.open_rate
            ≡ price_to_precision pr d
                (to_float (pr.div s.current_stake s.current_amount))
                t.price_precision
                t.precision_mode_price
                round)
        × (u.stake_amount ≡ f.div (to_float s.current_stake) (leverage_or_one pr d t))
        × (u.realized_profit ≡ t.realized_profit)
  unfolding still_open recalc_open_trade_value
  still_open_lem s amount t = adjust_stop_loss-SameSize _ _ _ _ _

  settle_open :
      (s : Totals F P) (t : Trade F)
      → truthy s.close_profit ≡ false
      → f.lt f.zero (tradable_amount pr d py s (with_totals pr d py s t)) ≡ true
      → let u = with_totals pr d py s t in
        settle pr d py false s t ≡ still_open pr d py s (tradable_amount pr d py s u) u
  unfolding settle take_profit
  settle_open s t h k = rw h (rw k refl)

  -- An order that is counted is an entry and has an amount left after its fee.
  abbrev pub IsEntry : Trade F → Order F → Type 0
  IsEntry t o =
      counts pr d py o ≡ true → (is_exit pr d py t o ≡ false) × (has_amount pr d py o ≡ true)

  -- What the loop has done from one state to another, without exits
  abbrev Grows : List (Order F) → Totals F P → Totals F P → Type 0
  Grows os s u =
      (u.current_amount ≡ total_amount s.current_amount os)
      × (u.current_stake ≡ total_cost s.current_stake os)
      × (u.close_profit ≡ s.close_profit)

  module _ (exact : (x : P) → pr.mul x (of_float f.one) ≡ x) where
    count_order-Grows :
        (t : Trade F) (clock : ℕ) (last : Bool) (o : Order F) (s : Totals F P)
        → is_exit pr d py t o ≡ false
        → has_amount pr d py o ≡ true
        → (u : Totals F P) × (count_order pr d py t clock last o s ≡ ok u)
          × (u.current_amount ≡ amount_with o s.current_amount)
          × (u.current_stake ≡ cost_with o s.current_stake)
          × (u.close_profit ≡ s.close_profit)
    unfolding count_order count_entry count_amount
    count_order-Grows t clock last o s x e =
        rw e (rw x (_, refl, rw exact refl, rw exact refl, refl))

    count_orders-Grows :
        (t : Trade F) (clock : ℕ) (os : List (Order F)) (s : Totals F P)
        → All (IsEntry t) os
        → (u : Totals F P) × (count_orders pr d py t clock false os s ≡ ok u) × Grows os s u
    unfolding count_orders total_amount total_cost
    count_orders-Grows t clock [] s h = (s, refl, (refl, refl, refl))
    count_orders-Grows t clock (o ∷ os) s h = elim (Bool-cases (counts pr d py o)) [
      | inl c ↦
          let (x, e) = h.0 c in
          let (u, eu, ua, us, up) = count_order-Grows t clock false o s x e in
          let (v, ev, (va, vs, vp)) = count_orders-Grows t clock os u h.1 in
          rw c (
            rw eu (
              v,
              ev,
              (va ∙ ap (λ z. total_amount z os) ua, vs ∙ ap (λ z. total_cost z os) us, vp ∙ up),
            ))
      | inr c ↦ rw c (count_orders-Grows t clock os s h.1)
    ]

    -- If all orders that count are entries with an amount left after the fee, the recalculation
    -- returns. The amount of the trade is then their sum, cut to what can be traded, which has to be
    -- positive; its rate is their cost divided by that sum, rounded as a price; its stake is their
    -- cost divided by the leverage; and the profit realised before stays. The multiplication of
    -- decimals by 1 is exact, and 0 is equal to itself.
    pub recalc_trade_from_orders-Mean :
        (clock : ℕ) (t : Trade F)
        → f.eq f.zero f.zero ≡ true
        → All (IsEntry t) t.orders
        → let amount = total_amount (of_float f.zero) t.orders in
          let cost = total_cost (of_float f.zero) t.orders in
          let tradable =
            amount_to_contract_precision pr d
              (to_float amount)
              t.amount_precision
              t.precision_mode
              t.contract_size in
          f.lt f.zero tradable ≡ true
          → (u : Trade F) × (recalc_trade_from_orders pr d py false clock t ≡ ok u)
            × (u.amount ≡ tradable)
            × (u.open_rate
                ≡ price_to_precision pr d
                    (to_float (pr.div cost amount))
                    t.price_precision
                    t.precision_mode_price
                    round)
            × (u.stake_amount ≡ f.div (to_float cost) (leverage_or_one pr d t))
            × (u.realized_profit ≡ t.realized_profit)
    unfolding recalc_trade_from_orders
    recalc_trade_from_orders-Mean clock t z h k =
        let (s, e, (sa, ss, sp)) = count_orders-Grows t clock t.orders (start pr d py) h in
        let settled = settle_open s t (rw sp (rw z refl)) (rw sa k) in
        let (ua, ur, us, up) =
          still_open_lem s (tradable_amount pr d py s (with_totals pr d py s t))
            (with_totals pr d py s t) in
        rw e (rw settled (_, refl, ua ∙ rw sa refl, ur ∙ rw (sa, ss) refl, us ∙ rw ss refl, up))
