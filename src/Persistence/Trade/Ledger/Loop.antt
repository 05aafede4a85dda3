-- ===== src/Persistence/Trade/Ledger/Loop.antt =====
-- The loop of `recalc_trade_from_orders`: which orders it reads, and that it returns.
use freqtrade_llm.Base.{
  ℕ, Bool, true, false, ◌&&◌, some, List, [], ◌∷◌, select, is_empty, if◌then◌else◌, Bool-cases, All,
  ◌≡◌, refl, inl, inr,
}
use freqtrade_llm.Base.Float.{Float, Precise}
use freqtrade_llm.Base.Result.{is_ok, value_of_ok, bind_ext}
use freqtrade_llm.Exchange.Precision.{Decimals}
use freqtrade_llm.Persistence.Order.{Order, safe_price, safe_amount_after_fee}
use freqtrade_llm.Persistence.Trade.{Trade}
use freqtrade_llm.Persistence.Trade.Profit.{Python, max_stake}
use freqtrade_llm.Persistence.Trade.Profit.Agree.{
  Supported, HasStake, calc_profit_ratio-calculate_profit,
}
use freqtrade_llm.Persistence.Trade.Ledger.{
  Totals, is_exit, counts, has_amount, count_amount, count_exit, count_entry, count_order,
  count_orders,
}

module _ {F P : Type 0} ⦃f : Float F⦄ (pr : Precise F P) (d : Decimals F) (py : Python F P) where
  -- Unless the trade is closing, orders that are open or were not filled have no effect.
  pub count_orders-select :
      (t : Trade F) (clock : ℕ) (os : List (Order F)) (s : Totals F P)
      → count_orders pr d py t clock false os s
        ≡ count_orders pr d py t clock false (select (counts pr d py) os) s
  unfolding count_orders select
  count_orders-select t clock [] s = refl
  count_orders-select t clock (o ∷ os) s = elim (Bool-cases (counts pr d py o)) [
    | inl b ↦ rw b (rw b (bind_ext _ _ _ (λ u. count_orders-select t clock os u)))
    | inr b ↦ rw b (count_orders-select t clock os s)
  ]

  -- An order that is counted has an amount left after its fee.
  abbrev pub HasAmount : Order F → Type 0
  HasAmount o = counts pr d py o ≡ true → has_amount pr d py o ≡ true

  count_exit-is_ok :
      (t : Trade F) (clock : ℕ) (last : Bool) (o : Order F) (s : Totals F P)
      → Supported pr py t
      → HasStake pr py t
      → is_ok (count_exit pr d py t clock last o s) ≡ true
  unfolding count_exit max_stake
  count_exit-is_ok t clock last o s h k =
      let own = if last then s.funding_fees else s.own_funding_fees in
      let (p, e, _) =
        calc_profit_ratio-calculate_profit pr py (record t { funding_fees = some own }) clock
          (safe_price o) (some (safe_amount_after_fee o)) (some (pr.to_float s.avg_price)) h k in
      rw e refl

  count_order-is_ok :
      (t : Trade F) (clock : ℕ) (last : Bool) (o : Order F) (s : Totals F P)
      → Supported pr py t
      → HasStake pr py t
      → has_amount pr d py o ≡ true
      → is_ok (count_order pr d py t clock last o s) ≡ true
  unfolding count_order count_entry count_amount
  count_order-is_ok t clock last o s h k e = rw e (elim (Bool-cases (is_exit pr d py t o)) [
    | inl x ↦ rw x (count_exit-is_ok t clock last o _ h k)
    | inr x ↦ rw x refl
  ])

  -- The loop returns, whatever it has counted before.
  pub count_orders-is_ok :
      (t : Trade F) (clock : ℕ) (is_closing : Bool) (os : List (Order F)) (s : Totals F P)
      → Supported pr py t
      → HasStake pr py t
      → All HasAmount os
      → is_ok (count_orders pr d py t clock is_closing os s) ≡ true
  unfolding count_orders
  count_orders-is_ok t clock is_closing [] s h k hs = refl
  count_orders-is_ok t clock is_closing (o ∷ os) s h k hs = elim (Bool-cases (counts pr d py o)) [
    | inl b ↦
        let (u, e) =
          value_of_ok _ (count_order-is_ok t clock (is_closing && is_empty os) o s h k (hs.0 b)) in
        rw b (rw e (count_orders-is_ok t clock is_closing os u h k hs.1))
    | inr b ↦ rw b (count_orders-is_ok t clock is_closing os s h k hs.1)
  ]
