-- ===== src/FreqtradeBot/Fees/Rates.antt =====
-- The fees that freqtrade/freqtradebot.py records.
use freqtrade_llm.Base.{
  ◌≡◌, refl, true, not, ◌&&◌, ◌||◌, Option, none, some, ◌⊎◌, inl, inr, if_cases, if_both, arith,
  String, is_empty, length,
}
use freqtrade_llm.Base.Float.{Float, truthy}
use freqtrade_llm.Base.Float
use freqtrade_llm.Base.Result.{Result, ok, err, ◌>>=◌, Ensures, Ensures-bind, Ensures-returned}
use freqtrade_llm.Exchange.Fees.{CcxtOrder, CcxtFee, order_has_fee, extract_cost_curr_rate}
use freqtrade_llm.Persistence.Order.{Order, OrderSide, safe_filled}
use freqtrade_llm.Persistence.PairLock.{given, optional_eq}
use freqtrade_llm.Persistence.Trade.{Trade, update_fee, fee_updated}
use freqtrade_llm.Wallets.{get_free}
use freqtrade_llm.FreqtradeBot.{Exception, dependency, is_dependency}
use freqtrade_llm.FreqtradeBot.Fees.{
  FeeDesk, FeeTotals, Step, held_amount, apply_fee_conditional, record_mean, raising, close_to,
  conclude_trades, fee_detection_from_trades, acceptable, fee_of_order, order_amount,
  get_real_amount, handle_order_fee, fee_from_order, caught, with_fee, of_fee_error, executions,
  count_trades, no_fees,
}

module _ {F : Type 0} ⦃f : Float F⦄ (x : FeeDesk F) where
  open f use {lt, le, div}

  -- The trade is as it was, or one fee was recorded whose rate is not known or below 2%.
  unfoldable pub IsRecorded : Trade F → Trade F → Type 0
  IsRecorded t u =
      (u ≡ t)
      ⊎ ((cost : F) × (currency : Option String) × (rate : Option F) × (side : OrderSide) × (u
            ≡ update_fee t cost currency rate side)
          × (acceptable x rate ≡ true))

  unfoldable pub IsFee : Option F → Type 0
  IsFee fee = (a : F) → fee ≡ some a → truthy a ≡ true

  unfoldable pub IsSound : Trade F → Step F → Type 0
  unfolding IsRecorded IsFee
  IsSound t (ok (fee, u)) = IsRecorded t u × IsFee fee
  IsSound t (err (e, u)) = IsRecorded t u

  raising-IsSound :
      {A : Type 0} (t u : Trade F) (m : Result Exception A) (k : A → Step F)
      → IsRecorded t u
      → ((a : A) → m ≡ ok a → IsSound t (k a))
      → IsSound t (raising u m >>= k)
  unfolding IsSound
  raising-IsSound t u (ok a) k h n = n a refl
  raising-IsSound t u (err e) k h n = h

  none-IsFee : IsFee none
  unfolding IsFee
  none-IsFee a e = ground arith

  some-IsFee : (b : F) → truthy b ≡ true → IsFee (some b)
  unfolding IsFee
  some-IsFee b h a e = ground arith

  applied-IsFee :
      (t : Trade F) (base : String) (amount : Option F) (fee_abs : F) (side : OrderSide)
      → Ensures IsFee (apply_fee_conditional x t base amount fee_abs side)
  unfolding apply_fee_conditional
  applied-IsFee t base amount fee_abs side =
      Ensures-bind IsFee (held_amount x t amount side) _ λ held e.
        if_both (Ensures IsFee) (truthy fee_abs && le held (get_free x.wallets base)) (ok none) _
          none-IsFee
          (if_cases (Ensures IsFee) (truthy fee_abs) (ok (some fee_abs)) (ok none)
            (some-IsFee fee_abs) (λ k. none-IsFee))

  apply_fee_conditional-IsFee :
      (t : Trade F) (base : String) (amount : Option F) (fee_abs : F) (side : OrderSide)
      (fee : Option F)
      → apply_fee_conditional x t base amount fee_abs side ≡ ok fee
      → IsFee fee
  apply_fee_conditional-IsFee t base amount fee_abs side fee =
      Ensures-returned IsFee _ fee (applied-IsFee t base amount fee_abs side)

  record_mean-IsRecorded :
      (s : FeeTotals F) (side : OrderSide) (t : Trade F) → IsRecorded t (record_mean x s side t)
  unfolding record_mean IsRecorded
  record_mean-IsRecorded s side t =
      let mean = div (Float.sum s.fee_rate_array) (x.of_number (length s.fee_rate_array)) in
      if_cases (IsRecorded t)
        (given s.fee_currency && not (is_empty s.fee_rate_array) && lt mean x.two_percent)
        (update_fee t s.fee_cost s.fee_currency (some mean) side) t
        (λ h. inr (s.fee_cost, s.fee_currency, some mean, side, refl, ground arith)) (λ h. inl refl)

  same-IsRecorded : (t : Trade F) → IsRecorded t t
  unfolding IsRecorded
  same-IsRecorded t = inl refl

  same-IsSound : (t u : Trade F) → IsRecorded t u → IsSound t (ok (none, u))
  unfolding IsSound
  same-IsSound t u h = (h, none-IsFee)

  failed-IsSound : (t u : Trade F) (e : Exception) → IsRecorded t u → IsSound t (err (e, u))
  unfolding IsSound
  failed-IsSound t u e h = h

  applied-IsSound :
      (t u : Trade F) (base : String) (amount : Option F) (fee_abs : F) (side : OrderSide)
      → IsRecorded t u
      → IsSound t
          (raising u (apply_fee_conditional x u base amount fee_abs side) >>= λ fee. ok (fee, u))
  unfolding IsSound
  applied-IsSound t u base amount fee_abs side h =
      raising-IsSound t u (apply_fee_conditional x u base amount fee_abs side) (λ fee. ok (fee, u))
        h (λ fee e. (h, apply_fee_conditional-IsFee u base amount fee_abs side fee e))

  conclude_trades-IsSound :
      (side ft_side : OrderSide) (order_amount : Option F) (s : FeeTotals F) (t : Trade F)
      → IsSound t (conclude_trades x side ft_side order_amount s t)
  unfolding conclude_trades
  conclude_trades-IsSound side ft_side order_amount s t =
      let u = record_mean x s side t in
      let recorded = record_mean-IsRecorded s side t in
      raising-IsSound t u (close_to x s.amount order_amount) _ recorded λ close e.
        if_both (IsSound t) (not close) (err (dependency, u)) _
          (failed-IsSound t u dependency recorded)
          (if_both (IsSound t) (truthy s.fee_abs) _ (ok (none, u))
            (applied-IsSound t u _ (some s.amount) s.fee_abs ft_side recorded)
            (same-IsSound t u recorded))

  fee_detection_from_trades-IsSound :
      (t : Trade F) (order : CcxtOrder F) (o : Order F) (amount : Option F)
      → IsSound t (fee_detection_from_trades x t order o amount)
  unfolding fee_detection_from_trades
  fee_detection_from_trades-IsSound t order o amount =
      raising-IsSound t t (executions x t order o) _ (same-IsRecorded t) λ trades e.
        if_both (IsSound t) (is_empty trades) (ok (none, t)) _
          (same-IsSound t t (same-IsRecorded t))
          (raising-IsSound t t
            (count_trades x (x.currencies.get_pair_base_currency t.pair) trades (no_fees x)) _
            (same-IsRecorded t)
            λ s k. conclude_trades-IsSound order.side o.ft_order_side amount s t)

  accepted-IsRecorded :
      (t : Trade F) (cost : F) (currency : Option String) (rate : Option F) (side : OrderSide)
      → acceptable x rate ≡ true
      → IsRecorded t (update_fee t cost currency rate side)
  unfolding IsRecorded
  accepted-IsRecorded t cost currency rate side h = inr (cost, currency, rate, side, refl, h)

  fee_of_order-IsSound :
      (t : Trade F) (order : CcxtOrder F) (o : Order F) (amount : Option F) (fee : CcxtFee F)
      (found : F × Option F)
      → IsSound t (fee_of_order x t order o amount fee found)
  unfolding fee_of_order
  fee_of_order-IsSound t order o amount fee (cost, rate) =
      let u = update_fee t cost fee.currency rate order.side in
      if_cases (IsSound t) (acceptable x rate) _ (fee_detection_from_trades x t order o amount)
        (λ h.
          if_both (IsSound t)
            (optional_eq fee.currency (x.currencies.get_pair_base_currency t.pair)) _ (ok (none, u))
            (applied-IsSound t u _ amount cost o.ft_order_side
              (accepted-IsRecorded t cost fee.currency rate order.side h))
            (same-IsSound t u (accepted-IsRecorded t cost fee.currency rate order.side h)))
        (λ h. fee_detection_from_trades-IsSound t order o amount)

  fee_from_order-IsSound :
      (t : Trade F) (order : CcxtOrder F) (o : Order F) (fee : Option (CcxtFee F))
      → IsSound t (fee_from_order x t order o fee)
  fee_from_order-IsSound t order o none =
      fee_detection_from_trades-IsSound t order o (order_amount order)
  fee_from_order-IsSound t order o (some fee) =
      raising-IsSound t t
        (of_fee_error
          (extract_cost_curr_rate x.currencies fee order.symbol order.cost (some (safe_filled o))))
        _ (same-IsRecorded t)
        λ found e. fee_of_order-IsSound t order o (order_amount order) fee found

  get_real_amount-IsSound :
      (t : Trade F) (order : CcxtOrder F) (o : Order F) → IsSound t (get_real_amount x t order o)
  unfolding get_real_amount
  get_real_amount-IsSound t order o =
      if_both (IsSound t) (fee_updated t order.side || optional_eq order.status "open")
        (ok (none, t)) _ (same-IsSound t t (same-IsRecorded t))
        (if_both (IsSound t) (order_has_fee order) (fee_from_order x t order o order.fee) _
          (fee_from_order-IsSound t order o order.fee)
          (fee_detection_from_trades-IsSound t order o (order_amount order)))

  -- What an order's fee does to its trade and to the order.
  unfoldable pub IsFeeHandled : Trade F → Order F → Trade F × Order F → Type 0
  unfolding IsRecorded
  IsFeeHandled t o (u, p) =
      IsRecorded t u
      × ((p ≡ o) ⊎ ((a : F) × (p ≡ record o { ft_fee_base = some a }) × (truthy a ≡ true)))

  with_fee-IsFeeHandled :
      (t u : Trade F) (o : Order F) (fee : Option F)
      → IsRecorded t u
      → IsFee fee
      → IsFeeHandled t o (u, with_fee x o fee)
  unfolding IsFeeHandled IsFee
  with_fee-IsFeeHandled t u o none h k = (h, inl refl)
  with_fee-IsFeeHandled t u o (some a) h k = (h, inr (a, refl, k a refl))

  caught-IsFeeHandled :
      (t : Trade F) (o : Order F) (r : Step F)
      → IsSound t r
      → Ensures (IsFeeHandled t o) (caught x o r)
  unfolding IsSound
  caught-IsFeeHandled t o (ok (fee, u)) h = with_fee-IsFeeHandled t u o fee h.0 h.1
  caught-IsFeeHandled t o (err (e, u)) h =
      if_both (Ensures (IsFeeHandled t o)) (is_dependency e) (ok (u, o)) (err (e, u))
        (with_fee-IsFeeHandled t u o none h none-IsFee) tt

  -- Handling the fee of an order records at most one fee on the trade, and none with a rate of 2% or
  -- more. The order stays as it was, or its fee in the base currency is set to a number that is not 0.
  pub handle_order_fee-IsFeeHandled :
      (t : Trade F) (o : Order F) (order : CcxtOrder F) (after : Trade F × Order F)
      → handle_order_fee x t o order ≡ ok after
      → IsFeeHandled t o after
  unfolding handle_order_fee
  handle_order_fee-IsFeeHandled t o order after =
      Ensures-returned (IsFeeHandled t o) _ after
        (caught-IsFeeHandled t o (get_real_amount x t order o) (get_real_amount-IsSound t order o))
