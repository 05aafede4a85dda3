-- ===== src/Persistence/Trade/Ledger/Closing.antt =====
-- What `recalc_trade_from_orders`, `close` and `update_trade` do to the state of a trade: whether it
-- is open, and its close rate and date.
use freqtrade_llm.Base.{
  ℕ, Bool, true, false, not, ◌&&◌, some, List, [], ◌∷◌, is_some, if◌then◌else◌, if_both, Bool-cases,
  All, All-select, ◌≡◌, refl, ◌∙◌, inl, inr, arith, str_eq,
}
use freqtrade_llm.Base.Float.{Float, Precise}
use freqtrade_llm.Base.Result.{Result, ok, is_ok, value_of_ok}
use freqtrade_llm.Exchange.Precision.{Decimals}
use freqtrade_llm.Persistence.Order.{Order, safe_price, safe_amount_after_fee, side_eq, stoploss}
use freqtrade_llm.Persistence.Trade.{Trade, select_filled_orders, entry_side, exit_side}
use freqtrade_llm.Persistence.Trade.Profit.{Python, max_stake}
use freqtrade_llm.Persistence.Trade.Profit.Agree.{Supported, HasStake}
use freqtrade_llm.Persistence.Trade.Ledger.{LedgerError, recalc_trade_from_orders}
use freqtrade_llm.Persistence.Trade.Ledger.Filling.{
  dates, max_filled, date_last_filled, date_of_close, close, put_order, pay_funding, fills, ignored,
  stopped_on_exchange, stopped, funding_paid, update_trade,
}
use freqtrade_llm.Persistence.Trade.Ledger.Loop.{HasAmount}
use freqtrade_llm.Persistence.Trade.Ledger.Keeping.{recalc_trade_from_orders-Keeps}

module _ {F P : Type 0} ⦃f : Float F⦄ (pr : Precise F P) (d : Decimals F) (py : Python F P) where
  abbrev pub IsDated : Order F → Type 0
  IsDated o = is_some o.order_filled_date ≡ true

  -- What keeps the code from raising: see `recalc_trade_from_orders-Keeps`; and each order has the
  -- date when it was filled.
  pub record IsRegular (t : Trade F) : Type 0 where
    pub supported : Supported pr py t
    pub has_stake : HasStake pr py t
    pub amounts : All (HasAmount pr d py) t.orders
    pub dated : All IsDated t.orders

  max_filled-is_ok : (os : List (Order F)) → All IsDated os → is_ok (max_filled os) ≡ true
  unfolding max_filled dates
  max_filled-is_ok [] h = refl
  max_filled-is_ok (o ∷ os) h = ground arith

  date_last_filled-is_ok :
      (t : Trade F) → All IsDated t.orders → is_ok (date_last_filled pr d py t) ≡ true
  unfolding date_last_filled select_filled_orders
  date_last_filled-is_ok t h = max_filled-is_ok _ (All-select IsDated _ t.orders h)

  date_of_close-is_ok :
      (clock : ℕ) (t : Trade F)
      → All IsDated t.orders
      → is_ok (date_of_close pr d py clock t) ≡ true
  unfolding date_of_close
  date_of_close-is_ok clock t h = ground (arith, date_last_filled-is_ok t h)

  close_lem :
      (rate : F) (clock : ℕ) (t : Trade F)
      → IsRegular t
      → (u : Trade F) × (close pr d py rate clock t ≡ ok u)
        × (u.is_open ≡ false)
        × (u.close_rate ≡ some rate)
        × (is_some u.close_date ≡ true)
  unfolding close max_stake
  close_lem rate clock t r =
      let (date, e) = value_of_ok _ (date_of_close-is_ok clock t r.dated) in
      let closing : Trade F = record t {
        close_rate = some rate;
        close_date = some date;
        is_open = false;
        exit_order_status = some "closed";
      } in
      let (u, eu, (open_, orders, rate_, date_, status)) =
        recalc_trade_from_orders-Keeps pr d py true clock closing r.supported r.has_stake
          r.amounts in
      rw e (u, eu, open_, rate_, rw date_ refl)

  All-put_order :
      (Q : Order F → Type 0) (o : Order F) (os : List (Order F))
      → Q o
      → All Q os
      → All Q (put_order pr d py o os)
  All-put_order Q o [] q h = h
  All-put_order Q o (x ∷ os) q h =
      (if_both Q (str_eq x.order_id o.order_id) o x q h.0, All-put_order Q o os q h.1)

  pay_funding-IsRegular :
      (o : Order F) (t : Trade F)
      → HasAmount pr d py o
      → IsDated o
      → IsRegular t
      → IsRegular (pay_funding pr d py o t)
  unfolding pay_funding max_stake safe_amount_after_fee
  pay_funding-IsRegular o t a s r =
      let paid : Order F = record o { funding_fee = t.funding_fee_running } in
      if_both IsRegular (side_eq o.ft_order_side stoploss) t (funding_paid pr d py o t) r (record {
        supported = r.supported;
        has_stake = r.has_stake;
        amounts = All-put_order (HasAmount pr d py) paid t.orders a r.amounts;
        dated = All-put_order IsDated paid t.orders s r.dated;
      })

  -- The order closes the trade.
  abbrev pub closes : Bool → Order F → Trade F → Bool
  closes recalculating o t =
      not (ignored pr d py o)
      && not (side_eq o.ft_order_side (entry_side t))
      && fills pr d py recalculating o t

  -- What became of the trade, by whether the order closes it
  abbrev Follows : Bool → Order F → Trade F → Trade F → Type 0
  Follows c o t u =
      (u.is_open ≡ (t.is_open && not c))
      × (c ≡ true → (u.close_rate ≡ some (safe_price o)) × (is_some u.close_date ≡ true))
      × (c ≡ false → (u.close_rate ≡ t.close_rate) × (u.close_date ≡ t.close_date))

  -- The fields of the trade that `closes` and `Follows` read
  abbrev SamePosition : Trade F → Trade F → Type 0
  SamePosition t u =
      (u.is_open ≡ t.is_open)
      × (u.close_rate ≡ t.close_rate)
      × (u.close_date ≡ t.close_date)
      × ((recalculating : Bool) (o : Order F)
          → fills pr d py recalculating o u ≡ fills pr d py recalculating o t)

  SamePosition-trans : (t u v : Trade F) → SamePosition t u → SamePosition u v → SamePosition t v
  SamePosition-trans t u v (a, b, c, e) (a', b', c', e') =
      (a' ∙ a, b' ∙ b, c' ∙ c, λ r o. e' r o ∙ e r o)

  pay_funding-SamePosition : (o : Order F) (t : Trade F) → SamePosition t (pay_funding pr d py o t)
  unfolding pay_funding fills
  pay_funding-SamePosition o t =
      if_both (SamePosition t) (side_eq o.ft_order_side stoploss) t (funding_paid pr d py o t)
        (refl, refl, refl, λ b x. refl) (refl, refl, refl, λ b x. refl)

  stopped-SamePosition :
      (o : Order F) (t : Trade F) → SamePosition t (stopped_on_exchange pr d py o t)
  unfolding stopped_on_exchange fills
  stopped-SamePosition o t =
      if_both (SamePosition t) (side_eq o.ft_order_side (exit_side t)) t (stopped pr d py t)
        (refl, refl, refl, λ b x. refl) (refl, refl, refl, λ b x. refl)

  stopped-IsRegular :
      (o : Order F) (t : Trade F) → IsRegular t → IsRegular (stopped_on_exchange pr d py o t)
  unfolding stopped_on_exchange max_stake
  stopped-IsRegular o t r =
      if_both IsRegular (side_eq o.ft_order_side (exit_side t)) t (stopped pr d py t) r (record {
        supported = r.supported;
        has_stake = r.has_stake;
        amounts = r.amounts;
        dated = r.dated;
      })

  Outcome : Bool → Order F → Trade F → Result LedgerError (Trade F) → Type 0
  Outcome c o t x = (u : Trade F) × (x ≡ ok u) × Follows c o t u

  after_entry :
      (o : Order F) (clock : ℕ) (t u : Trade F)
      → SamePosition t u
      → IsRegular u
      → Outcome false o t (
          recalc_trade_from_orders pr d py false clock
            (record u { open_rate = safe_price o; amount = safe_amount_after_fee o }))
  unfolding Outcome max_stake
  after_entry o clock t u (so, sr, sd, sf) r =
      let (v, e, (vo, vs, vr, vd, ve)) =
        recalc_trade_from_orders-Keeps pr d py false clock
          (record u { open_rate = safe_price o; amount = safe_amount_after_fee o }) r.supported
          r.has_stake r.amounts in
      (v, e, (ground arith, λ x. ground arith, λ x. (vr ∙ sr, vd ∙ sd)))

  after_exit :
      (o : Order F) (recalculating : Bool) (clock : ℕ) (t u : Trade F)
      → SamePosition t u
      → IsRegular u
      → Outcome (fills pr d py recalculating o t) o t (
          if fills pr d py recalculating o u
          then close pr d py (safe_price o) clock u
          else recalc_trade_from_orders pr d py false clock u)
  unfolding Outcome
  after_exit o recalculating clock t u (so, sr, sd, sf) r =
      rw (sf recalculating o) (elim (Bool-cases (fills pr d py recalculating o t)) [
        | inl b ↦
            let (v, e, vo, vr, vd) = close_lem (safe_price o) clock u r in
            rw b (v, e, (ground arith, λ x. (vr, vd), λ x. ground arith))
        | inr b ↦
            let (v, e, (vo, vs, vr, vd, ve)) =
              recalc_trade_from_orders-Keeps pr d py false clock u r.supported r.has_stake
                r.amounts in
            rw b (v, e, (ground arith, λ x. ground arith, λ x. (vr ∙ sr, vd ∙ sd)))
      ])

  -- Where nothing in it raises, `update_trade` returns. It closes the trade exactly when the order is
  -- neither open nor an entry and fills the trade, at the order's price and with a date; in every
  -- other case the trade stays as open as it was, with its close rate and date.
  pub update_trade-closes :
      (o : Order F) (recalculating : Bool) (clock : ℕ) (t : Trade F)
      → HasAmount pr d py o
      → IsDated o
      → IsRegular t
      → let c = closes recalculating o t in
        (u : Trade F) × (update_trade pr d py o recalculating clock t ≡ ok u)
        × (u.is_open ≡ (t.is_open && not c))
        × (c ≡ true → (u.close_rate ≡ some (safe_price o)) × (is_some u.close_date ≡ true))
        × (c ≡ false → (u.close_rate ≡ t.close_rate) × (u.close_date ≡ t.close_date))
  unfolding update_trade Outcome
  update_trade-closes o recalculating clock t a s r =
      let u = pay_funding pr d py o t in
      let su = pay_funding-SamePosition o t in
      let ru = pay_funding-IsRegular o t a s r in
      let v = stopped_on_exchange pr d py o u in
      let sv = SamePosition-trans t u v su (stopped-SamePosition o u) in
      elim (Bool-cases (ignored pr d py o)) [
        | inl i ↦ rw i (t, refl, ground arith, λ x. ground arith, λ x. (refl, refl))
        | inr i ↦ rw i (elim (Bool-cases (side_eq o.ft_order_side (entry_side t))) [
          | inl e ↦
              let (w, ew, (opened, shut, kept)) = after_entry o clock t u su ru in
              rw e (w, ew, opened, shut, kept)
          | inr e ↦
              let (w, ew, (opened, shut, kept)) =
                after_exit o recalculating clock t v sv (stopped-IsRegular o u ru) in
              rw e (w, ew, opened, shut, kept)
        ])
      ]
