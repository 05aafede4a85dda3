-- ===== src/FreqtradeBot/Canceling/Deletion.antt =====
-- When canceling an entry in freqtrade/freqtradebot.py deletes the trade.
use freqtrade_llm.Base.{
  ◌≡◌, refl, Bool, true, false, ◌&&◌, Option, none, some, ◌⊎◌, inl, inr, if_cases, if_both,
  if◌then◌else◌, arith, String,
}
use freqtrade_llm.Base.Float.{Float}
use freqtrade_llm.Base.Result.{ok, err, Ensures, Ensures-bind, Ensures-returned}
use freqtrade_llm.Exchange.Fees.{CcxtOrder}
use freqtrade_llm.Persistence.Order.{Order, is_non_open}
use freqtrade_llm.Persistence.Trade.{Trade, nr_of_successful_entries}
use freqtrade_llm.FreqtradeBot.Orders.{Position, Parts, Act, within}
use freqtrade_llm.FreqtradeBot.Orders.Following.{update_trade_state}
use freqtrade_llm.FreqtradeBot.Orders.Keeping.{Keeps, FlagStays, update_trade_state-Keeps}
use freqtrade_llm.FreqtradeBot.Canceling.{
  refetch, canceled_order, filled_val, minstake, below_minimum, other_open_orders, filled_amount,
  nothing_filled, deletes, deleted, finish_cancel_enter, finish_if_canceled, handle_cancel_enter,
}

module _ {F P Db : Type 0} ⦃f : Float F⦄ (x : Parts F P Db) where
  open f use {zero, lt, mul}

  -- The trade has no other open order and no entry that was filled.
  unfoldable pub IsUnused : String → Trade F → Type 0
  IsUnused order_id t = (other_open_orders x t order_id ≡ 0) × (nr_of_successful_entries t ≡ 0)

  -- The trade is deleted exactly when nothing was filled, it is unused, and it is not replaced.
  unfoldable pub IsDeletedIff : String → Bool → Position F Db → Bool × Position F Db → Type 0
  unfolding IsUnused
  IsDeletedIff order_id replacing p (flag, q) =
      (p.in_database ≡ true
        → q.in_database ≡ false
        → (flag ≡ true) × IsUnused order_id p.trade × (replacing ≡ false) × (q.trade ≡ p.trade))
      × (flag ≡ true → IsUnused order_id p.trade → replacing ≡ false → q.in_database ≡ false)

  -- The cancellation was refused, and nothing changed, or there is an order that is no longer open,
  -- the flag says whether nothing of it was filled, and the trade is deleted as it should be.
  unfoldable pub IsCanceled :
      CcxtOrder F → String → Bool → Position F Db → Bool × Position F Db → Type 0
  unfolding IsDeletedIff
  IsCanceled order order_id replacing p (flag, q) =
      ((flag ≡ false) × (q ≡ p))
      ⊎ ((corder : CcxtOrder F) × (amount : F) × (is_non_open corder.status ≡ true)
          × (filled_amount x corder order ≡ some amount)
          × (x.fees.isclose amount zero ≡ flag)
          × IsDeletedIff order_id replacing p (flag, q))

  deletes-IsUnused :
      (order_id : String) (replacing : Bool) (t : Trade F)
      → deletes x order_id replacing t ≡ true
      → IsUnused order_id t × (replacing ≡ false)
  unfolding deletes IsUnused
  deletes-IsUnused order_id replacing t h = ground arith

  unused-deletes :
      (order_id : String) (replacing : Bool) (t : Trade F)
      → deletes x order_id replacing t ≡ false
      → IsUnused order_id t
      → replacing ≡ true
  unfolding deletes IsUnused
  unused-deletes order_id replacing t h k = ground arith

  deleted-IsDeletedIff :
      (order_id : String) (replacing : Bool) (p : Position F Db)
      → deletes x order_id replacing p.trade ≡ true
      → IsDeletedIff order_id replacing p (true, deleted x p)
  unfolding IsDeletedIff
  deleted-IsDeletedIff order_id replacing p h =
      let (unused, r) = deletes-IsUnused order_id replacing p.trade h in
      (λ k l. (refl, unused, r, refl), λ k l m. refl)

  kept-IsDeletedIff :
      (order_id : String) (replacing empty : Bool) (p q : Position F Db)
      → (empty && deletes x order_id replacing p.trade) ≡ false
      → q.in_database ≡ p.in_database
      → IsDeletedIff order_id replacing p (empty, q)
  unfolding IsDeletedIff
  kept-IsDeletedIff order_id replacing true p q h e =
      (λ k l. ground arith, λ k l m. ground (arith, unused-deletes order_id replacing p.trade h))
  kept-IsDeletedIff order_id replacing false p q h e = (λ k l. ground arith, λ k l m. ground arith)

  nothing_filled-amount :
      (p : Position F Db) (o : Option F) (empty : Bool)
      → nothing_filled x p o ≡ ok empty
      → (amount : F) × (o ≡ some amount) × (x.fees.isclose amount zero ≡ empty)
  unfolding nothing_filled
  nothing_filled-amount p none empty h = ground arith
  nothing_filled-amount p (some a) empty h = (a, refl, ground arith)

  Keeps-Ensures :
      (p : Position F Db) (r : Act (Position F Db) (Bool × Position F Db))
      → Keeps p.in_database (FlagStays p.in_database) r
      → Ensures (FlagStays p.in_database) r
  Keeps-Ensures p (ok a) h = h
  Keeps-Ensures p (err (e, q)) h = tt

  finished :
      (order corder : CcxtOrder F) (o : Order F) (replacing empty : Bool) (p q : Position F Db)
      → is_non_open corder.status ≡ true
      → nothing_filled x p (filled_amount x corder order) ≡ ok empty
      → IsDeletedIff o.order_id replacing p (empty, q)
      → IsCanceled order o.order_id replacing p (empty, q)
  unfolding IsCanceled
  finished order corder o replacing empty p q h e k =
      let (amount, a, c) = nothing_filled-amount p (filled_amount x corder order) empty e in
      inr (corder, amount, h, a, c, k)

  deleted_case :
      (order corder : CcxtOrder F) (o : Order F) (replacing empty : Bool) (p : Position F Db)
      → is_non_open corder.status ≡ true
      → nothing_filled x p (filled_amount x corder order) ≡ ok empty
      → (empty && deletes x o.order_id replacing p.trade) ≡ true
      → IsCanceled order o.order_id replacing p (true, deleted x p)
  deleted_case order corder o replacing true p h e k =
      finished order corder o replacing true p (deleted x p) h e
        (deleted-IsDeletedIff o.order_id replacing p k)
  deleted_case order corder o replacing false p h e k = ground arith

  finish_cancel_enter-IsCanceled :
      (order corder : CcxtOrder F) (o : Order F) (replacing : Bool) (p : Position F Db)
      → is_non_open corder.status ≡ true
      → Ensures
          (IsCanceled order o.order_id replacing p)
          (finish_cancel_enter x order o replacing p corder)
  unfolding finish_cancel_enter
  finish_cancel_enter-IsCanceled order corder o replacing p h =
      let followed : Act (Position F Db) (Bool × Position F Db) =
        update_trade_state x o.order_id (some corder) false true p in
      Ensures-bind (IsCanceled order o.order_id replacing p)
        (nothing_filled x p (filled_amount x corder order)) _
        λ empty e.
          if_cases (Ensures (IsCanceled order o.order_id replacing p))
            (empty && deletes x o.order_id replacing p.trade) (ok (true, deleted x p)) _
            (λ k. deleted_case order corder o replacing empty p h e k)
            (λ k. Ensures-bind (IsCanceled order o.order_id replacing p) followed _ λ (flag, q) l.
              finished order corder o replacing empty p q h e (
                kept-IsDeletedIff o.order_id replacing empty p q k (
                  Ensures-returned (FlagStays p.in_database) followed (flag, q)
                    (Keeps-Ensures p followed (
                      update_trade_state-Keeps x p.in_database o.order_id (some corder) false true p
                        refl))
                    l)))

  finish_if_canceled-IsCanceled :
      (order : CcxtOrder F) (o : Order F) (replacing : Bool) (p : Position F Db)
      (corder : Option (CcxtOrder F))
      → ((c : CcxtOrder F) → corder ≡ some c → is_non_open c.status ≡ true)
      → Ensures
          (IsCanceled order o.order_id replacing p)
          (finish_if_canceled x order o replacing p corder)
  unfolding IsCanceled
  finish_if_canceled-IsCanceled order o replacing p none h = inl (refl, refl)
  finish_if_canceled-IsCanceled order o replacing p (some corder) h =
      finish_cancel_enter-IsCanceled order corder o replacing p (h corder refl)

  -- Every order that is returned is no longer open.
  abbrev IsClosed : Option (CcxtOrder F) → Type 0
  IsClosed corder = (c : CcxtOrder F) → corder ≡ some c → is_non_open c.status ≡ true

  none-IsClosed : IsClosed none
  none-IsClosed c e = ground arith

  some_eq : {A : Type 0} (a c : A) → some a ≡ some c → a ≡ c
  some_eq a c e = ground arith

  some-IsClosed : (d : CcxtOrder F) → is_non_open d.status ≡ true → IsClosed (some d)
  some-IsClosed d h c e = rw (some_eq d c e) at h

  canceled_order-IsClosed :
      (order : CcxtOrder F) (o : Order F) (replacing : Bool) (p : Position F Db)
      → Ensures IsClosed (canceled_order x order o replacing p)
  unfolding canceled_order
  canceled_order-IsClosed order o replacing p =
      let refused : Act (Position F Db) (Option (CcxtOrder F)) = ok none in
      if_cases (Ensures IsClosed) (is_non_open order.status) (ok (some order)) _
        (some-IsClosed order)
        (λ l.
          if_both (Ensures IsClosed)
            (lt zero (filled_val x order)
              && below_minimum x (minstake x p.trade) (mul (filled_val x order) p.trade.open_rate))
            refused _ none-IsClosed
            (Ensures-bind IsClosed
              (within (λ e. e) p
                (x.venue.cancel_order_with_result o.order_id p.trade.pair p.trade.amount))
              _
              λ first e.
                Ensures-bind IsClosed (if replacing then refetch x 3 p o first else ok first) _
                  λ corder k.
                    if_cases IsClosed (is_non_open corder.status) (some corder) none
                      (some-IsClosed corder) (λ m. none-IsClosed)))

  -- When the cancellation of an entry returns, it was refused, and nothing of the model changed (the
  -- text ft_cancel_reason is left out of it), or the order is no longer open, and the flag says whether nothing of it was filled. Then the trade is deleted
  -- exactly when nothing was filled, the trade has no other open order and no entry that was filled,
  -- and the order is not replaced; a trade that is deleted is left as it was.
  pub handle_cancel_enter-IsCanceled :
      (order : CcxtOrder F) (o : Order F) (replacing : Bool) (p : Position F Db)
      (result : Bool × Position F Db)
      → handle_cancel_enter x order o replacing p ≡ ok result
      → IsCanceled order o.order_id replacing p result
  unfolding handle_cancel_enter
  handle_cancel_enter-IsCanceled order o replacing p result =
      Ensures-returned (IsCanceled order o.order_id replacing p) _ result (
        Ensures-bind (IsCanceled order o.order_id replacing p)
          (canceled_order x order o replacing p) _
          λ corder e. finish_if_canceled-IsCanceled order o replacing p corder (
            Ensures-returned IsClosed (canceled_order x order o replacing p) corder
              (canceled_order-IsClosed order o replacing p) e))
