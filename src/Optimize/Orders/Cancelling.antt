-- ===== src/Optimize/Orders/Cancelling.antt =====
-- When a backtest deletes a trade, and which orders remain when the open ones are cancelled
-- (freqtrade/optimize/backtesting.py).
use freqtrade_llm.Base.{
  ℕ, suc, Bool, true, false, Option, none, some, List, [], ◌∷◌, ltb, select, ◌≡◌, refl, sym, arith,
  if_both, if_cases,
}
use freqtrade_llm.Base.Float.{Float, truthy}
use freqtrade_llm.Base.Result.{Result, ok, err, ◌>>=◌}
use freqtrade_llm.Persistence.Order.{Order}
use freqtrade_llm.Persistence.Trade.{nr_of_successful_entries}
use freqtrade_llm.Optimize.Orders.{
  Book, Timeouts, Placing, ValueError, is_unfilled, after_placing, place_again, check_order_cancel,
  check_order_replace, manage_next, manage_orders, manage_open_orders, delete_from,
  ft_check_timed_out,
}

module _ {F : Type 0} ⦃f : Float F⦄ where
  -- A trade that is to be deleted has no successful entries.
  IsSafe : Result ValueError (Bool × Book F) → Type 0
  IsSafe (ok (delete, b)) = delete ≡ true → is_unfilled b.trade ≡ true
  IsSafe (err e) = Unit {0}

  IsSafe-bind_of :
      {A : Type 0} (m : Result ValueError A) (k : A → Result ValueError (Bool × Book F))
      → ((a : A) → m ≡ ok a → IsSafe (k a))
      → IsSafe (m >>= k)
  unfolding IsSafe
  IsSafe-bind_of (ok a) k h = h a refl
  IsSafe-bind_of (err e) k h = tt

  after_placing-IsSafe : (is_entry : Bool) (b : Book F) → IsSafe (ok (after_placing is_entry b))
  unfolding IsSafe after_placing
  after_placing-IsSafe is_entry b h = ground arith

  kept-IsSafe : (b : Book F) → IsSafe (ok (is_unfilled b.trade, b))
  unfolding IsSafe
  kept-IsSafe b h = h

  not_deleted-IsSafe : (b : Book F) → IsSafe (ok (false, b))
  unfolding IsSafe
  not_deleted-IsSafe b h = ground arith

  place_again-IsSafe :
      (s : Placing F) (o : Order F) (is_entry : Bool) (rate : Option F) (b : Book F)
      → IsSafe (place_again s o is_entry rate b)
  unfolding place_again
  place_again-IsSafe s o is_entry none b = kept-IsSafe b
  place_again-IsSafe s o is_entry (some rate) b =
      if_both IsSafe (truthy rate) _ (ok (is_unfilled b.trade, b))
        (IsSafe-bind_of _ _ (λ u h. after_placing-IsSafe is_entry u)) (kept-IsSafe b)

  check_order_replace-IsSafe :
      (s : Placing F) (o : Order F) (current_time : ℕ) (b : Book F)
      → IsSafe (check_order_replace s o current_time b)
  unfolding check_order_replace
  check_order_replace-IsSafe s o current_time b =
      if_both IsSafe (ltb o.order_date current_time) _ (ok (false, b))
        (if_both IsSafe _ (ok (false, b)) _ (not_deleted-IsSafe b)
          (IsSafe-bind_of (delete_from o b) _ (λ u h. place_again-IsSafe s o _ _ _)))
        (not_deleted-IsSafe b)

  -- A trade that `check_order_cancel` wants to be deleted has no successful entries.
  IsSafeCancel : Result ValueError (Option Bool × Book F) → Type 0
  IsSafeCancel (ok (oc, b)) = oc ≡ some true → is_unfilled b.trade ≡ true
  IsSafeCancel (err e) = Unit {0}

  counted-IsSafeCancel :
      (m : Result ValueError (Book F)) → IsSafeCancel (m >>= λ u. ok (some false, u))
  unfolding IsSafeCancel
  counted-IsSafeCancel (ok u) = λ h. ground arith
  counted-IsSafeCancel (err e) = tt

  active-IsSafeCancel : (b : Book F) → IsSafeCancel (ok (none, b))
  unfolding IsSafeCancel
  active-IsSafeCancel b h = ground arith

  deleted-IsSafeCancel :
      (b : Book F) → is_unfilled b.trade ≡ true → IsSafeCancel (ok (some true, b))
  unfolding IsSafeCancel
  deleted-IsSafeCancel b h e = h

  check_order_cancel-IsSafeCancel :
      (s : Timeouts F) (o : Order F) (current_time : ℕ) (b : Book F)
      → IsSafeCancel (check_order_cancel s o current_time b)
  unfolding check_order_cancel
  check_order_cancel-IsSafeCancel s o current_time b =
      let entry : Book F = record b { timedout_entry_orders = suc b.timedout_entry_orders } in
      let exit : Book F = record b { timedout_exit_orders = suc b.timedout_exit_orders } in
      if_both IsSafeCancel (ft_check_timed_out s b.trade o current_time) _ (ok (none, b))
        (if_both IsSafeCancel _ _ _
          (if_cases IsSafeCancel (is_unfilled b.trade) (ok (some true, entry)) _
            (deleted-IsSafeCancel entry) (λ h. counted-IsSafeCancel (delete_from o entry)))
          (if_both IsSafeCancel _ _ (ok (none, b)) (counted-IsSafeCancel (delete_from o exit))
            (active-IsSafeCancel b)))
        (active-IsSafeCancel b)

  manage_next-IsSafe :
      (next : Book F → Result ValueError (Bool × Book F)) (oc : Option Bool)
      (replaced : Result ValueError (Bool × Book F)) (b : Book F)
      → ((u : Book F) → IsSafe (next u))
      → IsSafeCancel (ok (oc, b))
      → IsSafe replaced
      → IsSafe (manage_next next oc replaced b)
  unfolding IsSafe IsSafeCancel manage_next is_unfilled
  manage_next-IsSafe next (some true) replaced b n c r = λ h. c refl
  manage_next-IsSafe next (some false) replaced b n c r = n b
  manage_next-IsSafe next none (err e) b n c r = tt
  manage_next-IsSafe next none (ok (true, u)) b n c r = r
  manage_next-IsSafe next none (ok (false, u)) b n c r = n u

  manage_orders-IsSafe :
      (s : Timeouts F) (p : Placing F) (current_time : ℕ) (os : List (Order F)) (b : Book F)
      → IsSafe (manage_orders s p current_time os b)
  unfolding manage_orders
  manage_orders-IsSafe s p current_time [] b = not_deleted-IsSafe b
  manage_orders-IsSafe s p current_time (o ∷ os) b =
      IsSafe-bind_of (check_order_cancel s o current_time b) _ (λ (oc, u) h.
        manage_next-IsSafe (manage_orders s p current_time os) oc
          (check_order_replace p o current_time u) u (manage_orders-IsSafe s p current_time os)
          (rw (sym h) (check_order_cancel-IsSafeCancel s o current_time b))
          (check_order_replace-IsSafe p o current_time u))

  IsSafe-ok :
      (r : Result ValueError (Bool × Book F)) (u : Book F)
      → r ≡ ok (true, u)
      → IsSafe r
      → is_unfilled u.trade ≡ true
  unfolding IsSafe
  IsSafe-ok (ok (delete, b)) u h k = ground arith
  IsSafe-ok (err e) u h k = ground arith

  -- When `manage_open_orders` asks for a trade to be deleted, the trade has no successful entries.
  pub manage_open_orders-is_unfilled :
      (s : Timeouts F) (p : Placing F) (current_time : ℕ) (b u : Book F)
      → manage_open_orders s p current_time b ≡ ok (true, u)
      → nr_of_successful_entries u.trade ≡ 0
  unfolding manage_open_orders is_unfilled
  manage_open_orders-is_unfilled s p current_time b u h = ground (
    arith,
    IsSafe-ok _ u h
        (manage_orders-IsSafe s p current_time (select (λ o. o.ft_is_open) b.trade.orders) b),
  )
