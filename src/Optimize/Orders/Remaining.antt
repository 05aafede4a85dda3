-- ===== src/Optimize/Orders/Remaining.antt =====
-- Which orders remain when a backtest cancels the open ones (freqtrade/optimize/backtesting.py).
use freqtrade_llm.Base.{
  ℕ, ◌+◌, Bool, true, false, not, ◌&&◌, List, [], ◌∷◌, ◌++◌, String, str_eq, eq_iff, select, any,
  any-append, length, ◌≡◌, refl, sym, ap, ◌∙◌, arith, Bool-cases, inl, inr,
}
use mathlib.Core.List.{append_assoc}
use mathlib.Core.Path.{subst}
use freqtrade_llm.Base.Float.{Float}
use freqtrade_llm.Base.Result.{Result, ok, err, ◌>>=◌}
use freqtrade_llm.Persistence.Order.{Order, OrderSide, side_eq}
use freqtrade_llm.Persistence.Trade.{entry_side, exit_side}
use freqtrade_llm.Optimize.Orders.{
  Book, ValueError, delete_order, delete_from, count_canceled, cancel_all, cancel_open_orders,
}

module _ {F : Type 0} where
  abbrev has_id : String → Order F → Bool
  has_id id o = str_eq o.order_id id

  -- No two orders of the list have the same id.
  unfoldable pub IsDistinct : List (Order F) → Type 0
  IsDistinct [] = Unit {0}
  IsDistinct (o ∷ os) = (any (has_id o.order_id) os ≡ false) × IsDistinct os

  split-IsDistinct :
      (pre : List (Order F)) (o : Order F) (xs : List (Order F))
      → IsDistinct (pre ++ o ∷ xs)
      → (any (has_id o.order_id) pre ≡ false) × IsDistinct (pre ++ xs)
  unfolding IsDistinct any
  split-IsDistinct [] o xs h = (refl, h.1)
  split-IsDistinct (p ∷ ps) o xs h =
      let (a, d) = split-IsDistinct ps o xs h.1 in
      (
        ground (
          arith,
          h.0,
          a,
          any-append (has_id p.order_id) ps (o ∷ xs),
          eq_iff p.order_id o.order_id,
          eq_iff o.order_id p.order_id,
        ),
        (
          ground (
            arith,
            h.0,
            any-append (has_id p.order_id) ps (o ∷ xs),
            any-append (has_id p.order_id) ps xs,
          ),
          d,
        ),
      )

  delete_order-append :
      (pre : List (Order F)) (o : Order F) (xs : List (Order F))
      → any (has_id o.order_id) pre ≡ false
      → delete_order o.order_id (pre ++ o ∷ xs) ≡ ok (pre ++ xs)
  unfolding delete_order any
  delete_order-append [] o xs h = ground (arith, eq_iff o.order_id o.order_id)
  delete_order-append (p ∷ ps) o xs h = ground (arith, delete_order-append ps o xs)

module _ {F : Type 0} ⦃f : Float F⦄ where
  -- The open orders of a side
  unfoldable pub of_side : OrderSide → List (Order F) → ℕ
  of_side side os = length (select (λ o. o.ft_is_open && side_eq o.ft_order_side side) os)

  select-open :
      (o : Order F) (xs : List (Order F))
      → o.ft_is_open ≡ true
      → select (λ o. o.ft_is_open) (o ∷ xs) ≡ o ∷ select (λ o. o.ft_is_open) xs
  unfolding select
  select-open o xs e = ground (arith, e)

  select-closed :
      (o : Order F) (xs : List (Order F))
      → o.ft_is_open ≡ false
      → select (λ o. o.ft_is_open) (o ∷ xs) ≡ select (λ o. o.ft_is_open) xs
  unfolding select
  select-closed o xs e = ground (arith, e)

  select-kept :
      (o : Order F) (xs : List (Order F))
      → o.ft_is_open ≡ false
      → select (λ o. not o.ft_is_open) (o ∷ xs) ≡ o ∷ select (λ o. not o.ft_is_open) xs
  unfolding select
  select-kept o xs e = ground (arith, e)

  -- What is left of a book when the open orders of a part of its list are cancelled: the other orders,
  -- in their order, and the open ones counted by their side
  Cancelled : List (Order F) → List (Order F) → Book F → Result ValueError (Book F) → Type 0
  Cancelled pre xs b (err e) = ⊥
  Cancelled pre xs b (ok u) =
      (u.trade ≡ record (b.trade) { orders = pre ++ select (λ o. not o.ft_is_open) xs })
      × (u.canceled_entry_orders ≡ b.canceled_entry_orders + of_side (entry_side b.trade) xs)
      × (u.canceled_exit_orders ≡ b.canceled_exit_orders + of_side (exit_side b.trade) xs)

  deleted : Order F → List (Order F) → Book F → Book F
  deleted o os b = record (count_canceled o b) {
    trade = record ((count_canceled o b).trade) { orders = os };
  }

  delete_from-append :
      (pre : List (Order F)) (o : Order F) (xs : List (Order F)) (b : Book F)
      → b.trade.orders ≡ pre ++ o ∷ xs
      → any (has_id o.order_id) pre ≡ false
      → delete_from o (count_canceled o b) ≡ ok (deleted o (pre ++ xs) b)
  unfolding delete_from deleted count_canceled
  delete_from-append pre o xs b h d = rw (h, delete_order-append pre o xs d) refl

  -- One more order, which is open
  open-Cancelled :
      (pre : List (Order F)) (o : Order F) (xs : List (Order F)) (b : Book F)
      (r : Result ValueError (Book F))
      → o.ft_is_open ≡ true
      → Cancelled pre xs (deleted o (pre ++ xs) b) r
      → Cancelled pre (o ∷ xs) b r
  unfolding Cancelled deleted count_canceled select of_side entry_side exit_side
  open-Cancelled pre o xs b (ok u) e k = (rw e k.0, ground (arith, k.1, e), ground (arith, k.2, e))
  open-Cancelled pre o xs b (err x) e k = k

  -- One more order, which is not
  closed-Cancelled :
      (pre : List (Order F)) (o : Order F) (xs : List (Order F)) (b : Book F)
      (r : Result ValueError (Book F))
      → o.ft_is_open ≡ false
      → Cancelled (pre ++ o ∷ []) xs b r
      → Cancelled pre (o ∷ xs) b r
  unfolding Cancelled select of_side
  closed-Cancelled pre o xs b (ok u) e k = (
    k.0
        ∙ ap (λ os. record (b.trade) { orders = os })
            (append_assoc pre (o ∷ []) (select (λ o. not o.ft_is_open) xs)
              ∙ ap (λ os. pre ++ os) (sym (select-kept o xs e))),
    ground (arith, k.1, e),
    ground (arith, k.2, e),
  )
  closed-Cancelled pre o xs b (err x) e k = k

  cancel_all-Cancelled :
      (pre xs : List (Order F)) (b : Book F)
      → b.trade.orders ≡ pre ++ xs
      → IsDistinct (pre ++ xs)
      → Cancelled pre xs b (cancel_all (select (λ o. o.ft_is_open) xs) b)
  unfolding Cancelled cancel_all select of_side deleted count_canceled
  cancel_all-Cancelled pre [] b h d =
      (ap (λ os. record (b.trade) { orders = os }) h, omega arith, omega arith)
  cancel_all-Cancelled pre (o ∷ xs) b h d = elim (Bool-cases o.ft_is_open) [
    | inl e ↦
        let (a, q) = split-IsDistinct pre o xs d in
        open-Cancelled pre o xs b _ e (
          subst (λ os. Cancelled pre xs (deleted o (pre ++ xs) b) (cancel_all os b))
            (sym (select-open o xs e))
            (subst
              (λ r.
                Cancelled pre xs (deleted o (pre ++ xs) b)
                  (r >>= cancel_all (select (λ o. o.ft_is_open) xs)))
              (sym (delete_from-append pre o xs b h a))
              (cancel_all-Cancelled pre xs (deleted o (pre ++ xs) b) refl q)))
    | inr e ↦ closed-Cancelled pre o xs b _ e (
        subst (λ os. Cancelled (pre ++ o ∷ []) xs b (cancel_all os b)) (sym (select-closed o xs e))
          (cancel_all-Cancelled (pre ++ o ∷ []) xs b (h ∙ sym (append_assoc pre (o ∷ []) xs))
            (subst IsDistinct (sym (append_assoc pre (o ∷ []) xs)) d)))
  ]

  Cancelled-ok :
      (b : Book F) (r : Result ValueError (Book F))
      → Cancelled [] b.trade.orders b r
      → (u : Book F) × (r ≡ ok u)
        × (u.trade ≡ record (b.trade) { orders = select (λ o. not o.ft_is_open) b.trade.orders })
        × (u.canceled_entry_orders
            ≡ b.canceled_entry_orders + of_side (entry_side b.trade) b.trade.orders)
        × (u.canceled_exit_orders
            ≡ b.canceled_exit_orders + of_side (exit_side b.trade) b.trade.orders)
  unfolding Cancelled
  Cancelled-ok b (ok u) k = (u, refl, k.0, k.1, k.2)
  Cancelled-ok b (err e) k = absurd k

  -- When a trade's orders have different ids, cancelling the open ones succeeds. The trade keeps
  -- exactly its other orders, in their order, and nothing else of it changes. The cancelled orders are
  -- counted by their side.
  pub cancel_open_orders-select :
      (b : Book F)
      → IsDistinct b.trade.orders
      → (u : Book F) × (cancel_open_orders b ≡ ok u)
        × (u.trade ≡ record (b.trade) { orders = select (λ o. not o.ft_is_open) b.trade.orders })
        × (u.canceled_entry_orders
            ≡ b.canceled_entry_orders + of_side (entry_side b.trade) b.trade.orders)
        × (u.canceled_exit_orders
            ≡ b.canceled_exit_orders + of_side (exit_side b.trade) b.trade.orders)
  unfolding cancel_open_orders
  cancel_open_orders-select b d =
      Cancelled-ok b (cancel_all (select (λ o. o.ft_is_open) b.trade.orders) b)
        (cancel_all-Cancelled [] b.trade.orders b refl d)
