-- ===== src/Persistence/Trade/Updating.antt =====
-- `update_order` of class LocalTrade in freqtrade/persistence/trade_model.py: an order of a trade
-- follows the exchange.
use freqtrade_llm.Base.{
  ℕ, true, false, Option, none, some, List, [], ◌∷◌, String, str_eq, eq_iff, if◌then◌else◌, ◌≡◌,
  ◌≢◌, refl, arith, Bool-cases, inl, inr,
}
use freqtrade_llm.Base.Float.{Float}
use freqtrade_llm.Base.Result.{Result, ok, ◌>>=◌}
use freqtrade_llm.Exchange.Fees.{CcxtOrder}
use freqtrade_llm.Persistence.Order.{Order}
use freqtrade_llm.Persistence.Order.Updating.{
  UpdateError, with_answer, update_from_ccxt_object, update_orders,
}
use freqtrade_llm.Persistence.Trade.{Trade, find_order, select_order_by_order_id}

abbrev pub with_orders : {F : Type 0} → Trade F → List (Order F) → Trade F
with_orders t os = record t { orders = os }

module _ {F : Type 0} ⦃f : Float F⦄ where
  unfoldable pub update_order : ℕ → CcxtOrder F → Trade F → Result UpdateError (Trade F)
  unfolding update_orders
  update_order clock order t = update_orders clock order t.orders >>= λ os. ok (with_orders t os)

  -- An order of the id is found as it was, with the answer.
  abbrev pub answered : ℕ → CcxtOrder F → Option (Order F) → Option (Order F)
  answered clock order none = none
  answered clock order (some o) = some (with_answer clock order o)

  -- The orders after the update
  abbrev Follows : ℕ → CcxtOrder F → List (Order F) → List (Order F) → Type 0
  Follows clock order os us =
      (update_orders clock order os ≡ ok us)
      × (find_order order.id us ≡ answered clock order (find_order order.id os))
      × ((id : String) → id ≢ order.id → find_order id us ≡ find_order id os)

  find_order-cons :
      (id : String) (o : Order F) (os : List (Order F))
      → find_order id (o ∷ os) ≡ (if str_eq o.order_id id then some o else find_order id os)
  unfolding find_order
  find_order-cons id o os = refl

  order_id-with_answer :
      (clock : ℕ) (order : CcxtOrder F) (o : Order F)
      → (with_answer clock order o).order_id ≡ o.order_id
  unfolding with_answer
  order_id-with_answer clock order o = refl

  here-Follows :
      (clock : ℕ) (order : CcxtOrder F) (o : Order F) (os : List (Order F))
      → str_eq o.order_id order.id ≡ true
      → Follows clock order (o ∷ os) (with_answer clock order o ∷ os)
  unfolding update_orders update_from_ccxt_object
  here-Follows clock order o os e = (
    rw e refl,
    ground (
      arith,
      e,
      find_order-cons order.id o os,
      find_order-cons order.id (with_answer clock order o) os,
      order_id-with_answer clock order o,
    ),
    λ id n. ground (
      arith,
      eq_iff o.order_id order.id,
      eq_iff o.order_id id,
      find_order-cons id o os,
      find_order-cons id (with_answer clock order o) os,
      order_id-with_answer clock order o,
    ),
  )

  later-Follows :
      (clock : ℕ) (order : CcxtOrder F) (o : Order F) (os us : List (Order F))
      → str_eq o.order_id order.id ≡ false
      → Follows clock order os us
      → Follows clock order (o ∷ os) (o ∷ us)
  unfolding update_orders
  later-Follows clock order o os us e (h, k, l) = (
    rw (e, h) refl,
    ground (arith, find_order-cons order.id o os, find_order-cons order.id o us),
    λ id n. ground (arith, l id n, find_order-cons id o os, find_order-cons id o us),
  )

  update_orders-Follows :
      (clock : ℕ) (order : CcxtOrder F) (os : List (Order F))
      → (us : List (Order F)) × Follows clock order os us
  unfolding update_orders find_order
  update_orders-Follows clock order [] = ([], (refl, refl, λ id n. refl))
  update_orders-Follows clock order (o ∷ os) = elim (Bool-cases (str_eq o.order_id order.id)) [
    | inl e ↦ (with_answer clock order o ∷ os, here-Follows clock order o os e)
    | inr e ↦
        let (us, h) = update_orders-Follows clock order os in
        (o ∷ us, later-Follows clock order o os us e h)
  ]

  -- An update never raises. The order of the answer's id, if the trade has one, is then found with
  -- what the answer says, and every other order as it was.
  pub update_order-finds :
      (clock : ℕ) (order : CcxtOrder F) (t : Trade F)
      → (u : Trade F) × (update_order clock order t ≡ ok u)
        × (select_order_by_order_id u order.id
            ≡ answered clock order (select_order_by_order_id t order.id))
        × ((id : String)
            → id ≢ order.id
            → select_order_by_order_id u id ≡ select_order_by_order_id t id)
  unfolding update_order select_order_by_order_id
  update_order-finds clock order t =
      let (us, (h, k, l)) = update_orders-Follows clock order t.orders in
      (with_orders t us, rw h refl, k, l)
